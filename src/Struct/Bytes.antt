-- ===== src/Struct/Bytes.antt =====
-- What is read back from a buffer into which fields are stored.
use qdplay.Prelude.{
  ℕ, zero, suc, ◌+◌, ◌-◌, ◌≡◌, ◌≢◌, ◌≤◌, ◌<◌, refl, ◌∙◌, ap, ◌&&◌, List, [], ◌∷◌, ◌++◌, length,
  get_or, set, drop, ltb, leb, if◌then◌else◌, arith, length-set, Bool-cases, inl, inr, sym,
}
use qdplay.Struct.{put_bytes, Field, fill, byte_of}

get_or-set_same : (xs : List ℕ) (i v : ℕ) → i < length xs → get_or (set xs i v) i 0 ≡ v
get_or-set_same [] i v h = absurd (omega arith)
get_or-set_same (x ∷ xs) zero v h = refl
get_or-set_same (x ∷ xs) (suc i) v h = get_or-set_same xs i v (omega arith)

get_or-set_other : (xs : List ℕ) (i j v : ℕ) → i ≢ j → get_or (set xs i v) j 0 ≡ get_or xs j 0
get_or-set_other [] i j v h = refl
get_or-set_other (x ∷ xs) zero zero v h = absurd (h refl)
get_or-set_other (x ∷ xs) zero (suc j) v h = refl
get_or-set_other (x ∷ xs) (suc i) zero v h = refl
get_or-set_other (x ∷ xs) (suc i) (suc j) v h = get_or-set_other xs i j v (λ e. h (ap suc e))

drop-set : (n i v : ℕ) (xs : List ℕ) → i < n → drop n (set xs i v) ≡ drop n xs
drop-set zero i v xs h = absurd (omega arith)
drop-set (suc n) i v [] h = refl
drop-set (suc n) zero v (x ∷ xs) h = refl
drop-set (suc n) (suc i) v (x ∷ xs) h = drop-set n i v xs (omega arith)

pub length-put_bytes :
    (offset : ℕ) (bytes memory : List ℕ) → length (put_bytes offset bytes memory) ≡ length memory
unfolding put_bytes
length-put_bytes offset [] memory = refl
length-put_bytes offset (b ∷ bs) memory =
    length-put_bytes (suc offset) bs (set memory offset b) ∙ length-set memory offset b

pub get_or-put_bytes_before :
    (offset : ℕ) (bytes memory : List ℕ) (i : ℕ)
    → i < offset
    → get_or (put_bytes offset bytes memory) i 0 ≡ get_or memory i 0
unfolding put_bytes
get_or-put_bytes_before offset [] memory i h = refl
get_or-put_bytes_before offset (b ∷ bs) memory i h =
    get_or-put_bytes_before (suc offset) bs (set memory offset b) i (omega arith)
    ∙ get_or-set_other memory offset i b (omega arith)

get_or-put_bytes_behind :
    (offset : ℕ) (bytes memory : List ℕ) (i : ℕ)
    → offset + length bytes ≤ i
    → get_or (put_bytes offset bytes memory) i 0 ≡ get_or memory i 0
unfolding put_bytes
get_or-put_bytes_behind offset [] memory i h = refl
get_or-put_bytes_behind offset (b ∷ bs) memory i h =
    get_or-put_bytes_behind (suc offset) bs (set memory offset b) i (omega arith)
    ∙ get_or-set_other memory offset i b (omega arith)

get_or-put_bytes_inside :
    (offset : ℕ) (bytes memory : List ℕ) (k : ℕ)
    → k < length bytes
    → offset + k < length memory
    → get_or (put_bytes offset bytes memory) (offset + k) 0 ≡ get_or bytes k 0
unfolding put_bytes
get_or-put_bytes_inside offset [] memory k h room = absurd (omega arith)
get_or-put_bytes_inside offset (b ∷ bs) memory zero h room =
    let e : offset + 0 ≡ offset = omega arith in
    rw e (
      get_or-put_bytes_before (suc offset) bs (set memory offset b) offset (omega arith)
      ∙ get_or-set_same memory offset b (omega arith))
get_or-put_bytes_inside offset (b ∷ bs) memory (suc k) h room =
    let e : offset + suc k ≡ suc offset + k = omega arith in
    rw e (
      get_or-put_bytes_inside (suc offset) bs (set memory offset b) k (omega arith)
        (omega (arith, length-set memory offset b)))

-- The bytes from `offset` on are the ones stored there, and then the ones behind them.
pub drop-put_bytes :
    (offset : ℕ) (bytes memory : List ℕ)
    → offset + length bytes ≤ length memory
    → drop offset (put_bytes offset bytes memory) ≡ bytes ++ drop (offset + length bytes) memory
unfolding put_bytes
drop-put_bytes offset [] memory room = ap (λ n. drop n memory) (omega arith)
drop-put_bytes offset (b ∷ bs) memory room =
    let next = set memory offset b in
    let size : length next ≡ length memory = length-set memory offset b in
    let rest : drop (suc offset) (put_bytes (suc offset) bs next)
        ≡ bs ++ drop (suc offset + length bs) next =
      drop-put_bytes (suc offset) bs next (omega (arith, size)) in
    let same : drop (suc offset + length bs) next ≡ drop (offset + suc (length bs)) memory =
      drop-set (suc offset + length bs) offset b memory (omega arith)
      ∙ ap (λ n. drop n memory) (omega arith) in
    drop_head offset (put_bytes (suc offset) bs next)
      (omega (arith, size, length-put_bytes (suc offset) bs next))
    ∙ ap (λ h. h ∷ drop (suc offset) (put_bytes (suc offset) bs next))
        (get_or-put_bytes_before (suc offset) bs next offset (omega arith)
          ∙ get_or-set_same memory offset b (omega arith))
    ∙ ap (◌∷◌ b) (rest ∙ ap (◌++◌ bs) same)
  where
    drop_head : (n : ℕ) (xs : List ℕ) → n < length xs → drop n xs ≡ get_or xs n 0 ∷ drop (suc n) xs
    drop_head n [] h = absurd (omega arith)
    drop_head zero (x ∷ xs) h = refl
    drop_head (suc n) (x ∷ xs) h = drop_head n xs (omega arith)

get_or-put_bytes :
    (offset : ℕ) (bytes memory : List ℕ) (i : ℕ)
    → i < length memory
    → get_or (put_bytes offset bytes memory) i 0 ≡ (
        if leb offset i && ltb i (offset + length bytes)
        then get_or bytes (i - offset) 0
        else get_or memory i 0)
get_or-put_bytes offset bytes memory i room = elim (Bool-cases (leb offset i)) [
  | inr before ↦ rw before (get_or-put_bytes_before offset bytes memory i (ground arith))
  | inl from ↦ elim (Bool-cases (ltb i (offset + length bytes))) [
    | inr behind ↦ rw (from, behind) (get_or-put_bytes_behind offset bytes memory i (ground arith))
    | inl inside ↦
        let k = i - offset in
        let e : offset + k ≡ i = ground arith in
        rw (from, inside)
          (ap (λ j. get_or (put_bytes offset bytes memory) j 0) (sym e)
            ∙ get_or-put_bytes_inside offset bytes memory k (ground arith) (omega (arith, e)))
  ]
]

pub length-fill : (fs : List Field) (memory : List ℕ) → length (fill fs memory) ≡ length memory
unfolding fill
length-fill [] memory = refl
length-fill ((offset, bytes) ∷ fs) memory =
    length-fill fs (put_bytes offset bytes memory) ∙ length-put_bytes offset bytes memory

-- A byte of a structure after its fields are stored.
pub get_or-fill :
    (fs : List Field) (memory : List ℕ) (i : ℕ)
    → i < length memory
    → get_or (fill fs memory) i 0 ≡ byte_of fs i (get_or memory i 0)
unfolding fill
get_or-fill [] memory i room = refl
get_or-fill ((offset, bytes) ∷ fs) memory i room =
    get_or-fill fs (put_bytes offset bytes memory) i
      (omega (arith, length-put_bytes offset bytes memory))
    ∙ ap (byte_of fs i) (get_or-put_bytes offset bytes memory i room)
