-- ===== src/HuMessage/Hex/RoundTrip.antt =====
-- `hu_message_read_hex` reads what `common_utils_dec_to_hex` has written.
use native.Mathlib.Nat.{pow-suc}
use mathlib.Core.List.{}
use qdplay.Prelude.{
  ℕ, zero, suc, ◌+◌, ◌*◌, ◌/◌, ◌%◌, ◌^◌, ◌≡◌, ◌≤◌, ◌<◌, refl, sym, ◌∙◌, ap, Bool, true, false, not,
  ◌&&◌, ◌||◌, some, List, [], ◌∷◌, ◌++◌, length, get_or, take, drop, replicate, ltb, leb, ◌==◌,
  arith, All, Bool-cases, inl, inr, length-append, take-append_length, drop-append_length, ==_iff,
  passes_below, passes_below_lem,
}
use qdplay.HuMessage.Hex.{
  letters, dec_to_hex_loop, dec_to_hex, is_space, digit_value, take_digits, after_sign, signed,
  strtoul_16, read_hex,
}

-- The `n` lowest digits of `v`, in front of `done`.
hex_text : ℕ → ℕ → List ℕ → List ℕ
hex_text zero v done = done
hex_text (suc n) v done = hex_text n (v / 16) (get_or letters (v % 16) 0 ∷ done)

abbrev zeros : ℕ → List ℕ → List ℕ
zeros n done = replicate n b'0' ++ done

zeros-cons : (n : ℕ) (done : List ℕ) → zeros n (b'0' ∷ done) ≡ b'0' ∷ zeros n done
zeros-cons zero done = refl
zeros-cons (suc n) done = ap (◌∷◌ b'0') (zeros-cons n done)

hex_text-zero : (n : ℕ) (done : List ℕ) → hex_text n 0 done ≡ zeros n done
unfolding hex_text
hex_text-zero zero done = refl
hex_text-zero (suc n) done = hex_text-zero n (b'0' ∷ done) ∙ zeros-cons n done

dec_to_hex_loop-hex_text : (n v : ℕ) (done : List ℕ) → dec_to_hex_loop n v done ≡ hex_text n v done
unfolding dec_to_hex_loop hex_text
dec_to_hex_loop-hex_text zero v done = refl
dec_to_hex_loop-hex_text (suc n) v done = elim (Bool-cases (ltb 0 v)) [
  | inl e ↦ rw e (dec_to_hex_loop-hex_text n (v / 16) _)
  | inr e ↦
      let z : v ≡ 0 = ground arith in
      rw (e, z) (sym (hex_text-zero n (b'0' ∷ done) ∙ zeros-cons n done))
]

-- A digit as the writer writes it: no space, sign or prefix begins with it.
abbrev is_letter : ℕ → Bool
is_letter c =
    ltb (digit_value c) 16
    && not (is_space c)
    && not (c == b'-')
    && not (c == b'+')
    && not (c == b'x' || c == b'X')

all_five :
    (a b c d e : Bool)
    → (a && not b && not c && not d && not e) ≡ true
    → (a ≡ true) × (b ≡ false) × (c ≡ false) × (d ≡ false) × (e ≡ false)
all_five true false false false false h = (refl, refl, refl, refl, refl)
all_five _ _ _ _ _ h = ground arith

letters_checked :
    passes_below (λ d. is_letter (get_or letters d 0) && digit_value (get_or letters d 0) == d) 16
    ≡ true
unfolding passes_below
letters_checked = refl

letter_facts :
    (d : ℕ)
    → d < 16
    → (is_letter (get_or letters d 0) && digit_value (get_or letters d 0) == d) ≡ true
letter_facts d h = passes_below_lem _ 16 h letters_checked

hex_text-All :
    (n v : ℕ) (done : List ℕ)
    → All (λ c. is_letter c ≡ true) done
    → All (λ c. is_letter c ≡ true) (hex_text n v done)
unfolding hex_text
hex_text-All zero v done all = all
hex_text-All (suc n) v done all =
    hex_text-All n (v / 16) _ (ground (arith, letter_facts (v % 16)), all)

length-hex_text : (n v : ℕ) (done : List ℕ) → length (hex_text n v done) ≡ n + length done
unfolding hex_text
length-hex_text zero v done = omega arith
length-hex_text (suc n) v done =
    omega (arith, length-hex_text n (v / 16) (get_or letters (v % 16) 0 ∷ done))

take_digits-hex_text :
    (n v t : ℕ) (rest : List ℕ)
    → v < 16 ^ n
    → take_digits (hex_text n v rest) 0 t ≡ take_digits rest v (t + n)
unfolding hex_text take_digits
take_digits-hex_text zero v t rest h =
    let z : v ≡ 0 = omega arith in let e : t + 0 ≡ t = omega arith in rw (z, e)
take_digits-hex_text (suc n) v t rest h =
    let c : ℕ = get_or letters (v % 16) 0 in
    let facts = letter_facts (v % 16) (omega arith) in
    let value : digit_value c ≡ v % 16 = (==_iff _ _).0 (ground (arith, facts)) in
    let digit : ltb (digit_value c) 16 ≡ true = ground (arith, facts) in
    let whole : v / 16 * 16 + digit_value c ≡ v = omega (arith, value) in
    let places : t + n + 1 ≡ t + suc n = omega arith in
    take_digits-hex_text n (v / 16) t (c ∷ rest) (omega (arith, pow-suc 16 n))
    ∙ rw (digit, whole, places)

after_sign-letters :
    (c : ℕ) (cs : List ℕ)
    → All (λ c. is_letter c ≡ true) (c ∷ cs)
    → after_sign (c ∷ cs) ≡ take_digits (c ∷ cs) 0 0
unfolding after_sign
after_sign-letters c [] all = refl
after_sign-letters c (d ∷ []) all = refl
after_sign-letters c (d ∷ e ∷ cs) all =
    let plain : (c == b'0' && (d == b'x' || d == b'X') && ltb (digit_value e) 16) ≡ false = ground (
      arith,
      (all_five (ltb (digit_value d) 16) (is_space d) (d == b'-') (d == b'+')
          (d == b'x' || d == b'X') all.1.0).4,
    ) in
    rw plain

strtoul_16-letters :
    (c : ℕ) (cs : List ℕ)
    → All (λ c. is_letter c ≡ true) (c ∷ cs)
    → strtoul_16 (c ∷ cs) ≡ signed false 0 (take_digits (c ∷ cs) 0 0)
unfolding strtoul_16
strtoul_16-letters c cs all =
    let (digit, space, minus, plus, prefix) =
      all_five (ltb (digit_value c) 16) (is_space c) (c == b'-') (c == b'+')
        (c == b'x' || c == b'X') all.0 in
    rw (space, minus, plus) (ap (signed false 0) (after_sign-letters c cs all))

pub length-dec_to_hex : (n v : ℕ) → length (dec_to_hex n v) ≡ n
unfolding dec_to_hex
length-dec_to_hex n v = rw (dec_to_hex_loop-hex_text n v []) (length-hex_text n v [] ∙ omega arith)

-- The text of a number that fits it is taken whole.
strtoul_16-dec_to_hex :
    (n v : ℕ) → v < 16 ^ suc n → v < 2 ^ 64 → strtoul_16 (dec_to_hex (suc n) v) ≡ (v, suc n)
unfolding dec_to_hex take_digits
strtoul_16-dec_to_hex n v h small = rw (dec_to_hex_loop-hex_text (suc n) v []) (
    go (hex_text (suc n) v []) (hex_text-All (suc n) v [] tt) (length-hex_text (suc n) v [])
      (take_digits-hex_text (suc n) v 0 [] h))
  where
    go :
        (text : List ℕ)
        → All (λ c. is_letter c ≡ true) text
        → length text ≡ suc n + 0
        → take_digits text 0 0 ≡ (v, 0 + suc n)
        → strtoul_16 text ≡ (v, suc n)
    go [] all len e = absurd (omega (arith, len))
    go (c ∷ cs) all len e =
        let some_digits : (0 + suc n == 0) ≡ false = ground arith in
        let fits : leb (2 ^ 64) v ≡ false = ground arith in
        let places : 0 + suc n + 0 ≡ suc n = omega arith in
        strtoul_16-letters c cs all ∙ rw (e, some_digits, fits, places)

-- A number of up to 31 digits is read back from its text, whatever follows it, if it fits the text
-- and 32 bits.
pub read_hex-dec_to_hex :
    (n v : ℕ) (rest : List ℕ)
    → 1 ≤ n
    → n < 32
    → v < 16 ^ n
    → v < 2 ^ 32
    → read_hex n (dec_to_hex n v ++ rest) ≡ some (v, rest)
unfolding read_hex
read_hex-dec_to_hex zero v rest pos small h fits = absurd (omega arith)
read_hex-dec_to_hex (suc n) v rest pos small h fits =
    let text = dec_to_hex (suc n) v in
    let len : length text ≡ suc n = length-dec_to_hex (suc n) v in
    let front : take (suc n) (text ++ rest) ≡ text =
      ap (λ k. take k (text ++ rest)) (sym len) ∙ take-append_length text rest in
    let behind : drop (suc n) (text ++ rest) ≡ rest =
      ap (λ k. drop k (text ++ rest)) (sym len) ∙ drop-append_length text rest in
    let enough : (ltb (length (text ++ rest)) (suc n) || leb 32 (suc n)) ≡ false =
      ground (arith, length-append text rest, len) in
    let value : v % 2 ^ 32 ≡ v = omega arith in
    rw (enough, front, strtoul_16-dec_to_hex n v h (omega arith), behind, value)
      (rw ((==_iff (suc n) (suc n)).1 refl))
