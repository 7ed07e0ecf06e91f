-- ===== src/VideoReceiver/Keyframe.antt =====
-- video_receiver.c: `video_receiver_is_keyframe`, the search for SPS or an IDR slice in an Annex B
-- access unit.
use qdplay.Prelude.{
  ℕ, ◌≡◌, refl, ◌↔◌, inl, inr, Bool, true, false, ◌&&◌, ◌||◌, List, [], ◌∷◌, ◌++◌, bit_and, ◌==◌,
  arith, Bool-cases, ap,
}

-- `data[i] == 0 && data[i + 1] == 0 && data[i + 2] == 1`
abbrev pub is_start_code : ℕ → ℕ → ℕ → Bool
is_start_code a b c = a == 0 && b == 0 && c == 1

-- `nal_type == 7 || nal_type == 5`, of the byte behind the start code.
abbrev pub is_key_nal : ℕ → Bool
is_key_nal b = bit_and b 0x1F == 7 || bit_and b 0x1F == 5

-- The loop from index `i` on, over the bytes from there. `i += 2; i++` leaves out three bytes.
pub is_keyframe : List ℕ → Bool
is_keyframe (a ∷ b ∷ c ∷ d ∷ rest) = elim (is_start_code a b c) [
  | true ↦ elim (is_key_nal d) [ true ↦ true | false ↦ is_keyframe (d ∷ rest) ]
  | false ↦ is_keyframe (b ∷ c ∷ d ∷ rest)
]
is_keyframe _ = false

-- Somewhere in the unit a start code is followed by a byte of NAL type 7 or 5.
abbrev pub HasKeyNal : List ℕ → Type 0
HasKeyNal xs =
    (before : List ℕ) × (rest : List ℕ) × (d : ℕ) × (xs ≡ before ++ (0 ∷ 0 ∷ 1 ∷ d ∷ rest))
    × (is_key_nal d ≡ true)

pub is_keyframe-nil : is_keyframe [] ≡ false
unfolding is_keyframe
is_keyframe-nil = refl

-- A byte in front does not hide a key frame: no two start codes overlap.
is_keyframe-cons : (x : ℕ) (xs : List ℕ) → is_keyframe xs ≡ true → is_keyframe (x ∷ xs) ≡ true
unfolding is_keyframe
is_keyframe-cons x [] h = cc
is_keyframe-cons x (a ∷ []) h = cc
is_keyframe-cons x (a ∷ b ∷ []) h = cc
is_keyframe-cons x (a ∷ b ∷ c ∷ []) h = cc
is_keyframe-cons x (a ∷ b ∷ c ∷ d ∷ []) h = ground arith
is_keyframe-cons x (a ∷ b ∷ c ∷ d ∷ e ∷ []) h = ground arith
is_keyframe-cons x (a ∷ b ∷ c ∷ d ∷ e ∷ f ∷ rest) h = ground arith

is_keyframe_here :
    (d : ℕ) (rest : List ℕ) → is_key_nal d ≡ true → is_keyframe (0 ∷ 0 ∷ 1 ∷ d ∷ rest) ≡ true
unfolding is_keyframe
is_keyframe_here d rest h = rw (h, is_keyframe)

is_keyframe_complete :
    (before rest : List ℕ) (d : ℕ)
    → is_key_nal d ≡ true
    → is_keyframe (before ++ (0 ∷ 0 ∷ 1 ∷ d ∷ rest)) ≡ true
is_keyframe_complete [] rest d h = is_keyframe_here d rest h
is_keyframe_complete (x ∷ before) rest d h =
    is_keyframe-cons x _ (is_keyframe_complete before rest d h)

HasKeyNal-append : (xs ys : List ℕ) → HasKeyNal ys → HasKeyNal (xs ++ ys)
HasKeyNal-append [] ys h = h
HasKeyNal-append (x ∷ xs) ys h =
    let (before, rest, d, e, k) = HasKeyNal-append xs ys h in (x ∷ before, rest, d, ap (◌∷◌ x) e, k)

is_keyframe_sound : (xs : List ℕ) → is_keyframe xs ≡ true → HasKeyNal xs
unfolding is_keyframe
is_keyframe_sound [] h = cc
is_keyframe_sound (a ∷ []) h = cc
is_keyframe_sound (a ∷ b ∷ []) h = cc
is_keyframe_sound (a ∷ b ∷ c ∷ []) h = cc
is_keyframe_sound (a ∷ b ∷ c ∷ d ∷ rest) h = elim (Bool-cases (is_start_code a b c)) [
  | inl s ↦ elim (Bool-cases (is_key_nal d)) [
    | inl k ↦ ([], rest, d, ground arith, k)
    | inr k ↦
        HasKeyNal-append (a ∷ b ∷ c ∷ []) (d ∷ rest) (is_keyframe_sound (d ∷ rest) (ground arith))
  ]
  | inr s ↦
      HasKeyNal-append (a ∷ []) (b ∷ c ∷ d ∷ rest)
        (is_keyframe_sound (b ∷ c ∷ d ∷ rest) (ground arith))
]

-- The search finds a key frame exactly when a start code followed by a byte of NAL type 7 or 5
-- stands anywhere in the unit, although it steps over three bytes behind each other start code.
pub is_keyframe-HasKeyNal : (xs : List ℕ) → (is_keyframe xs ≡ true) ↔ HasKeyNal xs
is_keyframe-HasKeyNal xs =
    (is_keyframe_sound xs, λ (before, rest, d, e, k). rw e (is_keyframe_complete before rest d k))
