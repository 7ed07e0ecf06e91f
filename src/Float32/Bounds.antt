-- ===== src/Float32/Bounds.antt =====
-- A coordinate that passes the test can be converted.
use native.Mathlib.Nat.{pow-le-pow_right, div-lt_iff_lt-mul}
use qdplay.Prelude.{
  ℕ, ◌+◌, ◌-◌, ◌/◌, ◌%◌, ◌^◌, ◌≤◌, ◌<◌, ◌≡◌, refl, ap, true, false, some, ltb, ◌==◌, arith, inl,
  inr, Bool-cases,
}
use qdplay.Float32.{exponent, is_negative, magnitude, is_coordinate, to_int16}

-- A shift by ten bits or more.
shifted : (m e : ℕ) → m < 2 ^ 24 → e ≤ 140 → m / 2 ^ (150 - e) < 2 ^ 14
shifted m e h le =
    let big : 2 ^ 10 ≤ 2 ^ (150 - e) =
      pow-le-pow_right {n = 2} (omega arith) {i = 10} (omega arith) in
    (div-lt_iff_lt-mul {k = 2 ^ (150 - e)} (omega (arith, big))).1 (omega (arith, big))

fraction : (bits : ℕ) → bits < 0x46FFFE00 → exponent bits ≤ 141
fraction bits h = omega arith

magnitude_small : (bits : ℕ) → bits < 0x46FFFE00 → magnitude bits < 32767
magnitude_small bits h = elim (Bool-cases (ltb (exponent bits) 127)) [
  | inl e ↦ rw e (omega arith)
  | inr e ↦
      let shift : ltb (exponent bits) 150 ≡ true = ground (arith, fraction bits h) in
      rw (e, shift)
        (elim (Bool-cases (ltb (exponent bits) 141)) [
          | inl less ↦
              omega (
                arith,
                shifted (2 ^ 23 + bits % 2 ^ 23) (exponent bits) (omega arith) (ground arith),
              )
          | inr last ↦
              let nine : exponent bits ≡ 141 = ground (arith, fraction bits h) in
              rw nine (omega (arith, nine))
        ])
]

-- The conversion of a coordinate is defined and gives a number below 32767.
pub to_int16_lem :
    (bits : ℕ) → is_coordinate bits ≡ true → (v : ℕ) × (to_int16 bits ≡ some v) × (v < 32767)
unfolding to_int16
to_int16_lem bits h = elim (Bool-cases (ltb bits 0x46FFFE00)) [
  | inl plain ↦
      let small : magnitude bits < 32767 = magnitude_small bits (ground arith) in
      let finite : (exponent bits == 255) ≡ false = ground (arith, fraction bits) in
      let positive : is_negative bits ≡ false = ground arith in
      let fits : ltb (magnitude bits) (2 ^ 15) ≡ true = ground arith in
      (magnitude bits, rw (finite, positive, fits) refl, small)
  | inr other ↦ let zero : bits ≡ 2 ^ 31 = ground arith in (0, ap to_int16 zero, omega arith)
]
