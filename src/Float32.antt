-- ===== src/Float32.antt =====
-- C's `float` as the 32 bits that stand for it (IEEE 754 binary32): the comparison with the bounds
-- of a coordinate, and the conversion to `int16_t`.
pub mod Bounds
use qdplay.Prelude.{
  ℕ, ◌+◌, ◌-◌, ◌*◌, ◌/◌, ◌%◌, ◌^◌, Bool, true, false, ◌||◌, Option, none, some, ltb, leb, ◌==◌,
  if◌then◌else◌,
}

abbrev pub exponent : ℕ → ℕ
exponent bits = bits / 2 ^ 23 % 256

abbrev pub is_negative : ℕ → Bool
is_negative bits = leb (2 ^ 31) bits

-- The absolute value without its fraction, of a number that is neither infinite nor NaN.
abbrev pub magnitude : ℕ → ℕ
magnitude bits =
    let e = exponent bits in
    let m = 2 ^ 23 + bits % 2 ^ 23 in
    if ltb e 127 then 0 else if ltb e 150 then m / 2 ^ (150 - e) else m * 2 ^ (e - 150)

-- `(int16_t)x`, in two's complement. `none` where C leaves the conversion undefined.
unfoldable pub to_int16 : ℕ → Option ℕ
to_int16 bits =
    let v = magnitude bits in
    if exponent bits == 255
    then none
    else if is_negative bits
    then (if leb v (2 ^ 15) then some ((2 ^ 16 - v) % 2 ^ 16) else none)
    else if ltb v (2 ^ 15)
    then some v
    else none

-- `x >= 0.0f && x < 32767.0f`: the bits of numbers that are not negative are ordered as the numbers,
-- and -0.0f equals 0.0f.
abbrev pub is_coordinate : ℕ → Bool
is_coordinate bits = ltb bits 0x46FFFE00 || bits == 2 ^ 31
