-- ===== src/HuMessage/Hex.antt =====
-- src/utils/common_utils.c and hu_message.c: numbers as hexadecimal text.
pub mod RoundTrip
use qdplay.Prelude.{
  ℕ, zero, suc, ◌+◌, ◌-◌, ◌*◌, ◌/◌, ◌%◌, ◌^◌, Bool, true, false, ◌&&◌, ◌||◌, Option, none, some,
  List, [], ◌∷◌, ◌++◌, length, get_or, take, drop, replicate, ltb, leb, ◌==◌, if◌then◌else◌,
}

abbrev pub letters : List ℕ
letters =
    b'0' ∷ b'1' ∷ b'2' ∷ b'3' ∷ b'4' ∷ b'5' ∷ b'6' ∷ b'7' ∷ b'8' ∷ b'9' ∷ b'a' ∷ b'b' ∷ b'c' ∷ b'd'
    ∷ b'e' ∷ b'f' ∷ []

-- The loop of `common_utils_dec_to_hex`: `len` places are left, and `done` stands behind them.
pub dec_to_hex_loop : ℕ → ℕ → List ℕ → List ℕ
dec_to_hex_loop zero value done = done
dec_to_hex_loop (suc len) value done =
    let more = dec_to_hex_loop len (value / 16) (get_or letters (value % 16) 0 ∷ done) in
    if ltb 0 value then more else replicate (suc len) b'0' ++ done

pub dec_to_hex : ℕ → ℕ → List ℕ
dec_to_hex len value = dec_to_hex_loop len value []

-- C's `isspace`.
abbrev pub is_space : ℕ → Bool
is_space c = c == 32 || (leb 9 c && leb c 13)

-- The value of a hexadecimal digit, or 16.
abbrev pub digit_value : ℕ → ℕ
digit_value c =
    if leb b'0' c && leb c b'9'
    then c - b'0'
    else if leb b'a' c && leb c b'f'
    then c - b'a' + 10
    else if leb b'A' c && leb c b'F'
    then c - b'A' + 10
    else 16

-- The digits of `strtoul` in base 16: the value and how many characters are taken.
pub take_digits : List ℕ → ℕ → ℕ → ℕ × ℕ
take_digits [] acc taken = (acc, taken)
take_digits (c ∷ cs) acc taken =
    let more = take_digits cs (acc * 16 + digit_value c) (taken + 1) in
    if ltb (digit_value c) 16 then more else (acc, taken)

-- `strtoul` after the sign: an optional "0x" that a digit follows, and the digits.
pub after_sign : List ℕ → ℕ × ℕ
after_sign (z ∷ x ∷ d ∷ cs) =
    let (v, n) = take_digits (d ∷ cs) 0 0 in
    if z == b'0' && (x == b'x' || x == b'X') && ltb (digit_value d) 16
    then (v, n + 2)
    else take_digits (z ∷ x ∷ d ∷ cs) 0 0
after_sign cs = take_digits cs 0 0

-- The value in 64 bits, saturated on overflow, negated after a minus sign.
abbrev pub to_ulong : Bool → ℕ → ℕ
to_ulong minus v = if leb (2 ^ 64) v then 2 ^ 64 - 1 else if minus then (2 ^ 64 - v) % 2 ^ 64 else v

-- With a sign of `n` characters: nothing is taken if no digit follows.
abbrev pub signed : Bool → ℕ → ℕ × ℕ → ℕ × ℕ
signed minus n (v, taken) = if taken == 0 then (0, 0) else (to_ulong minus v, taken + n)

abbrev pub at_sign : List ℕ → ℕ × ℕ
at_sign [] = (0, 0)
at_sign (c ∷ cs) =
    if c == b'-'
    then signed true 1 (after_sign cs)
    else if c == b'+'
    then signed false 1 (after_sign cs)
    else signed false 0 (after_sign (c ∷ cs))

-- `strtoul(text, &end, 16)`: the value, and how many characters lie before `end`.
pub strtoul_16 : List ℕ → ℕ × ℕ
strtoul_16 [] = (0, 0)
strtoul_16 (c ∷ cs) =
    let (v, taken) = strtoul_16 cs in
    if is_space c then (if taken == 0 then (0, 0) else (v, taken + 1)) else at_sign (c ∷ cs)

-- `hu_message_read_hex`, on the bytes from the cursor to the end: the number and the bytes behind
-- it, or `none` for FALSE.
pub read_hex : ℕ → List ℕ → Option (ℕ × List ℕ)
read_hex digits rest =
    let (v, taken) = strtoul_16 (take digits rest) in
    if ltb (length rest) digits || leb 32 digits
    then none
    else if taken == digits
    then some (v % 2 ^ 32, drop digits rest)
    else none
