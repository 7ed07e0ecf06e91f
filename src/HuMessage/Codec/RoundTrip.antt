-- ===== src/HuMessage/Codec/RoundTrip.antt =====
-- `hu_message_decode` reads what `hu_message_encode` has written.
use mathlib.Core.List.{}
use qdplay.Prelude.{
  ℕ, ◌-◌, ◌%◌, ◌^◌, ◌≡◌, ◌≤◌, ◌<◌, refl, sym, ◌∙◌, ap, false, some, List, [], ◌∷◌, ◌++◌, length,
  take, ltb, arith, All, length-append, take-append_length, drop-append_length,
}
use qdplay.Crc16.{crc16_xmodem}
use qdplay.HuMessage.{Message}
use qdplay.HuMessage.Hex.{dec_to_hex, read_hex}
use qdplay.HuMessage.Hex.RoundTrip.{read_hex-dec_to_hex, length-dec_to_hex}
use qdplay.HuMessage.Codec.{
  packet_mark, c_string, calc_len, chunked_len, put_str, put_items, put_fields, put_body, encode,
  read_str, read_items, read_fields, decode, head_len,
}
use qdplay.HuMessage.Codec.Layout.{
  IsText, full_length, IsEncodable, calc_len-full_length, put_fields-append, put_body-append,
  length-put_fields,
}

read_str-append : (s rest : List ℕ) → read_str (length s) (s ++ rest) ≡ some (s, rest)
unfolding read_str
read_str-append s rest =
    let enough : ltb (length (s ++ rest)) (length s) ≡ false =
      ground (arith, length-append s rest) in
    rw (enough, take-append_length s rest, drop-append_length s rest)

read_hex-put_str :
    (n : ℕ) (s rest : List ℕ)
    → 1 ≤ n
    → n < 32
    → c_string s ≡ s
    → length s < 16 ^ n
    → length s < 2 ^ 32
    → read_hex n (put_str n s rest) ≡ some (length s, s ++ rest)
unfolding put_str
read_hex-put_str n s rest pos small text h fits =
    rw text (read_hex-dec_to_hex n (length s) (s ++ rest) pos small h fits)

read_items-put_items :
    (xs : List (List ℕ)) (rest : List ℕ)
    → All (IsText (2 ^ 32)) xs
    → read_items (length xs) (put_items xs rest) ≡ some xs
unfolding read_items put_items
read_items-put_items [] rest all = refl
read_items-put_items (x ∷ xs) rest all = rw (
  read_hex-put_str 8 x (put_items xs rest) (omega arith) (omega arith) all.0.0
      (omega (arith, all.0.1)) all.0.1,
  read_str-append x (put_items xs rest),
  read_items-put_items xs rest all.1,
)

read_fields-put_fields :
    (m : Message) (rest : List ℕ)
    → IsEncodable m
    → read_fields m.flow_id (put_fields m rest) ≡ some m
unfolding read_fields put_fields
read_fields-put_fields m rest v =
    let flow = v.flow in
    let same : m.flow_id % 256 ≡ m.flow_id = omega (arith, flow) in
    let count = v.count in
    rw
      (
        read_hex-put_str 2 m.app_id
            (put_str 2 m.logic_id (dec_to_hex 2 (length m.items) ++ put_items m.items rest))
            (omega arith) (omega arith) v.app.0 (omega (arith, v.app.1)) (omega (arith, v.app.1)),
        read_str-append m.app_id
            (put_str 2 m.logic_id (dec_to_hex 2 (length m.items) ++ put_items m.items rest)),
        read_hex-put_str 2 m.logic_id (dec_to_hex 2 (length m.items) ++ put_items m.items rest)
            (omega arith) (omega arith) v.logic.0 (omega (arith, v.logic.1))
            (omega (arith, v.logic.1)),
        read_str-append m.logic_id (dec_to_hex 2 (length m.items) ++ put_items m.items rest),
        read_hex-dec_to_hex 2 (length m.items) (put_items m.items rest) (omega arith) (omega arith)
            (omega (arith, count)) (omega (arith, count)),
        read_items-put_items m.items rest v.items,
        same,
      )
      refl

-- The body of a message with its head read.
decode-put_body :
    (m : Message) (crc padding : List ℕ)
    → IsEncodable m
    → length crc ≡ 4
    → decode (put_body m (full_length m) (crc ++ padding)) ≡ some m
unfolding decode put_body
decode-put_body m crc padding v len =
    let flow = v.flow in
    let total = v.total in
    let fields = put_fields m crc in
    let fields_len : length fields ≡ full_length m - head_len =
      omega (arith, length-put_fields m crc v, len) in
    let split : put_fields m (crc ++ padding) ≡ fields ++ padding =
      sym (put_fields-append m crc padding) in
    let front : take (full_length m - head_len) (fields ++ padding) ≡ fields =
      ap (λ k. take k (fields ++ padding)) (sym fields_len) ∙ take-append_length fields padding in
    let whole = dec_to_hex 2 m.flow_id ++ (dec_to_hex 8 (full_length m) ++ (fields ++ padding)) in
    let enough : ltb (length (packet_mark ++ whole)) (full_length m) ≡ false = ground (
      arith,
      length-append (dec_to_hex 2 m.flow_id) (dec_to_hex 8 (full_length m) ++ (fields ++ padding)),
      length-append (dec_to_hex 8 (full_length m)) (fields ++ padding),
      length-append fields padding,
      length-dec_to_hex 2 m.flow_id,
      length-dec_to_hex 8 (full_length m),
      fields_len,
    ) in
    rw
      (
        split,
        read_hex-dec_to_hex 2 m.flow_id (dec_to_hex 8 (full_length m) ++ (fields ++ padding))
            (omega arith) (omega arith) (omega (arith, flow)) (omega (arith, flow)),
        read_hex-dec_to_hex 8 (full_length m) (fields ++ padding) (omega arith) (omega arith)
            (omega (arith, total)) total,
        enough,
        front,
        read_fields-put_fields m crc v,
      )
      refl

-- A message of texts without NUL, whose flow and whose count of texts fit a byte, whose application
-- and logic names have fewer than 256 bytes and whose whole length fits 32 bits, is decoded as itself
-- from what was encoded for it without chunks, whatever bytes follow.
pub decode-encode :
    (m : Message) (padding : List ℕ) → IsEncodable m → decode (encode m 0 ++ padding) ≡ some m
unfolding encode chunked_len
decode-encode m padding v =
    let crc = dec_to_hex 4 (crc16_xmodem (take (calc_len m - 4) (put_body m (calc_len m) []))) in
    ap decode (put_body-append m (calc_len m) crc padding)
    ∙ ap (λ n. decode (put_body m n (crc ++ padding))) (calc_len-full_length m v)
    ∙ decode-put_body m crc padding v (length-dec_to_hex 4 _)
