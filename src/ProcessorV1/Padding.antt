-- ===== src/ProcessorV1/Padding.antt =====
-- A payload behind its header: the message is whole chunks, and the payload is found in it.
use qdplay.Prelude.{
  ℕ, ◌+◌, ◌*◌, ◌/◌, ◌%◌, ◌^◌, ◌≡◌, ◌≤◌, ◌<◌, refl, sym, ◌∙◌, ap, some, List, length, drop,
  replicate, ltb, arith, Bool-cases, inl, inr, length-replicate,
}
use qdplay.Words.{be32_at, be32_bytes}
use qdplay.Struct.{fill}
use qdplay.Struct.Bytes.{length-fill, drop-put_bytes}
use qdplay.HuMessage.{Message}
use qdplay.HuMessage.Codec.{encode, decode}
use qdplay.HuMessage.Codec.Layout.{IsEncodable, full_length, length-encode}
use qdplay.HuMessage.Codec.RoundTrip.{decode-encode}
use qdplay.MessagesV1.WellFormed.{
  IsWellFormed, be32_at-fill, be32_at-put_bytes, fill-IsWellFormed, put_bytes-IsWellFormed,
}
use qdplay.ProcessorV1.{with_header, app_fields, app_message}

-- No size of a message wraps.
abbrev pub IsShort : ℕ → Type 0
IsShort len = len + 1024 ≤ 2 ^ 32

pub with_header_lem :
    (len : ℕ)
    → IsShort len
    → (with_header len % 512 ≡ 0) × (512 + len ≤ with_header len) × (with_header len < 2 ^ 32)
with_header_lem len short = elim (Bool-cases (ltb (len / 512 * 512 % 2 ^ 32) len)) [
  | inl more ↦ rw more (omega arith, ground arith, omega arith)
  | inr whole ↦ rw whole (omega arith, ground arith, omega arith)
]

-- A text message that is sent is well-formed.
pub app_message-IsWellFormed :
    (m : Message) → IsShort (length (encode m 0)) → IsWellFormed (app_message m)
app_message-IsWellFormed m short =
    let size = with_header (length (encode m 0)) in
    let blank : List ℕ = replicate size 0 in
    let (blocks, room, small) = with_header_lem (length (encode m 0)) short in
    let full : length blank ≡ size = length-replicate size 0 in
    let fields = app_fields size (length (encode m 0)) in
    put_bytes-IsWellFormed 512 (encode m 0) (fill fields blank) (omega arith) (
      fill-IsWellFormed fields blank (omega (arith, full, room)) refl
        (be32_bytes size small ∙ sym full) (rw full blocks))

-- What the header of a text message says of its length is true, and the payload behind the header is
-- decoded to the message.
pub decode-app_message :
    (m : Message)
    → IsEncodable m
    → IsShort (full_length m)
    → IsWellFormed (app_message m)
      × (be32_at (app_message m) 64 ≡ full_length m)
      × (decode (drop 512 (app_message m)) ≡ some m)
decode-app_message m v short =
    let len = length (encode m 0) in
    let size = with_header len in
    let blank : List ℕ = replicate size 0 in
    let same : len ≡ full_length m = length-encode m v in
    let short' : IsShort len = omega (arith, same, short) in
    let room = (with_header_lem len short').1 in
    let full : length blank ≡ size = length-replicate size 0 in
    let fields = app_fields size len in
    let memory = fill fields blank in
    let fits : 512 + len ≤ length memory = omega (arith, length-fill fields blank, full, room) in
    (
      app_message-IsWellFormed m short',
      be32_at-put_bytes 512 (encode m 0) memory 64 (omega arith)
          ∙ be32_at-fill fields blank 64 (omega (arith, full, room))
          ∙ be32_bytes len (omega (arith, short'))
          ∙ same,
      ap decode (drop-put_bytes 512 (encode m 0) memory fits)
          ∙ decode-encode m (drop (512 + len) memory) v,
    )
