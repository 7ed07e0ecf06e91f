-- ===== src/ProcessorV2/Message.antt =====
-- message_processor_v2.c: `message_processor_v2_read_message`, and the packed header of
-- inc/messages/v2/message_common_header_v2.h.
pub mod Whole
use qdplay.Prelude.{
  ℕ, ◌+◌, ◌-◌, ◌*◌, Bool, true, false, not, ◌&&◌, ◌||◌, Option, none, some, List, [], ◌∷◌, length,
  get_or, take, drop, ltb, ◌==◌, if◌then◌else◌,
}
use qdplay.Words.{be16_at, be32_at}
use qdplay.Accessory.{Session, round_up}
use qdplay.Accessory.Read.{Reading, Tail, complete, read_message_tail}

-- `sizeof(message_common_header_v2_t)`
abbrev pub header_len : ℕ
header_len = 16

abbrev pub max_message_size : ℕ
max_message_size = 1024 * 1024

-- The fields of a message that its handlers read, with the payload.
pub record Message : Type 0 where
  pub msg_type : ℕ
  pub source : ℕ
  pub payload_format : ℕ
  pub payload : List ℕ

-- "5A5A"
abbrev pub has_mark : List ℕ → Bool
has_mark bytes =
    get_or bytes 0 0 == b'5'
    && get_or bytes 1 0 == b'A'
    && get_or bytes 2 0 == b'5'
    && get_or bytes 3 0 == b'A'

abbrev pub is_bad_size : ℕ → Bool
is_bad_size full_len = ltb full_len header_len || ltb max_message_size full_len

-- The message in a buffer that holds all of it.
unfoldable pub split_message : List ℕ → Option Message
split_message bytes =
    let full_len = be32_at bytes 4 in
    let ext_len = be16_at bytes 8 in
    if ltb (full_len - header_len) ext_len
    then none
    else some (record {
      msg_type = get_or bytes 10 0;
      source = get_or bytes 11 0;
      payload_format = get_or bytes 13 0;
      payload = take (full_len - header_len - ext_len) (drop (header_len + ext_len) bytes);
    })

-- The message, the buffer's capacity, the driver's answers that are left, and the session.
abbrev pub ReadResult : Type 0
ReadResult = Option Message × ℕ × List Reading × Session

abbrev pub after_tail : ℕ → Tail × List Reading × Session → ReadResult
after_tail capacity (complete bytes, rs, s) = (split_message bytes, capacity, rs, s)
after_tail capacity (_, rs, s) = (none, capacity, rs, s)

-- With a buffer that is large enough, or enlarged to the rounded length.
abbrev pub read_rest : (ℕ → Bool) → ℕ → List ℕ → ℕ → List Reading → Session → ReadResult
read_rest memory full_len buffer capacity rs s =
    if ltb capacity (round_up full_len)
    then (if memory (round_up full_len)
        then after_tail (round_up full_len)
            (read_message_tail buffer full_len (round_up full_len) rs s)
        else (none, capacity, rs, s))
    else after_tail capacity (read_message_tail buffer full_len capacity rs s)

-- `message_processor_v2_read_message`, with the bytes received so far. `none` is FALSE.
unfoldable pub read_message : (ℕ → Bool) → List ℕ → ℕ → List Reading → Session → ReadResult
read_message memory buffer capacity rs s =
    let full_len = be32_at buffer 4 in
    if ltb (length buffer) header_len || not (has_mark buffer) || is_bad_size full_len
    then (none, capacity, rs, s)
    else if ltb (length buffer) full_len
    then read_rest memory full_len buffer capacity rs s
    else (split_message buffer, capacity, rs, s)
