-- ===== src/ProcessorV1.antt =====
-- message_processor_v1.c: the legacy protocol. The answers to the head unit; the children have the
-- handlers of its messages, and the frames.
pub mod Handlers
pub mod Padding
pub mod Texts
pub mod Frame
pub mod Safe
pub mod Drained
pub mod Tests
use qdplay.Prelude.{
  ℕ, ◌+◌, ◌*◌, ◌/◌, ◌%◌, ◌^◌, Bool, false, List, [], ◌∷◌, ◌++◌, length, take, drop, replicate, ltb,
  if◌then◌else◌,
}
use qdplay.Words.{be32_at}
use qdplay.Struct.{Field, u32, put_bytes, fill}
use qdplay.HuMessage.{Message}
use qdplay.HuMessage.Codec.{encode}
use qdplay.Processor.{Env, Io, return, call, reply, sets_screen, ◌>>◌, and_then}
use qdplay.MessagesV1.{
  total_size, mark, app_message_response_init, heart_beat_v1_init, land_mode_response_init,
  mirror_support_response_init, speech_response_init, upgrade_response_init, version_response_init,
}

-- `MESSAGE_PROCESSOR_V1_DEFAULT_CHUNK_SIZE`
abbrev pub v1_chunk : ℕ
v1_chunk = 512

abbrev pub zeros : List ℕ
zeros = replicate 512 0

-- A length rounded up to whole chunks, in 32 bits.
abbrev pub chunked : ℕ → ℕ
chunked len =
    let whole = len / 512 * 512 % 2 ^ 32 in if ltb whole len then (whole + 512) % 2 ^ 32 else whole

-- The size of the header, a chunk, with the chunks of the payload.
abbrev pub with_header : ℕ → ℕ
with_header len = (512 + chunked len) % 2 ^ 32

abbrev pub qdrive_assistant : List ℕ
qdrive_assistant =
    b'Q' ∷ b'D' ∷ b'R' ∷ b'I' ∷ b'V' ∷ b'E' ∷ b'_' ∷ b'A' ∷ b'S' ∷ b'S' ∷ b'I' ∷ b'S' ∷ b'T' ∷ b'A'
    ∷ b'N' ∷ b'T' ∷ []

abbrev pub phoneready_id : List ℕ
phoneready_id = b'p' ∷ b'h' ∷ b'o' ∷ b'n' ∷ b'e' ∷ b'r' ∷ b'e' ∷ b'a' ∷ b'd' ∷ b'y' ∷ []

abbrev pub phoneinitok_id : List ℕ
phoneinitok_id = b'p' ∷ b'h' ∷ b'o' ∷ b'n' ∷ b'e' ∷ b'i' ∷ b'n' ∷ b'i' ∷ b't' ∷ b'o' ∷ b'k' ∷ []

abbrev pub needupgrade_id : List ℕ
needupgrade_id = b'N' ∷ b'E' ∷ b'E' ∷ b'D' ∷ b'U' ∷ b'P' ∷ b'G' ∷ b'R' ∷ b'A' ∷ b'D' ∷ b'E' ∷ []

abbrev pub bt_auto_connected_id : List ℕ
bt_auto_connected_id =
    b'B' ∷ b'T' ∷ b'_' ∷ b'A' ∷ b'U' ∷ b'T' ∷ b'O' ∷ b'_' ∷ b'C' ∷ b'O' ∷ b'N' ∷ b'N' ∷ b'E' ∷ b'C'
    ∷ b'T' ∷ b'E' ∷ b'D' ∷ []

-- {"D":0,"T":"i","V":1}
abbrev pub needupgrade_item : List ℕ
needupgrade_item =
    b'{' ∷ 34 ∷ b'D' ∷ 34 ∷ b':' ∷ b'0' ∷ b',' ∷ 34 ∷ b'T' ∷ 34 ∷ b':' ∷ 34 ∷ b'i' ∷ 34 ∷ b',' ∷ 34
    ∷ b'V' ∷ 34 ∷ b':' ∷ b'1' ∷ b'}' ∷ []

-- {"D":1,"T":"(is)","V":[{"D":0,"T":"i","V":0},{"D":0,"T":"s","V":""}]}
abbrev pub bt_auto_connected_item : List ℕ
bt_auto_connected_item =
    b'{' ∷ 34 ∷ b'D' ∷ 34 ∷ b':' ∷ b'1' ∷ b',' ∷ 34 ∷ b'T' ∷ 34 ∷ b':' ∷ 34 ∷ b'(' ∷ b'i' ∷ b's'
    ∷ b')' ∷ 34 ∷ b',' ∷ 34 ∷ b'V' ∷ 34 ∷ b':' ∷ b'[' ∷ b'{' ∷ 34 ∷ b'D' ∷ 34 ∷ b':' ∷ b'0' ∷ b','
    ∷ 34 ∷ b'T' ∷ 34 ∷ b':' ∷ 34 ∷ b'i' ∷ 34 ∷ b',' ∷ 34 ∷ b'V' ∷ 34 ∷ b':' ∷ b'0' ∷ b'}' ∷ b','
    ∷ b'{' ∷ 34 ∷ b'D' ∷ 34 ∷ b':' ∷ b'0' ∷ b',' ∷ 34 ∷ b'T' ∷ 34 ∷ b':' ∷ 34 ∷ b's' ∷ 34 ∷ b','
    ∷ 34 ∷ b'V' ∷ 34 ∷ b':' ∷ 34 ∷ 34 ∷ b'}' ∷ b']' ∷ b'}' ∷ []

-- `hu_message_init`
abbrev pub hu_message : List ℕ → List (List ℕ) → Message
hu_message logic_id items = record {
  flow_id = 0;
  app_id = qdrive_assistant;
  logic_id = logic_id;
  items = items;
}

-- The header of a text message: the total size and the size of the text are set last.
abbrev pub app_fields : ℕ → ℕ → List Field
app_fields size len = app_message_response_init ++ (total_size size ∷ u32 64 len ∷ mark ∷ [])

-- The text message behind its header, in a buffer of its own.
abbrev pub app_message : Message → List ℕ
app_message m =
    let encoded = encode m 0 in
    let size = with_header (length encoded) in
    put_bytes 512 encoded (fill (app_fields size (length encoded)) (replicate size 0))

-- The value at 72 of the head unit's message is copied as it is.
abbrev pub land_mode_fields : List ℕ → List Field
land_mode_fields input = land_mode_response_init ++ ((192, take 4 (drop 72 input)) ∷ u32 196 2 ∷ [])

-- The car's width and height, at 128 and 132, copied to the phone's and the application's.
abbrev pub version_response : List ℕ → List Field
version_response input =
    let width = take 4 (drop 128 input) in
    let height = take 4 (drop 132 input) in
    version_response_init ++ ((196, width) ∷ (200, height) ∷ (204, width) ∷ (208, height) ∷ [])

module _ (env : Env) where
  -- `message_processor_v1_send_app_msg`
  abbrev pub send_app_msg : Message → Io Bool
  send_app_msg m =
      if env.memory (with_header (length (encode m 0)))
      then reply env.now (app_message m)
      else return false

  -- An answer of one chunk, in memory that is cleared first.
  abbrev pub reply_chunk : List Field → Io Bool
  reply_chunk fs = if env.memory v1_chunk then reply env.now (fill fs zeros) else return false

  -- `message_processor_v1_write_hb`: the memory is not cleared.
  unfoldable pub write_hb : Io Bool
  write_hb =
      if env.memory v1_chunk
      then reply env.now (fill heart_beat_v1_init (env.heap v1_chunk))
      else return false

  abbrev pub reply_mirror_support : Io Bool
  reply_mirror_support = reply_chunk mirror_support_response_init

  abbrev pub reply_phone_ready : Io Bool
  reply_phone_ready = send_app_msg (hu_message phoneready_id [])

  abbrev pub reply_phone_init_ok : Io Bool
  reply_phone_init_ok = send_app_msg (hu_message phoneinitok_id [])

  abbrev pub reply_need_upgrade : Io Bool
  reply_need_upgrade = send_app_msg (hu_message needupgrade_id (needupgrade_item ∷ []))

  abbrev pub reply_bt_auto_connected : Io Bool
  reply_bt_auto_connected =
      send_app_msg (hu_message bt_auto_connected_id (bt_auto_connected_item ∷ []))

  -- `message_processor_v1_reply_land_mode`
  abbrev pub reply_land_mode : List ℕ → Io Bool
  reply_land_mode input = reply_chunk (land_mode_fields input)

  -- `message_processor_v1_reply_start_seq`: the first message is written over memory that is not
  -- cleared. The service takes the size in 16 bits.
  abbrev pub reply_start_seq : List ℕ → Io Bool
  reply_start_seq input =
      if env.memory v1_chunk
      then call (sets_screen (be32_at input 128 % 2 ^ 16) (be32_at input 132 % 2 ^ 16))
        >> and_then (reply env.now (fill (version_response input) (env.heap v1_chunk)))
            (reply env.now (fill upgrade_response_init zeros))
      else return false

  -- What `message_processor_v1_handle_screen` answers.
  abbrev pub reply_speech : Io Bool
  reply_speech = reply_chunk speech_response_init
