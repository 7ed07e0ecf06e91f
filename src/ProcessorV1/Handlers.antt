-- ===== src/ProcessorV1/Handlers.antt =====
-- message_processor_v1.c: `message_processor_v1_probe`, `message_processor_v1_run` and the handlers of
-- the head unit's messages.
use qdplay.Prelude.{
  ℕ, ◌-◌, ◌*◌, Bool, true, false, not, ◌&&◌, ◌||◌, Option, none, some, List, [], ◌∷◌, length, ltb,
  leb, ◌==◌, if◌then◌else◌,
}
use qdplay.Words.{be16_at, be32_at}
use qdplay.Struct.{put_bytes}
use qdplay.HuMessage.{Message}
use qdplay.HuMessage.Codec.{c_string, decode}
use qdplay.Processor.{
  Env, Io, return, call, read_some, read_tail, activates, requests_key_frame, sends_input, ◌>>=◌,
  ◌>>◌, and_then,
}
use qdplay.MessagesV1.{
  data_type_cmd, data_type_screen_capture, data_type_hu_msg, data_type_in_app_control,
  data_type_speech_status, cmd_version, cmd_land_mode, cmd_heartbeat, cmd_play_status,
  cmd_mirror_support, cmd_key_frame_req, has_binary_mark,
}
use qdplay.ProcessorV2.Gesture.{input_event_down, input_event_up, input_event_move}
use qdplay.ProcessorV1.{
  zeros, v1_chunk, bt_auto_connected_id, write_hb, reply_mirror_support, reply_phone_ready,
  reply_phone_init_ok, reply_need_upgrade, reply_bt_auto_connected, reply_land_mode,
  reply_start_seq, reply_speech,
}

abbrev pub v1_max_message_size : ℕ
v1_max_message_size = 1024 * 1024

-- `sizeof(version_t)`
abbrev pub version_len : ℕ
version_len = 212

-- `strcmp(a, b) == 0`, of texts without NUL.
abbrev pub same_text : List ℕ → List ℕ → Bool
same_text [] [] = true
same_text (a ∷ xs) (b ∷ ys) = a == b && same_text xs ys
same_text _ _ = false

abbrev pub huinfo_id : List ℕ
huinfo_id = b'H' ∷ b'U' ∷ b'I' ∷ b'N' ∷ b'F' ∷ b'O' ∷ []

-- The events as they arrive, -32768 and -32767 in 16 bits; anything else releases.
abbrev pub v1_input_action : ℕ → ℕ
v1_input_action event_type =
    if event_type == 0x8000
    then input_event_down
    else if event_type == 0x8001
    then input_event_move
    else input_event_up

-- `message_processor_v1_handle_control`
abbrev pub handle_control : List ℕ → Io Bool
handle_control buffer =
    call (sends_input (v1_input_action (be16_at buffer 66)) (be16_at buffer 68) (be16_at buffer 70))
    >> return true

abbrev pub is_whole : Option (List ℕ) → Bool
is_whole none = false
is_whole (some bytes) = true

-- The first message of a head unit that speaks the legacy protocol.
abbrev pub is_version : List ℕ → Bool
is_version buffer =
    be32_at buffer 28 == 1 && be32_at buffer 4 == data_type_cmd && be32_at buffer 68 == cmd_version

module _ (env : Env) where
  -- The answer to a text message that is decoded.
  abbrev pub answer_hu_message : Message → Io Bool
  answer_hu_message m =
      if same_text (c_string m.logic_id) huinfo_id
      then and_then (reply_phone_init_ok env) (reply_need_upgrade env)
      else if same_text (c_string m.logic_id) bt_auto_connected_id
      then reply_bt_auto_connected env
      else return true

  -- A payload that is not understood is no error.
  abbrev pub after_decode : Option Message → Io Bool
  after_decode none = return true
  after_decode (some m) = answer_hu_message m

  abbrev pub after_payload : Option (List ℕ) → Io Bool
  after_payload none = return false
  after_payload (some payload) = after_decode (decode payload)

  -- `message_processor_v1_handle_app_msg`
  abbrev pub handle_app_msg : List ℕ → Io Bool
  handle_app_msg buffer =
      let total_len = be32_at buffer 8 in
      let payload_len = total_len - v1_chunk in
      if leb total_len v1_chunk || ltb v1_max_message_size total_len || not (env.memory payload_len)
      then return false
      else (read_tail [] payload_len payload_len >>= after_payload)

  -- `message_processor_v1_handle_cmd`
  abbrev pub handle_cmd : List ℕ → Io Bool
  handle_cmd buffer =
      let cmd = be32_at buffer 68 in
      if cmd == cmd_land_mode
      then reply_land_mode env buffer
      else if cmd == cmd_mirror_support
      then and_then (reply_phone_ready env) (reply_mirror_support env)
      else if cmd == cmd_play_status
      then (call activates >> call requests_key_frame >> return true)
      else if cmd == cmd_key_frame_req
      then (call requests_key_frame >> return true)
      else if cmd == cmd_heartbeat
      then write_hb env
      else return true

  -- `message_processor_v1_handle_screen`
  abbrev pub handle_screen : List ℕ → Io Bool
  handle_screen buffer = if be32_at buffer 28 == 18 then return true else reply_speech env

  -- `message_processor_v1_handle_speech`: the rest of the message is read and dropped.
  abbrev pub handle_speech : List ℕ → Io Bool
  handle_speech buffer =
      let full_len = be32_at buffer 8 in
      if leb full_len v1_chunk
      then return true
      else if ltb v1_max_message_size full_len || not (env.memory full_len)
      then return false
      else (read_tail buffer full_len full_len >>= λ bytes. return (is_whole bytes))

  -- By the data type, and by the action where the code asks for it.
  abbrev pub dispatch : List ℕ → Io Bool
  dispatch buffer =
      let data_type = be32_at buffer 4 in
      let action = be32_at buffer 28 in
      if not (has_binary_mark buffer)
      then return false
      else if data_type == data_type_cmd && action == 1
      then handle_cmd buffer
      else if data_type == data_type_screen_capture
      then handle_screen buffer
      else if data_type == data_type_hu_msg && action == 1
      then handle_app_msg buffer
      else if data_type == data_type_in_app_control
      then handle_control buffer
      else if data_type == data_type_speech_status
      then handle_speech buffer
      else return true

  -- What is read fills the start of a cleared buffer.
  abbrev pub after_head : Option (List ℕ) → Io Bool
  after_head none = return false
  after_head (some bytes) = dispatch (put_bytes 0 bytes zeros)

  -- `message_processor_v1_run`
  unfoldable pub run : Io Bool
  run = if env.memory v1_chunk then (read_some v1_chunk >>= after_head) else return false

  -- `message_processor_v1_probe`
  unfoldable pub probe : List ℕ → Io Bool
  probe buffer =
      if ltb (length buffer) version_len || not (is_version buffer)
      then return false
      else reply_start_seq env buffer
