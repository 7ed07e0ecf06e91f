-- ===== src/ProcessorV1/Safe.antt =====
-- Everything that the legacy protocol answers is a well-formed message.
use qdplay.Prelude.{
  ℕ, ◌≡◌, ◌<◌, refl, sym, ◌∙◌, Bool, true, false, Option, none, some, List, [], ◌∷◌, length, ◌==◌,
  ◌||◌, not, ◌&&◌, ltb, leb, All, arith, ◌-◌, ◌^◌,
}
use qdplay.Words.{be32_at}
use qdplay.Struct.{Field, fill, put_bytes}
use qdplay.HuMessage.{Message}
use qdplay.HuMessage.Codec.{encode, decode, c_string}
use qdplay.HuMessage.Codec.Layout.{IsEncodable, full_length, length-encode}
use qdplay.Processor.{
  Env, Call, writes, sets_screen, sends_input, activates, requests_key_frame, Io, reply, ◌>>=◌,
  return, read_some, read_tail, Port,
}
use qdplay.Processor.Calls.{
  Makes, Makes-return, Makes-call, Makes-bind, Makes-then, Makes-if, Makes-and_then,
}
use qdplay.MessagesV1.{
  heart_beat_v1_init, upgrade_response_init, mirror_support_response_init, speech_response_init,
  cmd_land_mode, cmd_mirror_support, cmd_play_status, cmd_key_frame_req, cmd_heartbeat,
  data_type_cmd, data_type_screen_capture, data_type_hu_msg, data_type_in_app_control,
  data_type_speech_status, has_binary_mark,
}
use qdplay.MessagesV1.WellFormed.{IsWellFormed, be32_of, IsMarked, fill-IsWellFormed}
use qdplay.ProcessorV1.{
  zeros, v1_chunk, hu_message, with_header, write_hb, reply_chunk, send_app_msg, app_message,
  land_mode_fields, version_response, phoneready_id, phoneinitok_id, needupgrade_id,
  bt_auto_connected_id, needupgrade_item, bt_auto_connected_item, reply_start_seq,
}
use qdplay.ProcessorV1.Texts.{
  phoneready-IsEncodable, phoneinitok-IsEncodable, needupgrade-IsEncodable,
  bt_auto_connected-IsEncodable,
}
use qdplay.ProcessorV1.Padding.{app_message-IsWellFormed}
use qdplay.ProcessorV1.Handlers.{
  run, probe, handle_cmd, handle_app_msg, handle_speech, v1_max_message_size, dispatch, after_head,
  after_payload, after_decode, answer_hu_message, same_text, huinfo_id, is_whole, version_len,
  is_version,
}

-- What is written is a well-formed message.
abbrev pub SendsWellFormed : Call → Type 0
SendsWellFormed (writes bytes) = IsWellFormed bytes
SendsWellFormed _ = Unit

module _ (env : Env) where
  reply-Safe : (bytes : List ℕ) → IsWellFormed bytes → Makes SendsWellFormed (reply env.now bytes)
  reply-Safe bytes good = record { calls = λ p. (good, tt) }

  reply_chunk-Safe :
      (fs : List Field)
      → IsMarked fs zeros
      → be32_of fs 8 zeros ≡ 512
      → Makes SendsWellFormed (reply_chunk env fs)
  reply_chunk-Safe fs marked sized =
      Makes-if (env.memory v1_chunk)
        (reply-Safe (fill fs zeros) (fill-IsWellFormed fs zeros (omega arith) marked sized refl))
        (Makes-return false)

  send_app_msg-Safe :
      (m : Message)
      → IsEncodable m
      → full_length m < 2 ^ 30
      → Makes SendsWellFormed (send_app_msg env m)
  send_app_msg-Safe m v small =
      Makes-if (env.memory (with_header (length (encode m 0))))
        (reply-Safe (app_message m)
          (app_message-IsWellFormed m (omega (arith, length-encode m v, small))))
        (Makes-return false)

  -- A structure over memory that is not cleared.
  fill_heap-Safe :
      (fs : List Field)
      → length (env.heap v1_chunk) ≡ 512
      → IsMarked fs (env.heap v1_chunk)
      → be32_of fs 8 (env.heap v1_chunk) ≡ 512
      → Makes SendsWellFormed (reply env.now (fill fs (env.heap v1_chunk)))
  fill_heap-Safe fs size marked sized = reply-Safe (fill fs (env.heap v1_chunk)) (
      fill-IsWellFormed fs (env.heap v1_chunk) (omega (arith, size)) marked (sized ∙ sym size)
        (omega (arith, size)))

  write_hb-Safe : length (env.heap v1_chunk) ≡ 512 → Makes SendsWellFormed (write_hb env)
  unfolding write_hb
  write_hb-Safe size =
      Makes-if (env.memory v1_chunk) (fill_heap-Safe heart_beat_v1_init size refl refl)
        (Makes-return false)

  reply_start_seq-Safe :
      (input : List ℕ)
      → length (env.heap v1_chunk) ≡ 512
      → Makes SendsWellFormed (reply_start_seq env input)
  reply_start_seq-Safe input size =
      Makes-if (env.memory v1_chunk)
        (Makes-then (Makes-call (sets_screen _ _) tt) (
          Makes-and_then (fill_heap-Safe (version_response input) size refl refl) (
            reply-Safe (fill upgrade_response_init zeros)
              (fill-IsWellFormed upgrade_response_init zeros (omega arith) refl refl refl))))
        (Makes-return false)

  handle_cmd-Safe :
      (buffer : List ℕ)
      → length (env.heap v1_chunk) ≡ 512
      → Makes SendsWellFormed (handle_cmd env buffer)
  handle_cmd-Safe buffer size =
      Makes-if (be32_at buffer 68 == cmd_land_mode)
        (reply_chunk-Safe (land_mode_fields buffer) refl refl)
        (Makes-if (be32_at buffer 68 == cmd_mirror_support)
          (Makes-and_then
            (send_app_msg-Safe (hu_message phoneready_id []) phoneready-IsEncodable (omega arith))
            (reply_chunk-Safe mirror_support_response_init refl refl))
          (Makes-if (be32_at buffer 68 == cmd_play_status)
            (Makes-then (Makes-then (Makes-call activates tt) (Makes-call requests_key_frame tt))
              (Makes-return true))
            (Makes-if (be32_at buffer 68 == cmd_key_frame_req)
              (Makes-then (Makes-call requests_key_frame tt) (Makes-return true))
              (Makes-if (be32_at buffer 68 == cmd_heartbeat) (write_hb-Safe size)
                (Makes-return true)))))

  answer_hu_message-Safe : (m : Message) → Makes SendsWellFormed (answer_hu_message env m)
  answer_hu_message-Safe m =
      Makes-if (same_text (c_string m.logic_id) huinfo_id)
        (Makes-and_then
          (send_app_msg-Safe (hu_message phoneinitok_id []) phoneinitok-IsEncodable (omega arith))
          (send_app_msg-Safe (hu_message needupgrade_id (needupgrade_item ∷ []))
            needupgrade-IsEncodable (omega arith)))
        (Makes-if (same_text (c_string m.logic_id) bt_auto_connected_id)
          (send_app_msg-Safe (hu_message bt_auto_connected_id (bt_auto_connected_item ∷ []))
            bt_auto_connected-IsEncodable (omega arith))
          (Makes-return true))

  after_decode-Safe : (o : Option Message) → Makes SendsWellFormed (after_decode env o)
  after_decode-Safe none = Makes-return true
  after_decode-Safe (some m) = answer_hu_message-Safe m

  after_payload-Safe : (r : Option (List ℕ)) → Makes SendsWellFormed (after_payload env r)
  after_payload-Safe none = Makes-return false
  after_payload-Safe (some payload) = after_decode-Safe (decode payload)

  read_tail-Safe :
      (buffer : List ℕ) (n : ℕ) (next : Option (List ℕ) → Io Bool)
      → ((r : Option (List ℕ)) → Makes SendsWellFormed (next r))
      → Makes SendsWellFormed (read_tail buffer n n >>= next)
  read_tail-Safe buffer n next =
      let quiet : Makes SendsWellFormed (read_tail buffer n n) = record { calls = λ p. tt } in
      Makes-bind quiet

  handle_app_msg-Safe : (buffer : List ℕ) → Makes SendsWellFormed (handle_app_msg env buffer)
  handle_app_msg-Safe buffer =
      let total_len = be32_at buffer 8 in
      let payload_len = total_len - v1_chunk in
      Makes-if
        (leb total_len v1_chunk
          || ltb v1_max_message_size total_len
          || not (env.memory payload_len))
        (Makes-return false) (read_tail-Safe [] payload_len (after_payload env) after_payload-Safe)

  handle_speech-Safe : (buffer : List ℕ) → Makes SendsWellFormed (handle_speech env buffer)
  handle_speech-Safe buffer =
      let full_len = be32_at buffer 8 in
      Makes-if (leb full_len v1_chunk) (Makes-return true) (
        Makes-if (ltb v1_max_message_size full_len || not (env.memory full_len))
          (Makes-return false)
          (read_tail-Safe buffer full_len (λ r. return (is_whole r))
            (λ r. Makes-return (is_whole r))))

  dispatch-Safe :
      (buffer : List ℕ)
      → length (env.heap v1_chunk) ≡ 512
      → Makes SendsWellFormed (dispatch env buffer)
  dispatch-Safe buffer size =
      let data_type = be32_at buffer 4 in
      let action = be32_at buffer 28 in
      Makes-if (not (has_binary_mark buffer)) (Makes-return false) (
        Makes-if (data_type == data_type_cmd && action == 1) (handle_cmd-Safe buffer size) (
          Makes-if (data_type == data_type_screen_capture)
            (Makes-if (action == 18) (Makes-return true)
              (reply_chunk-Safe speech_response_init refl refl))
            (Makes-if (data_type == data_type_hu_msg && action == 1) (handle_app_msg-Safe buffer) (
              Makes-if (data_type == data_type_in_app_control)
                (Makes-then (Makes-call (sends_input _ _ _) tt) (Makes-return true))
                (Makes-if (data_type == data_type_speech_status) (handle_speech-Safe buffer)
                  (Makes-return true))))))

  after_head-Safe :
      (r : Option (List ℕ))
      → length (env.heap v1_chunk) ≡ 512
      → Makes SendsWellFormed (after_head env r)
  after_head-Safe none size = Makes-return false
  after_head-Safe (some bytes) size = dispatch-Safe (put_bytes 0 bytes zeros) size

  run-Safe : length (env.heap v1_chunk) ≡ 512 → Makes SendsWellFormed (run env)
  unfolding run
  run-Safe size =
      let quiet : Makes SendsWellFormed (read_some v1_chunk) = record { calls = λ p. tt } in
      Makes-if (env.memory v1_chunk) (Makes-bind quiet (λ r. after_head-Safe r size))
        (Makes-return false)

  probe-Safe :
      (buffer : List ℕ)
      → length (env.heap v1_chunk) ≡ 512
      → Makes SendsWellFormed (probe env buffer)
  unfolding probe
  probe-Safe buffer size =
      Makes-if (ltb (length buffer) version_len || not (is_version buffer)) (Makes-return false)
        (reply_start_seq-Safe buffer size)

-- If `malloc(512)` gives 512 bytes, whatever they hold, then every message that the legacy protocol
-- writes while it handles a message of the head unit or probes one, and every heartbeat, has the mark,
-- declares its own length as its total size, and consists of whole blocks of 512 bytes.
pub answers-WellFormed :
    (env : Env) (first : List ℕ) (p : Port)
    → length (env.heap v1_chunk) ≡ 512
    → All SendsWellFormed (run env p).1
      × All SendsWellFormed (probe env first p).1
      × All SendsWellFormed (write_hb env p).1
answers-WellFormed env first p size = (
  (run-Safe env size).calls p,
  (probe-Safe env first size).calls p,
  (write_hb-Safe env size).calls p,
)
