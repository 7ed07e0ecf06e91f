-- ===== src/ProcessorV1/Drained.antt =====
-- The legacy protocol says that a message is handled only after it has read some.
use qdplay.Prelude.{
  ℕ, ◌-◌, not, ◌&&◌, ◌||◌, refl, true, false, Option, none, some, List, [], ltb, leb, ◌==◌, length,
}
use qdplay.Words.{be32_at}
use qdplay.Struct.{Field, put_bytes, fill}
use qdplay.HuMessage.{Message}
use qdplay.HuMessage.Codec.{encode, decode, c_string}
use qdplay.Processor.{Env}
use qdplay.Processor.Draining.{
  Sober, Sober-return, Sober-call, Sober-bind, Sober-then, Sober-if, Sober-and_then, Sober-reply,
  Sober-read_tail, Drains, Drains-read_some, Drains-if,
}
use qdplay.MessagesV1.{
  heart_beat_v1_init, upgrade_response_init, mirror_support_response_init, speech_response_init,
  cmd_land_mode, cmd_mirror_support, cmd_play_status, cmd_key_frame_req, cmd_heartbeat,
  data_type_cmd, data_type_screen_capture, data_type_hu_msg, data_type_in_app_control,
  data_type_speech_status, has_binary_mark,
}
use qdplay.ProcessorV1.{
  zeros, v1_chunk, version_response, with_header, write_hb, reply_chunk, send_app_msg, app_message,
  land_mode_fields, bt_auto_connected_id,
}
use qdplay.ProcessorV1.Handlers.{
  run, probe, version_len, is_version, handle_cmd, handle_app_msg, handle_speech, dispatch,
  after_head, after_payload, after_decode, same_text, huinfo_id, is_whole, v1_max_message_size,
}

module _ (env : Env) where
  reply_chunk-Sober : (fs : List Field) → Sober (reply_chunk env fs)
  reply_chunk-Sober fs =
      Sober-if (env.memory v1_chunk) (Sober-reply env.now (fill fs zeros)) (Sober-return false)

  send_app_msg-Sober : (m : Message) → Sober (send_app_msg env m)
  send_app_msg-Sober m =
      Sober-if (env.memory (with_header (length (encode m 0))))
        (Sober-reply env.now (app_message m)) (Sober-return false)

  write_hb-Sober : Sober (write_hb env)
  unfolding write_hb
  write_hb-Sober =
      Sober-if (env.memory v1_chunk)
        (Sober-reply env.now (fill heart_beat_v1_init (env.heap v1_chunk))) (Sober-return false)

  handle_cmd-Sober : (buffer : List ℕ) → Sober (handle_cmd env buffer)
  handle_cmd-Sober buffer =
      let cmd = be32_at buffer 68 in
      Sober-if (cmd == cmd_land_mode) (reply_chunk-Sober (land_mode_fields buffer)) (
        Sober-if (cmd == cmd_mirror_support)
          (Sober-and_then (send_app_msg-Sober _) (reply_chunk-Sober mirror_support_response_init))
          (Sober-if (cmd == cmd_play_status)
            (Sober-then (Sober-then (Sober-call _) (Sober-call _)) (Sober-return true))
            (Sober-if (cmd == cmd_key_frame_req) (Sober-then (Sober-call _) (Sober-return true))
              (Sober-if (cmd == cmd_heartbeat) write_hb-Sober (Sober-return true)))))

  after_decode-Sober : (o : Option Message) → Sober (after_decode env o)
  after_decode-Sober none = Sober-return true
  after_decode-Sober (some m) =
      Sober-if (same_text (c_string m.logic_id) huinfo_id)
        (Sober-and_then (send_app_msg-Sober _) (send_app_msg-Sober _))
        (Sober-if (same_text (c_string m.logic_id) bt_auto_connected_id) (send_app_msg-Sober _)
          (Sober-return true))

  after_payload-Sober : (r : Option (List ℕ)) → Sober (after_payload env r)
  after_payload-Sober none = Sober-return false
  after_payload-Sober (some payload) = after_decode-Sober (decode payload)

  handle_app_msg-Sober : (buffer : List ℕ) → Sober (handle_app_msg env buffer)
  handle_app_msg-Sober buffer =
      let total_len = be32_at buffer 8 in
      let payload_len = total_len - v1_chunk in
      Sober-if
        (leb total_len v1_chunk
          || ltb v1_max_message_size total_len
          || not (env.memory payload_len))
        (Sober-return false)
        (Sober-bind (Sober-read_tail [] payload_len payload_len) after_payload-Sober)

  handle_speech-Sober : (buffer : List ℕ) → Sober (handle_speech env buffer)
  handle_speech-Sober buffer =
      let full_len = be32_at buffer 8 in
      Sober-if (leb full_len v1_chunk) (Sober-return true) (
        Sober-if (ltb v1_max_message_size full_len || not (env.memory full_len))
          (Sober-return false)
          (Sober-bind (Sober-read_tail buffer full_len full_len) (λ r. Sober-return (is_whole r))))

  dispatch-Sober : (buffer : List ℕ) → Sober (dispatch env buffer)
  dispatch-Sober buffer =
      let data_type = be32_at buffer 4 in
      let action = be32_at buffer 28 in
      Sober-if (not (has_binary_mark buffer)) (Sober-return false) (
        Sober-if (data_type == data_type_cmd && action == 1) (handle_cmd-Sober buffer) (
          Sober-if (data_type == data_type_screen_capture)
            (Sober-if (action == 18) (Sober-return true) (reply_chunk-Sober speech_response_init))
            (Sober-if (data_type == data_type_hu_msg && action == 1) (handle_app_msg-Sober buffer) (
              Sober-if (data_type == data_type_in_app_control)
                (Sober-then (Sober-call _) (Sober-return true))
                (Sober-if (data_type == data_type_speech_status) (handle_speech-Sober buffer)
                  (Sober-return true))))))

  after_head-Sober : (r : Option (List ℕ)) → Sober (after_head env r)
  after_head-Sober none = Sober-return false
  after_head-Sober (some bytes) = dispatch-Sober (put_bytes 0 bytes zeros)

  -- `message_processor_v1_run` takes no byte back, and takes one at least when it returns TRUE.
  pub run-Drains : Drains (run env)
  unfolding run
  run-Drains =
      Drains-if (env.memory v1_chunk) (Drains-read_some v1_chunk after_head-Sober (λ p. refl))

  -- `message_processor_v1_probe` takes no byte back.
  pub probe-Sober : (buffer : List ℕ) → Sober (probe env buffer)
  unfolding probe
  probe-Sober buffer =
      Sober-if (ltb (length buffer) version_len || not (is_version buffer)) (Sober-return false) (
        Sober-if (env.memory v1_chunk)
          (Sober-then (Sober-call _) (
            Sober-and_then
              (Sober-reply env.now (fill (version_response buffer) (env.heap v1_chunk)))
              (Sober-reply env.now (fill upgrade_response_init zeros))))
          (Sober-return false))
