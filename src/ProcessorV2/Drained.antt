-- ===== src/ProcessorV2/Drained.antt =====
-- The second protocol says that a message is handled only after it has read some.
use qdplay.Prelude.{
  ℕ, ◌+◌, ◌≤◌, ◌<◌, ◌≡◌, Bool, true, false, not, ◌||◌, Option, none, some, List, [], length, ltb,
  ◌==◌, refl, arith, if_intro,
}
use qdplay.Words.{be32_at}
use qdplay.Accessory.{Session, round_up}
use qdplay.Accessory.Read.{Reading, Tail, complete, errored, no_fuel, read_message_tail}
use qdplay.Processor.{Env, Port, Call, is_positive, read_some, ◌>>=◌}
use qdplay.Processor.Progress.{pending, pending_in, Keeps, read_message_tail-Keeps}
use qdplay.Processor.Draining.{
  Sober, Sober-return, Sober-call, Sober-bind, Sober-then, Sober-if, Sober-and_then,
  Sober-write_padded, Drains, Drains-read_some,
}
use qdplay.Json.{JsonLibrary}
use qdplay.MessagesV2.{
  json_message, Found, missing, found, cmd_of, car_info_of, parameter, source_car, payload_fmt_json,
  payload_fmt_bin, msg_type_touch,
}
use qdplay.MessagesV2.Texts.{
  heartbeat_cmd, car_info_cmd, video_sup_req_cmd, v2_key_frame_req_cmd, video_ctrl_cmd,
  disconnect_req_cmd, play_status_key, video_format_key,
}
use qdplay.ProcessorV1.Handlers.{same_text}
use qdplay.ProcessorV2.Message.{
  Message, header_len, has_mark, is_bad_size, ReadResult, after_tail, read_rest, read_message,
}
use qdplay.ProcessorV2.Gesture.{Action, handle_touch}
use qdplay.ProcessorV2.Handlers.{
  v2_chunk, run, probe, is_foreign, after_cmd, after_first, answer_car_info, send_value, send_json,
  answer_video_support, apply_play_status, handle_cmd_v2, handle_bin_msg, handle_message,
  after_start, after_touch, read_whole,
}

-- No byte is added.
abbrev Leaves : ℕ → ReadResult → Type 0
Leaves before (m, capacity, rs, s) = pending_in rs s ≤ before

after_tail-Leaves :
    (capacity before : ℕ) (t : Tail × List Reading × Session)
    → Keeps before t
    → Leaves before (after_tail capacity t)
after_tail-Leaves capacity before (complete bytes, rs, s) kept = kept
after_tail-Leaves capacity before (errored e, rs, s) kept = kept
after_tail-Leaves capacity before (no_fuel, rs, s) kept = kept

read_rest-Leaves :
    (memory : ℕ → Bool) (full_len : ℕ) (buffer : List ℕ) (capacity : ℕ) (rs : List Reading)
    (s : Session)
    → Leaves (pending_in rs s) (read_rest memory full_len buffer capacity rs s)
read_rest-Leaves memory full_len buffer capacity rs s =
    let P = Leaves (pending_in rs s) in
    let size = round_up full_len in
    if_intro P (ltb capacity size)
      (if_intro P (memory size)
        (after_tail-Leaves size (pending_in rs s) (read_message_tail buffer full_len size rs s)
          (read_message_tail-Keeps buffer full_len size rs s))
        (omega arith))
      (after_tail-Leaves capacity (pending_in rs s)
        (read_message_tail buffer full_len capacity rs s)
        (read_message_tail-Keeps buffer full_len capacity rs s))

read_message-Leaves :
    (memory : ℕ → Bool) (buffer : List ℕ) (capacity : ℕ) (rs : List Reading) (s : Session)
    → Leaves (pending_in rs s) (read_message memory buffer capacity rs s)
unfolding read_message
read_message-Leaves memory buffer capacity rs s =
    let P = Leaves (pending_in rs s) in
    let full_len = be32_at buffer 4 in
    if_intro P (ltb (length buffer) header_len || not (has_mark buffer) || is_bad_size full_len)
      (omega arith)
      (if_intro P (ltb (length buffer) full_len)
        (read_rest-Leaves memory full_len buffer capacity rs s) (omega arith))

read_whole-Sober :
    (env : Env) (bytes : List ℕ) (capacity : ℕ) → Sober (read_whole env bytes capacity)
read_whole-Sober env bytes capacity = record {
  kept = λ p. read_message-Leaves env.memory bytes capacity p.readings p.session;
}

after_touch-Sober : (t : Option (Bool × List Action)) → Sober (after_touch t)
after_touch-Sober none = record { kept = λ p. omega arith }
after_touch-Sober (some (fired, actions)) = record { kept = λ p. omega arith }

handle_bin_msg-Sober : (m : Message) → Sober (handle_bin_msg m)
handle_bin_msg-Sober m = record {
  kept = λ p.
      if_intro (λ (r : Bool × List Call × Port). pending r.2 ≤ pending p)
        (m.msg_type == msg_type_touch)
        ((after_touch-Sober (handle_touch p.gesture_fired m.payload)).kept p) (omega arith);
}

module _ (env : Env) (lib : JsonLibrary) where
  send_json-Sober : (message : List ℕ) → Sober (send_json env lib message)
  send_json-Sober message =
      Sober-bind (Sober-write_padded env [] message) (λ r. Sober-return (is_positive r))

  send_value-Sober : (json : Option (List ℕ)) → Sober (send_value env lib json)
  send_value-Sober none = Sober-return false
  send_value-Sober (some json) =
      Sober-if (env.memory (16 + length json)) (send_json-Sober (json_message json))
        (Sober-return false)

  answer_video_support-Sober : (f : Found ℕ) → Sober (answer_video_support env lib f)
  answer_video_support-Sober missing = Sober-return true
  answer_video_support-Sober Found.undefined = Sober-then (Sober-call _) (Sober-return true)
  answer_video_support-Sober (found format) = send_value-Sober _

  apply_play_status-Sober : (f : Found ℕ) → Sober (apply_play_status env lib f)
  apply_play_status-Sober missing = Sober-return true
  apply_play_status-Sober Found.undefined = Sober-then (Sober-call _) (Sober-return true)
  apply_play_status-Sober (found status) =
      Sober-if (status == 1)
        (Sober-then (Sober-then (Sober-call _) (Sober-call _)) (Sober-return true))
        (Sober-then (Sober-call _) (Sober-return true))

  handle_cmd_v2-Sober :
      (payload : List ℕ) (cmd : Option (List ℕ)) → Sober (handle_cmd_v2 env lib payload cmd)
  handle_cmd_v2-Sober payload none = Sober-return true
  handle_cmd_v2-Sober payload (some cmd) =
      Sober-if (same_text cmd heartbeat_cmd) (Sober-return true) (
        Sober-if (same_text cmd video_sup_req_cmd)
          (answer_video_support-Sober (parameter lib 8 video_format_key payload))
          (Sober-if (same_text cmd v2_key_frame_req_cmd)
            (Sober-then (Sober-call _) (Sober-return true))
            (Sober-if (same_text cmd video_ctrl_cmd)
              (apply_play_status-Sober (parameter lib 8 play_status_key payload))
              (Sober-if (same_text cmd disconnect_req_cmd)
                (Sober-then (Sober-call _) (Sober-return true)) (Sober-return true)))))

  handle_message-Sober : (m : Option Message) → Sober (handle_message env lib m)
  handle_message-Sober none = Sober-return false
  handle_message-Sober (some m) = Sober-if (not (m.source == source_car)) (Sober-return true) (
      Sober-if (m.payload_format == payload_fmt_json)
        (handle_cmd_v2-Sober m.payload (cmd_of lib m.payload))
        (Sober-if (m.payload_format == payload_fmt_bin) (handle_bin_msg-Sober m)
          (Sober-return true)))

  after_start-Sober : (capacity : ℕ) (r : Option (List ℕ)) → Sober (after_start env lib capacity r)
  after_start-Sober capacity none = Sober-return false
  after_start-Sober capacity (some bytes) =
      Sober-bind (read_whole-Sober env bytes capacity) handle_message-Sober

  turn-Drains : (capacity : ℕ) → Drains (read_some v2_chunk >>= after_start env lib capacity)
  turn-Drains capacity = Drains-read_some v2_chunk (after_start-Sober capacity) (λ p. refl)

  -- `message_processor_v2_run` takes no byte back, and takes one at least when it returns TRUE.
  pub run-Drains : Drains (run env lib)
  unfolding run
  run-Drains = record {
    sober = record {
      kept = λ p.
          let P = λ (r : Bool × List Call × Port). pending r.2 ≤ pending p in
          if_intro P (p.message_buffer_size == 0)
            (if_intro P (env.memory v2_chunk)
              ((turn-Drains v2_chunk).sober.kept (record p { message_buffer_size = v2_chunk }))
              (omega arith))
            ((turn-Drains p.message_buffer_size).sober.kept p);
    };
    takes = λ p.
        let P = λ (r : Bool × List Call × Port). r.0 ≡ true → pending r.2 < pending p in
        if_intro P (p.message_buffer_size == 0)
          (if_intro P (env.memory v2_chunk)
            ((turn-Drains v2_chunk).takes (record p { message_buffer_size = v2_chunk })) (λ e. cc))
          ((turn-Drains p.message_buffer_size).takes p);
  }

  after_cmd-Sober : (m : Message) (cmd : Option (List ℕ)) → Sober (after_cmd env lib m cmd)
  after_cmd-Sober m none = Sober-return false
  after_cmd-Sober m (some cmd) =
      Sober-if (same_text cmd car_info_cmd) (answer_car_info-Sober (car_info_of lib m.payload))
        (Sober-return false)
    where
      answer_car_info-Sober : (f : Found (ℕ × ℕ)) → Sober (answer_car_info env lib f)
      answer_car_info-Sober missing = Sober-return false
      answer_car_info-Sober Found.undefined = Sober-then (Sober-call _) (Sober-return false)
      answer_car_info-Sober (found (width, height)) =
          Sober-then (Sober-call _) (Sober-and_then (send_value-Sober _) (send_value-Sober _))

  after_first-Sober : (m : Option Message) → Sober (after_first env lib m)
  after_first-Sober none = Sober-return false
  after_first-Sober (some m) = after_cmd-Sober m (cmd_of lib m.payload)

  -- `message_processor_v2_probe` takes no byte back.
  pub probe-Sober : (buffer : List ℕ) → Sober (probe env lib buffer)
  unfolding probe
  probe-Sober buffer =
      let size = round_up (length buffer) in
      let whole : Sober (read_whole env buffer size >>= after_first env lib) =
        Sober-bind (read_whole-Sober env buffer size) after_first-Sober in
      record {
        kept = λ p.
            if_intro (λ (r : Bool × List Call × Port). pending r.2 ≤ pending p)
              (is_foreign env lib buffer) (omega arith) (whole.kept p);
      }
