-- ===== src/ProcessorV2/Handlers.antt =====
-- message_processor_v2.c: `message_processor_v2_probe`, `message_processor_v2_run` and the handlers of
-- the head unit's messages, the heartbeat and the frames.
use qdplay.Prelude.{
  ℕ, ◌+◌, Bool, true, false, not, ◌||◌, Option, none, some, List, [], ◌∷◌, ◌++◌, length, get_or,
  ltb, ◌==◌, map, if◌then◌else◌,
}
use qdplay.Posix.{Outcome}
use qdplay.Struct.{put_bytes}
use qdplay.VideoReceiver.{VideoParams}
use qdplay.Accessory.{round_up}
use qdplay.Processor.{
  Env, Io, Call, return, call, read_some, write_padded, is_positive, reply, and_then,
  MessageProcessor, activates, deactivates, switches_source, requests_key_frame, sends_input,
  sets_screen, ◌>>=◌, ◌>>◌,
}
use qdplay.Json.{JsonLibrary}
use qdplay.MessagesV2.{
  source_car, msg_type_touch, payload_fmt_bin, payload_fmt_json, json_message, video_header,
  phone_info, update_status, video_support, heart_beat, Found, missing, found, cmd_of, parameter,
  car_info_of,
}
use qdplay.MessagesV2.Texts.{
  heartbeat_cmd, car_info_cmd, video_sup_req_cmd, v2_key_frame_req_cmd, video_ctrl_cmd,
  disconnect_req_cmd, play_status_key, video_format_key,
}
use qdplay.ProcessorV1.Handlers.{same_text}
use qdplay.ProcessorV2.Gesture.{Action, send_input_event, switch_source, handle_touch}
use qdplay.ProcessorV2.Message.{Message, header_len, has_mark, read_message}

abbrev pub v2_chunk : ℕ
v2_chunk = 512

-- `MESSAGE_VIDEO_SUPPORT_FORMAT_H264`
abbrev pub format_h264 : ℕ
format_h264 = 3

-- `message_processor_v2_read_message`, on the driver's answers. `none` is FALSE.
abbrev pub read_whole : Env → List ℕ → ℕ → Io (Option Message)
read_whole env bytes capacity p =
    let (m, capacity', rs, s) = read_message env.memory bytes capacity p.readings p.session in
    (m, [], record p { readings = rs; session = s; message_buffer_size = capacity' })

-- The calls of a touch.
abbrev pub call_of : Action → Call
call_of (send_input_event action x y) = sends_input action x y
call_of switch_source = switches_source

-- With what `handle_touch` finds; where it finds nothing, C leaves a cast undefined.
abbrev pub after_touch : Option (Bool × List Action) → Io Bool
after_touch none p = (true, Call.undefined ∷ [], p)
after_touch (some (fired, actions)) p =
    (true, map call_of actions, record p { gesture_fired = fired })

abbrev pub handle_bin_msg : Message → Io Bool
handle_bin_msg m p =
    if m.msg_type == msg_type_touch
    then after_touch (handle_touch p.gesture_fired m.payload) p
    else (true, [], p)

module _ (env : Env) (lib : JsonLibrary) where
  -- `message_processor_v2_send_json`
  abbrev pub send_json : List ℕ → Io Bool
  send_json message = write_padded env [] message >>= λ r. return (is_positive r)

  -- An object is printed behind a header of its own and sent.
  abbrev pub send_value : Option (List ℕ) → Io Bool
  send_value none = return false
  send_value (some json) =
      if env.memory (16 + length json) then send_json (json_message json) else return false

  -- With the video format of the request.
  abbrev pub answer_video_support : Found ℕ → Io Bool
  answer_video_support missing = return true
  answer_video_support Found.undefined = call Call.undefined >> return true
  answer_video_support (found format) =
      send_value (lib.print (video_support format (if format == format_h264 then 1 else 0)))

  -- With the play status. The decoder of the head unit is restarted and needs a key frame.
  abbrev pub apply_play_status : Found ℕ → Io Bool
  apply_play_status missing = return true
  apply_play_status Found.undefined = call Call.undefined >> return true
  apply_play_status (found status) =
      if status == 1
      then (call activates >> call requests_key_frame >> return true)
      else (call deactivates >> return true)

  -- By the command; an unknown one is no error.
  abbrev pub handle_cmd_v2 : List ℕ → Option (List ℕ) → Io Bool
  handle_cmd_v2 payload none = return true
  handle_cmd_v2 payload (some cmd) =
      if same_text cmd heartbeat_cmd
      then return true
      else if same_text cmd video_sup_req_cmd
      then answer_video_support (parameter lib 8 video_format_key payload)
      else if same_text cmd v2_key_frame_req_cmd
      then (call requests_key_frame >> return true)
      else if same_text cmd video_ctrl_cmd
      then apply_play_status (parameter lib 8 play_status_key payload)
      else if same_text cmd disconnect_req_cmd
      then (call deactivates >> return true)
      else return true

  -- `message_processor_v2_handle_json_msg`
  abbrev pub handle_json_msg : List ℕ → Io Bool
  handle_json_msg payload = handle_cmd_v2 payload (cmd_of lib payload)

  -- What is done with a message that is read whole.
  abbrev pub handle_message : Option Message → Io Bool
  handle_message none = return false
  handle_message (some m) =
      if not (m.source == source_car)
      then return true
      else if m.payload_format == payload_fmt_json
      then handle_json_msg m.payload
      else if m.payload_format == payload_fmt_bin
      then handle_bin_msg m
      else return true

  abbrev pub after_start : ℕ → Option (List ℕ) → Io Bool
  after_start capacity none = return false
  after_start capacity (some bytes) = read_whole env bytes capacity >>= handle_message

  -- `message_processor_v2_run`: the buffer is kept between the calls, whatever is read.
  unfoldable pub run : Io Bool
  run p =
      if p.message_buffer_size == 0
      then (if env.memory v2_chunk
          then (read_some v2_chunk >>= after_start v2_chunk)
              (record p { message_buffer_size = v2_chunk })
          else (false, [], p))
      else (read_some v2_chunk >>= after_start p.message_buffer_size) p

  abbrev pub heart_beat_message : List ℕ → List ℕ
  heart_beat_message json = put_bytes 0 (json_message json ++ (0 ∷ [])) (env.heap v2_chunk)

  -- With the text that is printed. The message is stored, with its NUL, over memory that is not
  -- cleared.
  abbrev pub beat : Option (List ℕ) → Io Bool
  beat none = return false
  beat (some json) =
      if ltb v2_chunk (16 + length json)
      then return false
      else reply env.now (heart_beat_message json)

  -- `message_processor_v2_write_hb`
  unfoldable pub write_hb : Io Bool
  write_hb = beat (lib.print heart_beat)

  -- The car's screen is announced, and the phone is described.
  abbrev pub answer_car_info : Found (ℕ × ℕ) → Io Bool
  answer_car_info missing = return false
  answer_car_info Found.undefined = call Call.undefined >> return false
  answer_car_info (found (width, height)) =
      call (sets_screen width height)
      >> and_then (send_value (lib.print (phone_info width height)))
          (send_value (lib.print update_status))

  -- The first message is CAR_INFO.
  abbrev pub after_cmd : Message → Option (List ℕ) → Io Bool
  after_cmd m none = return false
  after_cmd m (some cmd) =
      if same_text cmd car_info_cmd
      then answer_car_info (car_info_of lib m.payload)
      else return false

  abbrev pub after_first : Option Message → Io Bool
  after_first none = return false
  after_first (some m) = after_cmd m (cmd_of lib m.payload)

  -- The buffer does not start with a JSON message of a car, or there is no memory to copy it.
  abbrev pub is_foreign : List ℕ → Bool
  is_foreign buffer =
      ltb (length buffer) header_len
      || not (has_mark buffer)
      || not (get_or buffer 11 0 == source_car)
      || not (get_or buffer 13 0 == payload_fmt_json)
      || not (env.memory (round_up (length buffer)))

  -- `message_processor_v2_probe`: the buffer of the port is not used.
  unfoldable pub probe : List ℕ → Io Bool
  probe buffer p =
      if is_foreign buffer
      then (false, [], p)
      else (let (ok, cs, p') =
            (read_whole env buffer (round_up (length buffer)) >>= after_first) p in
          (ok, cs, record p' { message_buffer_size = p.message_buffer_size }))

  -- `message_processor_v2_write_h264`
  unfoldable pub write_h264 : VideoParams → List ℕ → Io (Outcome ℕ)
  write_h264 v frame =
      write_padded env (video_header v.width v.height v.frame_rate (length frame)) frame

  -- `message_processor_v2`, with MESSAGE_PROCESSOR_V2_READ_TIMEOUT_SEC.
  abbrev pub message_processor_v2 : MessageProcessor
  message_processor_v2 = record {
    probe = probe;
    run = run;
    write_hb = write_hb;
    write_h264 = write_h264;
    read_timeout_sec = 5;
  }
