-- ===== src/VideoReceiver/Frames.antt =====
-- video_receiver.c: `video_receiver_handle_frame`, and the packed frame message of
-- messaging_service_parcels.h: 16 bytes of parcel header, 16 bytes of frame parameters, the
-- access unit.
pub mod Gate
use qdplay.Prelude.{
  ℕ, ◌+◌, ◌-◌, Bool, true, false, ◌&&◌, ◌||◌, Option, none, some, List, [], ◌∷◌, length, take, drop,
  ltb, ◌==◌, if◌then◌else◌,
}
use qdplay.Words.{be32_at}
use qdplay.VideoReceiver.{
  State, VideoParams, Effect, write_h264, keyframe_wait_us, frame_header_size,
}
use qdplay.VideoReceiver.Keyframe.{is_keyframe}

abbrev pub frame_params : List ℕ → VideoParams
frame_params frame = record {
  width = be32_at frame 16;
  height = be32_at frame 20;
  frame_rate = be32_at frame 24;
}

-- The access unit: `frame_size` bytes behind the header.
abbrev pub payload : List ℕ → ℕ → List ℕ
payload frame full_len = take (full_len - frame_header_size) (drop frame_header_size frame)

-- The source is the one on screen and the head unit wants video.
abbrev pub is_forwarded : ℕ → State → Bool
is_forwarded pid st = st.sink_active && st.active_pid == pid

abbrev pub timed_out : ℕ → State → Bool
timed_out now st = ltb (st.awaiting_keyframe_since + keyframe_wait_us) now

-- The gate under the mutex: whether the frame goes on, and the state after it.
abbrev pub pass_gate : ℕ → ℕ → List ℕ → State → State × Bool
pass_gate pid now unit st =
    let forward = is_forwarded pid st in
    if forward && st.awaiting_keyframe
    then (if is_keyframe unit || timed_out now st
        then (record st { awaiting_keyframe = false }, true)
        else (st, false))
    else (st, forward)

-- `frame` is the source's buffer from the frame on, and `full_len` the declared length, at least
-- that of the header. `none` is FALSE: the source is dropped.
unfoldable pub handle_frame : ℕ → List ℕ → ℕ → ℕ → State → Option (State × List Effect)
handle_frame pid frame full_len now st =
    let frame_size = full_len - frame_header_size in
    let (st', forward) = pass_gate pid now (payload frame full_len) st in
    let effects =
      if forward && ltb 0 frame_size
      then write_h264 (frame_params frame) (payload frame full_len) ∷ []
      else [] in
    if frame_size == be32_at frame 28 then some (st', effects) else none
