-- ===== src/VideoReceiver.antt =====
-- src/services/video_receiver/video_receiver.c: the state of the receiver of video sources.
-- The children hold its operations: `Sources` the list of sources and the choice of the active
-- one, `Keyframe` the search for a key frame, `Frames` the forwarding of a frame, `Stream` the
-- splitting of a source's bytes into frames, `Thread` a round of the thread that serves them all.
pub mod Sources
pub mod Keyframe
pub mod Frames
pub mod Stream
pub mod Thread
pub mod Tests
use qdplay.Prelude.{ℕ, ◌+◌, ◌*◌, Bool, true, false, List, []}

abbrev pub max_sources : ℕ
max_sources = 4

abbrev pub socket_rcv_buffer_size : ℕ
socket_rcv_buffer_size = 65535

abbrev pub initial_buffer_size : ℕ
initial_buffer_size = 256 * 1024

abbrev pub max_frame_size : ℕ
max_frame_size = 8 * 1024 * 1024

-- `MESSAGING_SERVICE_MARK` and `MESSAGING_SERVICE_H264_FRAME_EVENT`
abbrev pub service_mark : ℕ
service_mark = 0xFAFAFAFA

abbrev pub h264_frame_event : ℕ
h264_frame_event = 3

-- `sizeof(messaging_service_video_frame_t)`
abbrev pub frame_header_size : ℕ
frame_header_size = 32

abbrev pub keyframe_wait_us : ℕ
keyframe_wait_us = 1500000

-- `video_receiver_source_t`. `buffer` is the filled part of the allocated buffer, so `filled` is
-- its length.
pub record Source : Type 0 where
  pub fd : ℕ
  pub pid : ℕ
  pub priority : ℕ
  pub buffer : List ℕ
  pub buffer_size : ℕ

-- `video_receiver_state_t` without its thread and lock. `sources` is the used part of the array,
-- so `sources_count` is its length.
pub record State : Type 0 where
  pub sources : List Source
  pub next_priority : ℕ
  pub active_pid : ℕ
  pub sink_active : Bool
  pub awaiting_keyframe : Bool
  pub awaiting_keyframe_since : ℕ

-- The static initialiser.
abbrev pub init_state : State
init_state = record {
  sources = [];
  next_priority = 1;
  active_pid = 0;
  sink_active = false;
  awaiting_keyframe = false;
  awaiting_keyframe_since = 0;
}

-- `message_processor_video_params_t`
pub record VideoParams : Type 0 where
  pub width : ℕ
  pub height : ℕ
  pub frame_rate : ℕ

-- What an operation does outside the state: `notify_sources old new count` is the call of
-- `messaging_service_notify_sources`, `broadcast` that of `pthread_cond_broadcast`.
pub data Effect : Type 0 where
  close_fd : ℕ → Effect
  sleep_us : ℕ → Effect
  broadcast : Effect
  notify_sources : ℕ → ℕ → ℕ → Effect
  write_h264 : VideoParams → List ℕ → Effect
