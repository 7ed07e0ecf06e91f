-- ===== src/VideoSender.antt =====
-- src/video-sender/qd_video_sender.c: the message that a video source sends for each frame.
use qdplay.Prelude.{ℕ, ◌+◌, ◌^◌, ◌≤◌, ◌<◌, List, ◌++◌, length}
use qdplay.Words.{put_be32}
use qdplay.VideoReceiver.{
  VideoParams, max_frame_size, service_mark, h264_frame_event, frame_header_size,
}

-- What a source sends: the parameters and the access unit.
pub record Sent : Type 0 where
  pub params : VideoParams
  pub unit : List ℕ

-- The parameters are `uint32_t`, and the message is no longer than the receiver takes.
pub record IsSent (f : Sent) : Type 0 where
  pub width : f.params.width < 2 ^ 32
  pub height : f.params.height < 2 ^ 32
  pub frame_rate : f.params.frame_rate < 2 ^ 32
  pub fits : frame_header_size + length f.unit ≤ max_frame_size

abbrev pub full_len : Sent → ℕ
full_len f = frame_header_size + length f.unit

-- The message in front of what follows it.
unfoldable pub put_frame : Sent → List ℕ → List ℕ
put_frame f rest = put_be32 service_mark (
    put_be32 h264_frame_event (
      put_be32 (full_len f) (
        put_be32 (16 + length f.unit) (
          put_be32 f.params.width (
            put_be32 f.params.height
              (put_be32 f.params.frame_rate (put_be32 (length f.unit) (f.unit ++ rest))))))))
