-- ===== src/Mirror.antt =====
-- The way of a frame from a source to the head unit: usb_active_accessory.c,
-- `usb_active_accessory_write_h264`, which the video receiver calls.
pub mod Shown
pub mod Tests
use qdplay.Prelude.{ℕ, Option, none, some, List, [], ◌∷◌, if◌then◌else◌}
use qdplay.Posix.{Outcome, failed, enotconn}
use qdplay.VideoReceiver.{VideoParams, Effect}
use qdplay.Processor.{Io, MessageProcessor, ◌>>◌, ◌>>=◌, return}

-- `usb_active_accessory_write_h264`: only a session with a processor takes frames.
abbrev pub send_frame : Option MessageProcessor → VideoParams → List ℕ → Io (Outcome ℕ)
send_frame none v unit p = (failed enotconn, [], p)
send_frame (some m) v unit p =
    if p.session.stopping then (failed enotconn, [], p) else m.write_h264 v unit p

-- The frames among what the video receiver does, in turn. It does not look at the results.
unfoldable pub send_frames : Option MessageProcessor → List Effect → Io (Unit {0})
send_frames m [] = return tt
send_frames m (Effect.write_h264 v unit ∷ es) = send_frame m v unit >>= λ _. send_frames m es
send_frames m (_ ∷ es) = send_frames m es
