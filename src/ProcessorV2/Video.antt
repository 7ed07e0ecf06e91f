-- ===== src/ProcessorV2/Video.antt =====
-- message_processor_v2.c: a frame that is sent is read by the protocol's own reader.
use qdplay.Prelude.{ℕ, ◌+◌, ◌-◌, ◌%◌, ◌≡◌, ◌≤◌, refl, List, [], ◌∷◌, length, replicate, arith}
use qdplay.VideoReceiver.{VideoParams}
use qdplay.Accessory.{round_up}
use qdplay.Accessory.Write.{padded}
use qdplay.Accessory.Write.Whole.{length-padded}
use qdplay.Processor.{Env, Port, writes}
use qdplay.Json.{JsonLibrary}
use qdplay.MessagesV2.{video_header}
use qdplay.MessagesV2.Split.{Accepts, read_message-video_header}
use qdplay.ProcessorV2.Message.{Message, max_message_size}
use qdplay.ProcessorV2.Handlers.{write_h264}

-- Whole blocks of 512 bytes that the protocol's own reader takes for such a message.
abbrev pub IsMessageOf : Message → List ℕ → Type 0
IsMessageOf m bytes = Accepts m bytes × (length bytes % 512 ≡ 0)

-- A frame that is sent by the second protocol is handed to the session in one message, of whole blocks
-- of 512 bytes. The protocol's own reader, with the message in its buffer, accepts its mark and its
-- declared length and returns the frame, marked as video from the phone, if the frame with its header
-- has no more than the 1 MiB that the reader takes.
pub write_h264-IsMessageOf :
    (env : Env) (lib : JsonLibrary) (v : VideoParams) (frame : List ℕ) (p : Port)
    → length frame + 48 ≤ max_message_size
    → (message : List ℕ) × ((write_h264 env lib v frame p).1 ≡ writes message ∷ [])
      × IsMessageOf
          (record { msg_type = 1; source = 0; payload_format = 2; payload = frame })
          message
unfolding write_h264
write_h264-IsMessageOf env lib v frame p small =
    let header = video_header v.width v.height v.frame_rate (length frame) in
    let full = length header + length frame in
    (
      padded header frame,
      refl,
      (
        read_message-video_header v.width v.height v.frame_rate frame
            (replicate (round_up full - full) 0) small,
        omega (arith, length-padded header frame),
      ),
    )
