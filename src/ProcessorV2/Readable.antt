-- ===== src/ProcessorV2/Readable.antt =====
-- What the second protocol sends is read by its own reader.
use qdplay.Prelude.{ℕ, ◌+◌, ◌≡◌, ◌≤◌, some, List, length}
use qdplay.Words.{}
use qdplay.VideoReceiver.{}
use qdplay.Processor.{Call, writes}
use qdplay.Json.{Value, JsonLibrary}
use qdplay.ProcessorV2.Message.{Message, max_message_size}
use qdplay.ProcessorV2.Video.{IsMessageOf}

-- What is written is a JSON message.
abbrev pub SendsJson : Call → Type 0
SendsJson (writes bytes) =
    (json : List ℕ) × IsMessageOf
      (record { msg_type = 0; source = 0; payload_format = 1; payload = json }) bytes
SendsJson _ = Unit

-- The texts that the library prints fit, with the header, the longest message that the reader takes.
abbrev pub PrintsShort : JsonLibrary → Type 0
PrintsShort lib =
    (v : Value) (json : List ℕ) → lib.print v ≡ some json → 16 + length json ≤ max_message_size
