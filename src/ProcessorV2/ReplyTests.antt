-- ===== src/ProcessorV2/ReplyTests.antt =====
-- The theorems about the second protocol's messages with a library that knows one JSON text.
use qdplay.Prelude.{
  ℕ, ◌≡◌, refl, Bool, true, false, Option, none, some, List, [], ◌∷◌, replicate, arith,
  if◌then◌else◌, length,
}
use qdplay.Struct.{fill, put_bytes}
use qdplay.VideoReceiver.{VideoParams}
use qdplay.Accessory.Read.{arrived, read, fetch}
use qdplay.Accessory.Write.{accepted}
use qdplay.Processor.{Env, Port, writes}
use qdplay.Json.{Value, text, number, object, Fields, field, end, Number, whole, JsonLibrary}
use qdplay.MessagesV2.{json_fields}
use qdplay.MessagesV2.Texts.{cmd_key, para_key, video_sup_req_cmd, video_format_key}
use qdplay.HuMessage.Codec.{c_string}
use qdplay.ProcessorV1.Handlers.{same_text}
use qdplay.ProcessorV2.Message.{read_message, split_message}
use qdplay.ProcessorV2.Handlers.{run, write_h264}
use qdplay.ProcessorV2.Video.{IsMessageOf, write_h264-IsMessageOf}

-- The request that the text `R` stands for: CMD is VIDEO_SUP_REQ, and the format is 3.
abbrev request : Value
request = object (
    field cmd_key (text video_sup_req_cmd)
      (field para_key (object (field video_format_key (number 3) end)) end))

abbrev lookup : List ℕ → Fields → Option Value
lookup key end = none
lookup key (field name v rest) = if same_text key name then some v else lookup key rest

abbrev item : Value → List ℕ → Option Value
item (object fs) key = lookup key fs
item _ key = none

abbrev is_object : Value → Bool
is_object (object fs) = true
is_object _ = false

abbrev text_of : Value → Option (List ℕ)
text_of (text s) = some s
text_of _ = none

abbrev number_of : Value → Option Number
number_of (number n) = some (whole n)
number_of _ = none

-- Whatever is printed is `R`.
abbrev library : JsonLibrary
library = record {
  Json = Value;
  parse = λ bytes. if same_text bytes (b'R' ∷ []) then some request else none;
  item = item;
  is_object = is_object;
  text_of = text_of;
  number_of = number_of;
  print = λ v. some (b'R' ∷ []);
}

abbrev env : Env
env = record { memory = λ n. true; heap = λ n. replicate n 0xA5; now = 7 }

-- The message of the car, with its source.
abbrev from_car : List ℕ
from_car =
    put_bytes 0 (fill (json_fields 17) (replicate 16 0))
      (put_bytes 16 (b'R' ∷ []) (replicate 512 0))

abbrev port : Port
port = record {
  readings = arrived (put_bytes 11 (1 ∷ []) from_car) 5 ∷ [];
  writings = accepted 512 ∷ [];
  session = record {
    has_fd = true;
    stopping = false;
    link_failed = false;
    has_processor = true;
    bounce = [];
    last_read_ts = 0;
    last_write_ts = 0;
    send_buffer_size = 0;
  };
  frame_buffer_size = 0;
  message_buffer_size = 0;
  gesture_fired = false;
}

abbrev params : VideoParams
params = record { width = 800; height = 480; frame_rate = 30 }

write_h264-IsMessageOf_example :
    (message : List ℕ) × ((write_h264 env library params (1 ∷ 2 ∷ 3 ∷ []) port).1
      ≡ writes message ∷ [])
    × IsMessageOf
        (record { msg_type = 1; source = 0; payload_format = 2; payload = 1 ∷ 2 ∷ 3 ∷ [] })
        message
write_h264-IsMessageOf_example =
    write_h264-IsMessageOf env library params (1 ∷ 2 ∷ 3 ∷ []) port (omega arith)

-- The request is answered with one message.
answers : length (run env library port).1 ≡ 1
unfolding run fill put_bytes read fetch read_message split_message c_string
answers = refl
