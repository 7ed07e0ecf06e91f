-- ===== src/ProcessorV1/Tests.antt =====
-- The theorems about the legacy protocol applied to concrete messages.
use qdplay.Prelude.{ℕ, ◌≡◌, refl, true, false, some, List, [], ◌∷◌, replicate, drop, All, arith}
use qdplay.Words.{be32_at}
use qdplay.Struct.{u32, fill, put_bytes}
use qdplay.HuMessage.Codec.{decode}
use qdplay.HuMessage.Codec.Layout.{full_length}
use qdplay.VideoReceiver.{VideoParams}
use qdplay.Accessory.{Session}
use qdplay.Accessory.Read.{arrived, read, fetch}
use qdplay.Accessory.Write.{accepted, write, write_all_locked}
use qdplay.Processor.{Env, Port, writes}
use qdplay.MessagesV1.{binary_mark, cmd, cmd_heartbeat, cmd_version, action}
use qdplay.MessagesV1.WellFormed.{IsWellFormed}
use qdplay.ProcessorV1.{zeros, hu_message, needupgrade_id, needupgrade_item, app_message, write_hb}
use qdplay.ProcessorV1.Texts.{needupgrade-IsEncodable}
use qdplay.ProcessorV1.Padding.{decode-app_message}
use qdplay.ProcessorV1.Handlers.{run, probe}
use qdplay.ProcessorV1.Frame.{write_h264, Carries, write_h264-Carries}
use qdplay.ProcessorV1.Safe.{SendsWellFormed, answers-WellFormed}

-- Memory is always had, and it is not cleared.
abbrev env : Env
env = record { memory = λ n. true; heap = λ n. replicate n 0xA5; now = 7 }

abbrev session : Session
session = record {
  has_fd = true;
  stopping = false;
  link_failed = false;
  has_processor = true;
  bounce = [];
  last_read_ts = 0;
  last_write_ts = 0;
  send_buffer_size = 0;
}

abbrev heartbeat : List ℕ
heartbeat = fill (binary_mark ∷ action 1 ∷ cmd cmd_heartbeat ∷ []) zeros

-- The message of a car with a screen of 800 by 480.
abbrev version : List ℕ
version = fill (binary_mark ∷ action 1 ∷ cmd cmd_version ∷ u32 128 800 ∷ u32 132 480 ∷ []) zeros

abbrev port : Port
port = record {
  readings = arrived heartbeat 5 ∷ [];
  writings = accepted 512 ∷ accepted 512 ∷ [];
  session = session;
  frame_buffer_size = 0;
  message_buffer_size = 0;
  gesture_fired = false;
}

answers-WellFormed_example :
    All SendsWellFormed (run env port).1
    × All SendsWellFormed (probe env version port).1
    × All SendsWellFormed (write_hb env port).1
answers-WellFormed_example = answers-WellFormed env version port refl

abbrev params : VideoParams
params = record { width = 800; height = 480; frame_rate = 30 }

write_h264-Carries_example :
    (message : List ℕ) × ((write_h264 env params (1 ∷ 2 ∷ 3 ∷ []) port).1 ≡ writes message ∷ [])
    × Carries params (1 ∷ 2 ∷ 3 ∷ []) message
write_h264-Carries_example =
    write_h264-Carries params (omega arith) (omega arith) (omega arith) (1 ∷ 2 ∷ 3 ∷ [])
      (omega arith) env port (omega arith) (λ n. refl)

decode-app_message_example :
    IsWellFormed (app_message (hu_message needupgrade_id (needupgrade_item ∷ [])))
    × (be32_at (app_message (hu_message needupgrade_id (needupgrade_item ∷ []))) 64
        ≡ full_length (hu_message needupgrade_id (needupgrade_item ∷ [])))
    × (decode (drop 512 (app_message (hu_message needupgrade_id (needupgrade_item ∷ []))))
        ≡ some (hu_message needupgrade_id (needupgrade_item ∷ [])))
decode-app_message_example =
    decode-app_message (hu_message needupgrade_id (needupgrade_item ∷ [])) needupgrade-IsEncodable
      (omega arith)

-- The heartbeat that is read is answered by one.
echoes : (run env port).0 ≡ true
unfolding run write_hb fill put_bytes read fetch write write_all_locked
echoes = refl
