-- ===== src/RunSession/Tests.antt =====
-- The theorems about a session applied to a head unit that speaks the legacy protocol.
use qdplay.Prelude.{ℕ, zero, suc, true, false, none, List, [], ◌∷◌, replicate, arith, ◌≤◌, ◌+◌, ◌*◌}
use qdplay.Posix.{Outcome, done, failed, ebusy, enodev}
use qdplay.Struct.{u32, fill, put_bytes}
use qdplay.Accessory.{}
use qdplay.Accessory.Read.{arrived}
use qdplay.Accessory.Write.{accepted, refused}
use qdplay.Processor.{Env, Port, MessageProcessor}
use qdplay.Processor.Progress.{arriving}
use qdplay.MessagesV1.{binary_mark, action, cmd, cmd_version}
use qdplay.Json.{JsonLibrary}
use qdplay.ProcessorV2.Handlers.{message_processor_v2}
use qdplay.ProcessorV1.Frame.{message_processor_v1}
use qdplay.ProcessorV1.Drained.{}
use qdplay.RunSession.{open_attempts, open_device}
use qdplay.RunSession.Opening.{IsOpened, open_device-IsOpened}
use qdplay.RunSession.Loop.{}
use qdplay.RunSession.Run.{Kernel, Slot, session_idle, run_session}
use qdplay.RunSession.Returns.{Returns, run_session-Returns}
use qdplay.RunSession.Processors.{v1-Serves, v2-Serves}
use qdplay.RunSession.Teardown.{IsBalanced, run_session-IsBalanced}

-- The driver is busy, then absent, then opened.
abbrev opens : ℕ → Outcome ℕ
opens zero = failed ebusy
opens (suc zero) = failed enodev
opens (suc (suc n)) = done 5

open_device-IsOpened_example : IsOpened opens 0 open_attempts (open_device opens)
open_device-IsOpened_example = open_device-IsOpened opens

abbrev env : Env
env = record { memory = λ n. true; heap = λ n. replicate n 1; now = 3 }

abbrev v1 : MessageProcessor
v1 = message_processor_v1 env

abbrev zeros : List ℕ
zeros = replicate 512 0

abbrev version : List ℕ
version = fill (binary_mark ∷ action 1 ∷ cmd cmd_version ∷ u32 128 800 ∷ u32 132 480 ∷ []) zeros

-- Two messages of two bytes, which are none of the protocol.
abbrev port : Port
port = record {
  readings = arrived (1 ∷ 2 ∷ []) 5 ∷ arrived (3 ∷ 4 ∷ []) 6 ∷ [];
  writings = refused enodev ∷ accepted 512 ∷ [];
  session = record {
    has_fd = true;
    stopping = false;
    link_failed = false;
    has_processor = true;
    bounce = [];
    last_read_ts = 0;
    last_write_ts = 0;
    send_buffer_size = 0;
  };
  frame_buffer_size = 0;
  message_buffer_size = 0;
  gesture_fired = false;
}

abbrev kernel : Kernel
kernel = record { mode = done 0; opens = opens; watchdog_starts = true; now = 9 }

-- The head unit says who it is, and the session goes on until the driver has nothing.
abbrev slot : Slot
slot = record {
  fd = none;
  phase = session_idle;
  port = record port { readings = arrived version 4 ∷ [] };
}

-- The second protocol, with a library that parses nothing.
abbrev library : JsonLibrary
library = record {
  Json = ℕ;
  parse = λ bytes. none;
  item = λ j key. none;
  is_object = λ j. false;
  text_of = λ j. none;
  number_of = λ j. none;
  print = λ v. none;
}

abbrev protocols : List MessageProcessor
protocols = v1 ∷ message_processor_v2 env library ∷ []

run_session-IsBalanced_example : IsBalanced kernel.mode (run_session kernel 100 protocols slot).1
run_session-IsBalanced_example = run_session-IsBalanced kernel 100 protocols slot

enough_turns : arriving slot.port.readings * 20 + 20 ≤ 11000
unfolding arriving fill put_bytes
enough_turns = omega arith

run_session-Returns_example : Returns (run_session kernel 11000 protocols slot)
run_session-Returns_example =
    run_session-Returns kernel 11000 protocols slot (v1-Serves env, (v2-Serves env library, tt))
      enough_turns
