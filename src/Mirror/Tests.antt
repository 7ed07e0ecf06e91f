-- ===== src/Mirror/Tests.antt =====
-- The way of a frame to the head unit for a stream that is cut in the header of its second frame.
use mathlib.Core.List.{flatten}
use qdplay.Prelude.{
  ℕ, ◌≡◌, ◌≤◌, refl, true, false, none, some, List, [], ◌∷◌, ◌++◌, length, take, drop, map,
  replicate, arith, inl,
}
use qdplay.VideoReceiver.{Source, State, init_state, socket_rcv_buffer_size}
use qdplay.VideoReceiver.Sources.{new_source}
use qdplay.VideoReceiver.Stream.{Allocator, received, read_loop}
use qdplay.VideoReceiver.Stream.Framing.{put_frames}
use qdplay.VideoSender.{Sent, put_frame}
use qdplay.Accessory.{}
use qdplay.Accessory.Write.{accepted}
use qdplay.Processor.{Env, Port}
use qdplay.Json.{Value, JsonLibrary}
use qdplay.ProcessorV2.Handlers.{message_processor_v2}
use qdplay.Mirror.{send_frames}
use qdplay.Mirror.Shown.{messages_seen, video_message, read_loop-messages_seen}

-- Process 100 has the screen of a head unit that shows the phone.
abbrev mirrored : Source
mirrored = new_source 7 100 1

abbrev showing : State
showing = record init_state {
  sources = mirrored ∷ [];
  next_priority = 2;
  active_pid = 100;
  sink_active = true;
  awaiting_keyframe = false;
}

abbrev frame_of : List ℕ → Sent
frame_of unit = record {
  params = record { width = 800; height = 480; frame_rate = 30 };
  unit = unit;
}

abbrev first : Sent
first = frame_of (0 ∷ 0 ∷ 1 ∷ 0x41 ∷ [])

abbrev second : Sent
second = frame_of (0 ∷ 0 ∷ 1 ∷ 0x41 ∷ 7 ∷ [])

abbrev whole_stream : List ℕ
whole_stream = put_frames (first ∷ second ∷ []) []

abbrev cut_stream : List (List ℕ)
cut_stream = take 40 whole_stream ∷ drop 40 whole_stream ∷ []

cut_stream-whole : mirrored.buffer ++ flatten cut_stream ≡ whole_stream
unfolding put_frames put_frame flatten
cut_stream-whole = refl

cut_stream-small :
    (length (take 40 whole_stream) ≤ socket_rcv_buffer_size)
    × (length (drop 40 whole_stream) ≤ socket_rcv_buffer_size)
unfolding put_frames put_frame
cut_stream-small = (omega arith, omega arith)

-- A library that neither reads nor prints: no text is exchanged while frames are sent.
abbrev silent : JsonLibrary
silent = record {
  Json = Value;
  parse = λ bytes. none;
  item = λ v key. none;
  is_object = λ v. false;
  text_of = λ v. none;
  number_of = λ v. none;
  print = λ v. none;
}

abbrev all_memory : Env
all_memory = record { memory = λ n. true; heap = λ n. replicate n 0xA5; now = 7 }

abbrev plenty : Allocator
plenty size = true

-- The driver takes two blocks.
abbrev opened : Port
opened = record {
  readings = [];
  writings = accepted 512 ∷ accepted 512 ∷ [];
  session = record {
    has_fd = true;
    stopping = false;
    link_failed = false;
    has_processor = true;
    bounce = [];
    last_read_ts = 0;
    last_write_ts = 0;
    send_buffer_size = 0;
  };
  frame_buffer_size = 0;
  message_buffer_size = 0;
  gesture_fired = false;
}

read_loop-messages_seen_example :
    let read =
      read_loop plenty (map (λ piece. received piece (λ _. 1500)) cut_stream) mirrored showing [] in
    messages_seen opened.session
      (send_frames (some (message_processor_v2 all_memory silent)) read.effects opened).1
    ≡ video_message first ∷ video_message second ∷ []
read_loop-messages_seen_example =
    read_loop-messages_seen plenty all_memory silent opened.session 1500 cut_stream mirrored
      (first ∷ second ∷ []) showing opened refl
      ((omega arith, omega arith), ((omega arith, omega arith), tt))
      (omega arith, (omega arith, tt)) (cut_stream-small.0, (cut_stream-small.1, tt))
      (inl (refl, refl)) cut_stream-whole (record { wanted = refl; active = refl; started = refl })
      refl
