-- ===== src/VideoReceiver/Tests.antt =====
-- The theorems about video_receiver.c applied to concrete sources, streams and histories.
use mathlib.Core.List.{flatten}
use qdplay.Prelude.{
  ℕ, ◌+◌, ◌≤◌, ◌<◌, ◌≡◌, ◌≢◌, ◌⊎◌, ◌↔◌, refl, true, none, some, List, [], ◌∷◌, ◌++◌, map, length,
  take, drop, arith, inl, if◌then◌else◌, ◌==◌,
}
use qdplay.Posix.{done}
use qdplay.VideoReceiver.{
  Source, State, VideoParams, close_fd, init_state, max_sources, socket_rcv_buffer_size,
}
use qdplay.VideoReceiver.Sources.{
  accept_fd, request_active, yield_screen, remove_source, new_source, pid_of, pick_best,
}
use qdplay.VideoReceiver.Sources.Pick.{IsBest}
use qdplay.VideoReceiver.Sources.Inv.{Inv}
use qdplay.VideoReceiver.Sources.History.{Call, accepts, requests, step, run, active-run}
use qdplay.VideoReceiver.Sources.Switch.{
  others, accept_fd-active, remove_source-accept_fd, yield_screen-active, request_active-active,
  request_active-none,
}
use qdplay.VideoReceiver.Keyframe.{is_keyframe, HasKeyNal, is_keyframe-HasKeyNal}
use qdplay.VideoReceiver.Frames.Gate.{
  Arrival, deliver, StartsWithKeyframe, deliver-StartsWithKeyframe,
}
use qdplay.VideoReceiver.Stream.{Allocator, received, frames_loop, read_loop}
use qdplay.VideoReceiver.Stream.Framing.{put_frames, forward_frames, frames_loop-put_frames}
use qdplay.VideoReceiver.Stream.Delivery.{Delivered, read_loop-pieces}
use qdplay.VideoReceiver.Thread.{Polled, poll_round}
use qdplay.VideoReceiver.Thread.Inv.{poll_round-Inv}
use qdplay.VideoSender.{Sent, IsSent, put_frame}

-- Process 100 connected before process 200, which has the screen.
abbrev launcher : Source
launcher = new_source 7 100 1

abbrev phone : Source
phone = new_source 8 200 2

abbrev two_sources : State
two_sources = record init_state {
  sources = launcher ∷ phone ∷ [];
  next_priority = 3;
  active_pid = 200;
  sink_active = true;
  awaiting_keyframe = true;
  awaiting_keyframe_since = 1000;
}

two_sources-Inv : Inv two_sources
unfolding pick_best
two_sources-Inv = record {
  count = omega arith;
  below = (omega arith, (omega arith, tt));
  positive = omega arith;
  active = refl;
}

abbrev params : VideoParams
params = record { width = 800; height = 480; frame_rate = 30 }

-- An access unit with SPS, and one with a slice of a predicted frame.
abbrev key_frame : Sent
key_frame = record { params = params; unit = 0 ∷ 0 ∷ 1 ∷ 0x67 ∷ 0x42 ∷ [] }

abbrev plain_frame : Sent
plain_frame = record { params = params; unit = 0 ∷ 0 ∷ 1 ∷ 0x41 ∷ [] }

key_frame-IsSent : IsSent key_frame
key_frame-IsSent = omega arith

plain_frame-IsSent : IsSent plain_frame
plain_frame-IsSent = omega arith

abbrev stream : List ℕ
stream = put_frames (plain_frame ∷ key_frame ∷ []) []

-- The stream is cut in the header of its second frame.
abbrev stream_pieces : List (List ℕ)
stream_pieces = take 40 stream ∷ drop 40 stream ∷ []

abbrev some_memory : Allocator
some_memory size = true

stream_whole : launcher.buffer ++ flatten stream_pieces ≡ stream
unfolding put_frames put_frame flatten
stream_whole = refl

stream_sizes :
    (length (take 40 stream) ≤ socket_rcv_buffer_size)
    × (length (drop 40 stream) ≤ socket_rcv_buffer_size)
unfolding put_frames put_frame
stream_sizes = (omega arith, omega arith)

read_loop-pieces_example : Delivered 100 1500 (plain_frame ∷ key_frame ∷ []) two_sources [] (
    read_loop some_memory
      (map (λ piece. received piece (λ _. 1500)) stream_pieces)
      launcher
      two_sources
      [])
read_loop-pieces_example =
    read_loop-pieces some_memory 1500 stream_pieces launcher (plain_frame ∷ key_frame ∷ [])
      two_sources [] refl ((plain_frame-IsSent, omega arith), ((key_frame-IsSent, omega arith), tt))
      (stream_sizes.0, (stream_sizes.1, tt)) (inl (refl, refl)) stream_whole

frames_loop-put_frames_example :
    let (st', effects') =
      forward_frames 200 (λ _. 1500) 0 (plain_frame ∷ key_frame ∷ []) two_sources [] in
    frames_loop
      (2 + 1)
      some_memory
      (λ _. 1500)
      200
      262144
      0
      (put_frames (plain_frame ∷ key_frame ∷ []) (250 ∷ []))
      two_sources
      []
    ≡ frames_loop 1 some_memory (λ _. 1500) 200 262144 (0 + length stream) (250 ∷ []) st' effects'
frames_loop-put_frames_example =
    frames_loop-put_frames (plain_frame ∷ key_frame ∷ []) 1 some_memory (λ _. 1500) 200 262144 0
      (250 ∷ []) two_sources [] (plain_frame-IsSent, (key_frame-IsSent, tt))

abbrev history : List (ℕ × Call)
history =
    (1, accepts (done 7) (done 100)) ∷ (2, accepts (done 8) (done 200)) ∷ (3, requests 100) ∷ []

active-run_example :
    let st = run history init_state in
    (length st.sources ≤ max_sources)
    × (((st.sources ≡ []) × (st.active_pid ≡ 0))
        ⊎ ((s : Source) × (st.active_pid ≡ s.pid) × IsBest st.sources s))
active-run_example = active-run history (omega arith)

-- The second source sends a frame, and a third one connects.
abbrev busy : Polled
busy = record {
  ready = λ i. if i == 1 then some (received stream (λ _. 1500) ∷ []) else none;
  connection = some (done 9, done 300);
}

poll_round-Inv_example : Inv (poll_round some_memory 1500 busy two_sources).0
poll_round-Inv_example =
    poll_round-Inv some_memory 1500 busy two_sources (omega arith) two_sources-Inv

abbrev arrivals : List Arrival
arrivals =
    record { pid = 100; frame = put_frame plain_frame []; full_len = 36; now = 1100 }
    ∷ record { pid = 100; frame = put_frame key_frame []; full_len = 37; now = 1200 }
    ∷ []

-- Process 100 asks for the screen, which process 200 has.
moved : (step (1000, requests 100) two_sources).active_pid ≢ two_sources.active_pid
unfolding step
moved = λ e. absurd (
    omega (
      arith,
      request_active-active 100 1000 two_sources (omega arith) two_sources-Inv
          (0, launcher, refl, refl),
      e,
    ))

deliver-StartsWithKeyframe_example :
    StartsWithKeyframe (deliver arrivals (step (1000, requests 100) two_sources))
deliver-StartsWithKeyframe_example =
    deliver-StartsWithKeyframe (requests 100) 1000 two_sources arrivals moved
      (omega arith, (omega arith, tt))

is_keyframe-HasKeyNal_example :
    (is_keyframe (0 ∷ 0 ∷ 1 ∷ 0x41 ∷ 0 ∷ 0 ∷ 1 ∷ 0x65 ∷ []) ≡ true)
    ↔ HasKeyNal (0 ∷ 0 ∷ 1 ∷ 0x41 ∷ 0 ∷ 0 ∷ 1 ∷ 0x65 ∷ [])
is_keyframe-HasKeyNal_example = is_keyframe-HasKeyNal (0 ∷ 0 ∷ 1 ∷ 0x41 ∷ 0 ∷ 0 ∷ 1 ∷ 0x65 ∷ [])

accept_fd-active_example :
    let (st', effects) = accept_fd 9 300 1500 two_sources in
    ((2 < max_sources)
      × (st'.sources ≡ launcher ∷ phone ∷ new_source 9 300 3 ∷ [])
      × (st'.active_pid ≡ 300))
    ⊎ ((max_sources ≤ 2) × (st' ≡ two_sources) × (effects ≡ close_fd 9 ∷ []))
accept_fd-active_example = accept_fd-active 9 300 1500 two_sources (omega arith) two_sources-Inv

remove_source-accept_fd_example :
    let st' = (remove_source 2 1600 (accept_fd 9 300 1500 two_sources).0).0 in
    (st'.sources ≡ launcher ∷ phone ∷ []) × (st'.active_pid ≡ 200)
remove_source-accept_fd_example =
    remove_source-accept_fd 9 300 1500 1600 two_sources (omega arith) (omega arith) two_sources-Inv

others_two : others 200 two_sources.sources ≢ []
unfolding others
others_two = λ e. cc

yield_screen-active_example :
    let st' = (yield_screen 200 1500 two_sources).0 in
    (st'.active_pid ≢ 200)
    × (st'.active_pid ≡ pid_of (pick_best none (others 200 (launcher ∷ phone ∷ []))))
yield_screen-active_example =
    yield_screen-active 200 1500 two_sources (omega arith) two_sources-Inv others_two

request_active-active_example : (request_active 100 1500 two_sources).0.active_pid ≡ 100
request_active-active_example =
    request_active-active 100 1500 two_sources (omega arith) two_sources-Inv
      (0, launcher, refl, refl)

request_active-none_example : (request_active 300 1500 two_sources).0 ≡ two_sources
request_active-none_example =
    request_active-none 300 1500 two_sources two_sources-Inv
      ((λ e. absurd (omega arith)), ((λ e. absurd (omega arith)), tt))
