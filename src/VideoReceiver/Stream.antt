-- ===== src/VideoReceiver/Stream.antt =====
-- video_receiver.c: `video_receiver_read_source`. The bytes that `recv` returns are collected in
-- the source's buffer, and complete frames at its front are handled.
pub mod Framing
pub mod Chunks
pub mod Delivery
use qdplay.Prelude.{
  ℕ, zero, suc, ◌+◌, ◌-◌, ◌*◌, Bool, true, false, not, ◌&&◌, ◌||◌, Option, none, some, List, [],
  ◌∷◌, ◌++◌, length, take, drop, ltb, ◌==◌, if◌then◌else◌,
}
use qdplay.Words.{be32_at}
use qdplay.Posix.{Errno, eintr, eagain}
use qdplay.VideoReceiver.{
  Source, State, Effect, socket_rcv_buffer_size, initial_buffer_size, max_frame_size, service_mark,
  h264_frame_event, frame_header_size,
}
use qdplay.VideoReceiver.Frames.{handle_frame}

-- `full_len < sizeof(messaging_service_video_frame_t) || full_len > VIDEO_RECEIVER_MAX_FRAME_SIZE`
abbrev pub is_bad_length : ℕ → Bool
is_bad_length full_len = ltb full_len frame_header_size || ltb max_frame_size full_len

-- The checks of a frame's header, before its bytes are waited for.
abbrev pub is_good_header : List ℕ → Bool
is_good_header frame =
    be32_at frame 0 == service_mark
    && be32_at frame 4 == h264_frame_event
    && not (is_bad_length (be32_at frame 8))

-- How the loop over the complete frames ends: the source is dropped, or it stops at an offset with
-- a buffer that must hold `room` bytes. `no_fuel` is no outcome of the code.
pub data Frames : Type 0 where
  dropped : State → List Effect → Frames
  stopped : ℕ → ℕ → State → List Effect → Frames
  no_fuel : Frames

-- `realloc`: whether a size can be had.
abbrev pub Allocator : Type 0
Allocator = ℕ → Bool

-- `offset == 0 && full_len > source->buffer_size`: the buffer is enlarged for the whole frame.
abbrev pub make_room : Allocator → ℕ → ℕ → ℕ → State → List Effect → Frames
make_room alloc offset full_len size st effects =
    if offset == 0 && ltb size full_len
    then (if alloc (full_len + socket_rcv_buffer_size)
        then stopped offset (full_len + socket_rcv_buffer_size) st effects
        else dropped st effects)
    else stopped offset size st effects

-- The loop, at `offset`, over the buffer from there on. `clock offset` is the time at which the
-- frame at that offset is handled; `pid` and `size` are the source's pid and `buffer_size`.
unfoldable pub frames_loop :
    ℕ → Allocator → (ℕ → ℕ) → ℕ → ℕ → ℕ → List ℕ → State → List Effect → Frames
frames_loop zero alloc clock pid size offset rest st effects = no_fuel
frames_loop (suc fuel) alloc clock pid size offset rest st effects =
    let full_len = be32_at rest 8 in
    let handled : Frames = elim (handle_frame pid rest full_len (clock offset) st) [
      | none ↦ dropped st effects
      | some (st', more) ↦
          frames_loop fuel alloc clock pid size (offset + full_len) (drop full_len rest) st'
            (effects ++ more)
    ] in
    if ltb (length rest) frame_header_size
    then stopped offset size st effects
    else if is_good_header rest
    then (if ltb (length rest) full_len
        then make_room alloc offset full_len size st effects
        else handled)
    else dropped st effects

-- What `recv` does: bytes arrive, at least one and no more than the buffer has space for, with the times
-- at which the frames in them are handled; the peer has closed, which is `recv`'s 0; or an error. The
-- space is never less than a full socket buffer.
pub data Recv : Type 0 where
  received : List ℕ → (ℕ → ℕ) → Recv
  closed : Recv
  recv_failed : Errno → Recv

-- The buffer is enlarged if it has space for less than a full socket buffer. `none` is an overflow
-- or a failed `realloc`.
unfoldable pub grow : Allocator → Source → Option Source
grow alloc src =
    let new_size = if src.buffer_size == 0 then initial_buffer_size else src.buffer_size * 2 in
    if ltb (src.buffer_size - length src.buffer) socket_rcv_buffer_size
    then (if ltb (max_frame_size + socket_rcv_buffer_size * 2) new_size
        then none
        else if alloc new_size
        then some (record src { buffer_size = new_size })
        else none)
    else some src

-- The result of `video_receiver_read_source` with the source and the state after it.
pub record Read : Type 0 where
  pub keep : Bool
  pub source : Source
  pub state : State
  pub effects : List Effect

abbrev pub ends : Bool → Source → State → List Effect → Read
ends keep src st effects = record { keep = keep; source = src; state = st; effects = effects }

-- The source's buffer behind the bytes that have just arrived.
abbrev pub filled_buffer : Source → List ℕ → List ℕ
filled_buffer src bs = src.buffer ++ take (src.buffer_size - length src.buffer) bs

-- The frames of a buffer. There are fewer than it has bytes, so the fuel is enough.
unfoldable pub process : Allocator → (ℕ → ℕ) → Source → List ℕ → State → List Effect → Frames
process alloc clock src buffer st effects =
    frames_loop (suc (length buffer)) alloc clock src.pid src.buffer_size 0 buffer st effects

-- `recv` returns the outcomes of the list in turn, and then EAGAIN.
unfoldable pub read_loop : Allocator → List Recv → Source → State → List Effect → Read
read_loop alloc [] src st effects = elim (grow alloc src) [
  | none ↦ ends false src st effects
  | some src' ↦ ends true src' st effects
]
read_loop alloc (closed ∷ rs) src st effects = ends false src st effects
read_loop alloc (recv_failed eintr ∷ rs) src st effects = elim (grow alloc src) [
  | none ↦ ends false src st effects
  | some src' ↦ read_loop alloc rs src' st effects
]
read_loop alloc (recv_failed eagain ∷ rs) src st effects = elim (grow alloc src) [
  | none ↦ ends false src st effects
  | some src' ↦ ends true src' st effects
]
read_loop alloc (recv_failed e ∷ rs) src st effects = ends false src st effects
read_loop alloc (received bs clock ∷ rs) src st effects = elim (grow alloc src) [
  | none ↦ ends false src st effects
  | some src' ↦
      let buffer = filled_buffer src' bs in
      elim (process alloc clock src' buffer st effects) [
        | dropped st' effects' ↦ ends false src' st' effects'
        | stopped offset size st' effects' ↦
            read_loop alloc rs (record src' { buffer = drop offset buffer; buffer_size = size }) st'
              effects'
        | no_fuel ↦ ends false src' st effects
      ]
]
