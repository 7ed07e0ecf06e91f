-- ===== src/ProcessorV1/Frame.antt =====
-- message_processor_v1.c: `message_processor_v1_write_h264`, which sends a frame in a message of its
-- own.
use qdplay.Prelude.{
  ℕ, ◌+◌, ◌^◌, ◌≡◌, ◌≤◌, ◌<◌, refl, sym, ◌∙◌, ap, true, false, Option, none, some, List, [], ◌∷◌,
  ◌++◌, length, take, drop, replicate, ltb, ◌==◌, if◌then◌else◌, arith, length-replicate,
  take-append_length, Bool-cases, inl, inr,
}
use qdplay.Posix.{Outcome, failed, einval, enomem}
use qdplay.Words.{be32_at, be32_bytes}
use qdplay.Struct.{Field, u32, put_bytes, fill}
use qdplay.Struct.Bytes.{length-fill, drop-put_bytes}
use qdplay.VideoReceiver.{VideoParams}
use qdplay.Processor.{Env, Io, Port, MessageProcessor, writes, write_bytes}
use qdplay.MessagesV1.{total_size, qd_screen_header_h264_response_init}
use qdplay.MessagesV1.WellFormed.{
  IsWellFormed, fill-IsWellFormed, put_bytes-IsWellFormed, be32_at-fill, be32_at-put_bytes,
}
use qdplay.ProcessorV1.{with_header, write_hb}
use qdplay.ProcessorV1.Handlers.{run, probe}
use qdplay.ProcessorV1.Padding.{IsShort, with_header_lem}

abbrev pub screen_message_buffer_size : ℕ
screen_message_buffer_size = 65535

abbrev pub frame_interval_sec : ℕ
frame_interval_sec = 1

-- The header of a frame: its sizes are set last.
abbrev pub screen_fields : VideoParams → ℕ → List Field
screen_fields v len =
    qd_screen_header_h264_response_init v.width v.height v.frame_rate frame_interval_sec
    ++ (total_size (with_header len) ∷ u32 92 len ∷ [])

-- Header, frame and padding, in memory that is cleared.
abbrev pub frame_message : VideoParams → List ℕ → List ℕ
frame_message v frame =
    put_bytes 512 frame
      (fill (screen_fields v (length frame)) (replicate (with_header (length frame)) 0))

-- The size of `message_buffer`, 0 for NULL, once it is allocated and, if need be, enlarged.
abbrev pub allocated : Env → ℕ → Option ℕ
allocated env size =
    if size == 0
    then (if env.memory screen_message_buffer_size then some screen_message_buffer_size else none)
    else some size

abbrev pub enlarged : Env → ℕ → ℕ → Option ℕ
enlarged env total size =
    if ltb size total then (if env.memory total then some total else none) else some size

abbrev pub with_buffer : Env → VideoParams → List ℕ → Option ℕ → Io (Outcome ℕ)
with_buffer env v frame none p = (failed enomem, [], p)
with_buffer env v frame (some size) p = elim (enlarged env (with_header (length frame)) size) [
  | none ↦ (failed enomem, [], record p { frame_buffer_size = size })
  | some size' ↦
      write_bytes env.now (frame_message v frame) (record p { frame_buffer_size = size' })
]

-- `message_processor_v1_write_h264`
unfoldable pub write_h264 : Env → VideoParams → List ℕ → Io (Outcome ℕ)
write_h264 env v frame p =
    if length frame == 0
    then (failed einval, [], p)
    else with_buffer env v frame (allocated env p.frame_buffer_size) p

-- `message_provessor_v1`, with MESSAGE_PROCESSOR_V1_READ_TIMEOUT_SEC.
abbrev pub message_processor_v1 : Env → MessageProcessor
message_processor_v1 env = record {
  probe = probe env;
  run = run env;
  write_hb = write_hb env;
  write_h264 = write_h264 env;
  read_timeout_sec = 15;
}

-- A message that carries a frame: it is well-formed, its header has the size of the picture and of the
-- frame, and the frame stands behind the header.
abbrev pub Carries : VideoParams → List ℕ → List ℕ → Type 0
Carries v frame message =
    IsWellFormed message
    × (be32_at message 64 ≡ v.width)
    × (be32_at message 68 ≡ v.height)
    × (be32_at message 180 ≡ v.frame_rate)
    × (be32_at message 92 ≡ length frame)
    × (take (length frame) (drop 512 message) ≡ frame)

module _ (v : VideoParams) (width : v.width < 2 ^ 32) (height : v.height < 2 ^ 32)
    (frame_rate : v.frame_rate < 2 ^ 32) (frame : List ℕ) (short : IsShort (length frame)) where
  frame_message-Carries : Carries v frame (frame_message v frame)
  frame_message-Carries =
      let len = length frame in
      let size = with_header len in
      let blank : List ℕ = replicate size 0 in
      let (blocks, room, small) = with_header_lem len short in
      let full : length blank ≡ size = length-replicate size 0 in
      let fields = screen_fields v len in
      let memory = fill fields blank in
      let fits : 512 + len ≤ length memory = omega (arith, length-fill fields blank, full, room) in
      (
        put_bytes-IsWellFormed 512 frame memory (omega arith) (
            fill-IsWellFormed fields blank (omega (arith, full, room)) refl
              (be32_bytes size small ∙ sym full) (rw full blocks)),
        be32_at-put_bytes 512 frame memory 64 (omega arith)
            ∙ be32_at-fill fields blank 64 (omega (arith, full, room))
            ∙ be32_bytes v.width width,
        be32_at-put_bytes 512 frame memory 68 (omega arith)
            ∙ be32_at-fill fields blank 68 (omega (arith, full, room))
            ∙ be32_bytes v.height height,
        be32_at-put_bytes 512 frame memory 180 (omega arith)
            ∙ be32_at-fill fields blank 180 (omega (arith, full, room))
            ∙ be32_bytes v.frame_rate frame_rate,
        be32_at-put_bytes 512 frame memory 92 (omega arith)
            ∙ be32_at-fill fields blank 92 (omega (arith, full, room))
            ∙ be32_bytes len (omega (arith, short)),
        ap (take len) (drop-put_bytes 512 frame memory fits)
            ∙ take-append_length frame (drop (512 + len) memory),
      )

  -- A frame that has bytes and leaves the message's size in 32 bits is handed to the session in one
  -- message that carries it, if memory is had.
  pub write_h264-Carries :
      (env : Env) (p : Port)
      → 1 ≤ length frame
      → ((n : ℕ) → env.memory n ≡ true)
      → (message : List ℕ) × ((write_h264 env v frame p).1 ≡ writes message ∷ [])
        × Carries v frame message
  unfolding write_h264
  write_h264-Carries env p some_bytes memory =
      let len = length frame in
      let filled : (len == 0) ≡ false = ground arith in
      let calls : (write_h264 env v frame p).1 ≡ writes (frame_message v frame) ∷ [] =
        elim (Bool-cases (p.frame_buffer_size == 0)) [
          | inl null ↦ elim (Bool-cases (ltb screen_message_buffer_size (with_header len))) [
            | inl small ↦
                rw
                  (
                    filled,
                    null,
                    memory screen_message_buffer_size,
                    small,
                    memory (with_header len),
                    write_h264,
                    with_buffer,
                  )
                  refl
            | inr large ↦
                rw (filled, null, memory screen_message_buffer_size, large, write_h264, with_buffer)
                  refl
          ]
          | inr had ↦ elim (Bool-cases (ltb p.frame_buffer_size (with_header len))) [
            | inl small ↦
                rw (filled, had, small, memory (with_header len), write_h264, with_buffer) refl
            | inr large ↦ rw (filled, had, large, write_h264, with_buffer) refl
          ]
        ] in
      (frame_message v frame, calls, frame_message-Carries)
