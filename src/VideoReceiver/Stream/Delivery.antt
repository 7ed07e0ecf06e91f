-- ===== src/VideoReceiver/Stream/Delivery.antt =====
-- `video_receiver_read_source` on the pieces of a stream of frames.
use qdplay.Prelude.{
  ℕ, suc, ◌+◌, ◌-◌, ◌≡◌, ◌≤◌, refl, sym, subst, ◌∙◌, ap, ◌⊎◌, inl, inr, true, false, some, List, [],
  ◌∷◌, ◌++◌, map, length, drop, ltb, arith, Bool-cases, All, take_all,
}
use mathlib.Core.List.{append-nil, append_assoc, flatten}
use qdplay.Words.{be32_at}
use qdplay.VideoReceiver.{
  Source, State, Effect, socket_rcv_buffer_size, initial_buffer_size, frame_header_size,
}
use qdplay.VideoSender.{Sent, IsSent, full_len}
use qdplay.VideoReceiver.Stream.{
  Allocator, stopped, frames_loop, process, Recv, received, read_loop, grow, Read, filled_buffer,
}
use qdplay.VideoReceiver.Stream.Framing.{
  put_frames, forward_frame, forward_frames, frames_loop-put_frames, long_enough, put_frame_fields,
}
use qdplay.VideoReceiver.Stream.Chunks.{IsSmall, Waits, Cut, cut, drop-put_frames, small_limit}

length-put_frames :
    (fs : List Sent) (tail : List ℕ) → length fs + length tail ≤ length (put_frames fs tail)
unfolding put_frames
length-put_frames [] tail = omega arith
length-put_frames (f ∷ fs) tail =
    omega (arith, length-put_frames fs tail, long_enough f (put_frames fs tail))

length-put_frames_nil :
    (fs : List Sent) (tail : List ℕ)
    → length (put_frames fs tail) ≡ length (put_frames fs []) + length tail
unfolding put_frames
length-put_frames_nil [] tail = omega arith
length-put_frames_nil (f ∷ fs) tail = omega (
  arith,
  length-put_frames_nil fs tail,
  long_enough f (put_frames fs tail),
  long_enough f (put_frames fs []),
)

-- An incomplete frame that fits the buffer is left where it is.
frames_loop-Waits :
    (fuel : ℕ) (alloc : Allocator) (clock : ℕ → ℕ) (pid size offset : ℕ) (tail : List ℕ)
    (st : State) (effects : List Effect)
    → Waits tail
    → small_limit ≤ size
    → frames_loop (suc fuel) alloc clock pid size offset tail st effects
      ≡ stopped offset size st effects
unfolding frames_loop
frames_loop-Waits fuel alloc clock pid size offset tail st effects (inl short) fits =
    let e : ltb (length tail) frame_header_size ≡ true = ground arith in rw e
frames_loop-Waits fuel alloc clock pid size offset tail st effects (inr (good, more, small)) fits =
    elim (Bool-cases (ltb (length tail) frame_header_size)) [
      | inl short ↦ rw short
      | inr long ↦
          let whole : ltb (length tail) (be32_at tail 8) ≡ true = ground arith in
          let room : ltb size (be32_at tail 8) ≡ false = ground arith in
          rw (long, good, whole, room) (ground arith)
    ]

-- At one time, the frames handled do not depend on the offsets.
forward_frames-offset :
    (pid now i j : ℕ) (fs : List Sent) (st : State) (effects : List Effect)
    → forward_frames pid (λ _. now) i fs st effects ≡ forward_frames pid (λ _. now) j fs st effects
unfolding forward_frames
forward_frames-offset pid now i j [] st effects = refl
forward_frames-offset pid now i j (f ∷ fs) st effects =
    forward_frames-offset pid now (i + full_len f) (j + full_len f) fs _ _

forward_frames-append :
    (pid now i : ℕ) (fs gs : List Sent) (st : State) (effects : List Effect)
    → let (st', effects') = forward_frames pid (λ _. now) i fs st effects in
      forward_frames pid (λ _. now) i (fs ++ gs) st effects
      ≡ forward_frames pid (λ _. now) i gs st' effects'
unfolding forward_frames
forward_frames-append pid now i [] gs st effects = refl
forward_frames-append pid now i (f ∷ fs) gs st effects =
    let (st', more) = forward_frame pid now f st in
    forward_frames-append pid now (i + full_len f) fs gs st' (effects ++ more)
    ∙ forward_frames-offset pid now (i + full_len f) i gs _ _

-- The source's buffer is not allocated yet, or has its first size and holds the start of a frame.
abbrev pub Ready : Source → Type 0
Ready src =
    ((src.buffer_size ≡ 0) × (src.buffer ≡ []))
    ⊎ ((src.buffer_size ≡ initial_buffer_size) × Waits src.buffer)

Waits-length : (tail : List ℕ) → Waits tail → length tail ≤ small_limit
Waits-length tail (inl short) = omega arith
Waits-length tail (inr (good, more, small)) = omega arith

pub grow-Ready :
    (alloc : Allocator) (src : Source)
    → alloc initial_buffer_size ≡ true
    → Ready src
    → grow alloc src ≡ some (record src { buffer_size = initial_buffer_size })
unfolding grow
grow-Ready alloc src ok (inl (size, empty)) = rw (size, empty) (rw ok)
grow-Ready alloc src ok (inr (size, w)) =
    let room : ltb (src.buffer_size - length src.buffer) socket_rcv_buffer_size ≡ false =
      ground (arith, Waits-length src.buffer w) in
    rw room (ap (λ n. some (record src { buffer_size = n })) size)

IsSmall-IsSent : (fs : List Sent) → All IsSmall fs → All IsSent fs
IsSmall-IsSent [] all = tt
IsSmall-IsSent (f ∷ fs) all = (all.0.0, IsSmall-IsSent fs all.1)

process-Cut :
    (alloc : Allocator) (now : ℕ) (src : Source) (fs : List Sent) (tail : List ℕ) (st : State)
    (effects : List Effect)
    → All IsSmall fs
    → Waits tail
    → small_limit ≤ src.buffer_size
    → let (st', effects') = forward_frames src.pid (λ _. now) 0 fs st effects in
      process alloc (λ _. now) src (put_frames fs tail) st effects
      ≡ stopped (length (put_frames fs [])) src.buffer_size st' effects'
unfolding process
process-Cut alloc now src fs tail st effects all w fits =
    let more : ℕ = length (put_frames fs tail) - length fs in
    let fuel : suc (length (put_frames fs tail)) ≡ length fs + suc more =
      omega (arith, length-put_frames fs tail) in
    let (st', effects') = forward_frames src.pid (λ _. now) 0 fs st effects in
    rw fuel (
      frames_loop-put_frames fs (suc more) alloc (λ _. now) src.pid src.buffer_size 0 tail st
        effects (IsSmall-IsSent fs all)
      ∙ frames_loop-Waits more alloc (λ _. now) src.pid src.buffer_size _ tail st' effects' w fits
      ∙ ap (λ n. stopped n src.buffer_size st' effects') (omega arith))

All-append_left : (fs gs : List Sent) → All IsSmall (fs ++ gs) → All IsSmall fs × All IsSmall gs
All-append_left [] gs all = (tt, all)
All-append_left (f ∷ fs) gs all = let (a, b) = All-append_left fs gs all.1 in ((all.0, a), b)

put_frames-nil : put_frames [] [] ≡ []
unfolding put_frames
put_frames-nil = refl

-- The stream is used up, and nothing of it is waited for.
put_frames-Waits :
    (fs : List Sent)
    → All IsSmall fs
    → (tail : List ℕ) → tail ≡ put_frames fs []
    → Waits tail
    → fs ≡ []
unfolding put_frames
put_frames-Waits [] all tail e w = refl
put_frames-Waits (f ∷ fs) all tail e w = absurd (go w)
  where
    len : length tail ≡ full_len f + length (put_frames fs [])
    len = ap length e ∙ long_enough f (put_frames fs [])

    declared : be32_at tail 8 ≡ full_len f
    declared = ap (λ b. be32_at b 8) e ∙ (put_frame_fields f (put_frames fs []) all.0.0).0

    go : Waits tail → ⊥
    go (inl short) = omega (arith, len)
    go (inr (good, more, small)) = omega (arith, len, declared)

Ready-Waits : (src : Source) → Ready src → Waits src.buffer
Ready-Waits src (inl (size, empty)) = inl (rw empty (omega arith))
Ready-Waits src (inr (size, w)) = w

-- What is left after `recv` has returned every piece: all frames handled, and an empty buffer.
abbrev pub Delivered : ℕ → ℕ → List Sent → State → List Effect → Read → Type 0
Delivered pid now fs st effects r =
    let (st', effects') = forward_frames pid (λ _. now) 0 fs st effects in
    (r.keep ≡ true) × (r.source.buffer ≡ []) × (r.state ≡ st') × (r.effects ≡ effects')

abbrev recvs : ℕ → List (List ℕ) → List Recv
recvs now = map (λ piece. received piece (λ _. now))

-- One piece: the frames that it completes are handled, and the start of the next is kept.
read_loop-piece :
    (alloc : Allocator) (now : ℕ) (piece : List ℕ) (rs : List Recv) (src : Source) (fs : List Sent)
    (later : List ℕ) (st : State) (effects : List Effect) (c : Cut fs (src.buffer ++ piece) later)
    → alloc initial_buffer_size ≡ true
    → All IsSmall c.first
    → length piece ≤ socket_rcv_buffer_size
    → Ready src
    → let (st', effects') = forward_frames src.pid (λ _. now) 0 c.first st effects in
      read_loop alloc (received piece (λ _. now) ∷ rs) src st effects
      ≡ read_loop alloc rs
          (record src { buffer = c.tail; buffer_size = initial_buffer_size })
          st'
          effects'
unfolding read_loop
read_loop-piece alloc now piece rs src fs later st effects c ok small size ready =
    let src₁ : Source = record src { buffer_size = initial_buffer_size } in
    let filled : filled_buffer src₁ piece ≡ src.buffer ++ piece =
      ap (◌++◌ src.buffer)
        (take_all _ piece (omega (arith, size, Waits-length src.buffer (Ready-Waits src ready)))) in
    let (st', effects') = forward_frames src.pid (λ _. now) 0 c.first st effects in
    let processed : process alloc (λ _. now) src₁ (filled_buffer src₁ piece) st effects
        ≡ stopped (length (put_frames c.first [])) initial_buffer_size st' effects' =
      ap (λ b. process alloc (λ _. now) src₁ b st effects) (filled ∙ c.held)
      ∙ process-Cut alloc now src₁ c.first c.tail st effects small c.waits (omega arith) in
    let left : drop (length (put_frames c.first [])) (filled_buffer src₁ piece) ≡ c.tail =
      ap (drop _) (filled ∙ c.held) ∙ drop-put_frames c.first c.tail in
    rw (grow-Ready alloc src ok ready, read_loop) (rw processed (rw left))

-- However a stream of frames is cut into pieces that `recv` returns, `video_receiver_read_source`
-- keeps the source, handles exactly these frames in their order, and leaves nothing in the buffer,
-- if memory for the first buffer can be had. A frame may have up to 192 KiB, and a piece as many
-- bytes as the socket buffer.
pub read_loop-pieces :
    (alloc : Allocator) (now : ℕ) (pieces : List (List ℕ)) (src : Source) (fs : List Sent)
    (st : State) (effects : List Effect)
    → alloc initial_buffer_size ≡ true
    → All IsSmall fs
    → All (λ piece. length piece ≤ socket_rcv_buffer_size) pieces
    → Ready src
    → src.buffer ++ flatten pieces ≡ put_frames fs []
    → Delivered src.pid now fs st effects
        (read_loop alloc (map (λ piece. received piece (λ _. now)) pieces) src st effects)
unfolding read_loop flatten forward_frames
read_loop-pieces alloc now [] src fs st effects ok small sizes ready e =
    let held : src.buffer ≡ put_frames fs [] = sym (append-nil src.buffer) ∙ e in
    let none_left : fs ≡ [] = put_frames-Waits fs small src.buffer held (Ready-Waits src ready) in
    let empty : src.buffer ≡ [] = held ∙ ap (λ l. put_frames l []) none_left ∙ put_frames-nil in
    rw (grow-Ready alloc src ok ready, none_left, read_loop) (refl, empty, refl, refl)
read_loop-pieces alloc now (piece ∷ pieces) src fs st effects ok small sizes ready e =
    let c =
      cut fs (src.buffer ++ piece) (flatten pieces) small
        (append_assoc src.buffer piece (flatten pieces) ∙ e) in
    let halves = All-append_left c.first c.others (subst (All IsSmall) c.whole small) in
    let (st', effects') = forward_frames src.pid (λ _. now) 0 c.first st effects in
    let one =
      read_loop-piece alloc now piece (recvs now pieces) src fs (flatten pieces) st effects c ok
        halves.0 sizes.0 ready in
    let all : forward_frames src.pid (λ _. now) 0 fs st effects
        ≡ forward_frames src.pid (λ _. now) 0 c.others st' effects' =
      ap (λ l. forward_frames src.pid (λ _. now) 0 l st effects) c.whole
      ∙ forward_frames-append src.pid now 0 c.first c.others st effects in
    let (keep, empty, state, sent) =
      read_loop-pieces alloc now pieces
        (record src { buffer = c.tail; buffer_size = initial_buffer_size }) c.others st' effects' ok
        halves.1 sizes.1 (inr (refl, c.waits)) c.ahead in
    (
      ap (λ r. r.keep) one ∙ keep,
      ap (λ r. r.source.buffer) one ∙ empty,
      ap (λ r. r.state) one ∙ state ∙ sym (ap (λ p. p.0) all),
      ap (λ r. r.effects) one ∙ sent ∙ sym (ap (λ p. p.1) all),
    )
