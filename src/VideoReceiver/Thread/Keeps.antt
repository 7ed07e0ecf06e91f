-- ===== src/VideoReceiver/Thread/Keeps.antt =====
-- Reading a source changes its buffer and the wait for a key frame, and neither the pids, the
-- priorities nor the active source.
use qdplay.Prelude.{
  ℕ, zero, suc, ◌+◌, ◌-◌, ◌*◌, ◌≡◌, refl, ◌∙◌, ◌⊎◌, inl, inr, false, Option, none, some, List, [],
  ◌∷◌, ◌++◌, length, ltb, ◌==◌, if◌then◌else◌, arith, Bool-cases, drop,
}
use qdplay.Posix.{Errno}
use qdplay.Words.{be32_at}
use qdplay.VideoReceiver.{
  Source, State, Effect, frame_header_size, max_frame_size, socket_rcv_buffer_size,
  initial_buffer_size,
}
use qdplay.VideoReceiver.Frames.{handle_frame}
use qdplay.VideoReceiver.Sources.{}
use qdplay.VideoReceiver.Sources.Pick.{}
use qdplay.VideoReceiver.Sources.Inv.{}
use qdplay.VideoReceiver.Stream.{
  Allocator, Frames, dropped, stopped, no_fuel, frames_loop, make_room, process, Recv, received,
  closed, recv_failed, Read, read_loop, grow, is_good_header, filled_buffer, ends,
}
use qdplay.VideoReceiver.Thread.{}

-- The same sources, next priority and active pid.
abbrev pub Same : State → State → Type 0
Same st st' =
    (st'.sources ≡ st.sources)
    × (st'.next_priority ≡ st.next_priority)
    × (st'.active_pid ≡ st.active_pid)

Same-trans : (a b c : State) → Same a b → Same b c → Same a c
Same-trans a b c p q = (q.0 ∙ p.0, q.1 ∙ p.1, q.2 ∙ p.2)

abbrev pub SameFrames : State → Frames → Type 0
SameFrames st (dropped st' es) = Same st st'
SameFrames st (stopped o n st' es) = Same st st'
SameFrames st no_fuel = Unit

SameFrames-trans : (a b : State) (r : Frames) → Same a b → SameFrames b r → SameFrames a r
SameFrames-trans a b (dropped st' es) p q = Same-trans a b st' p q
SameFrames-trans a b (stopped o n st' es) p q = Same-trans a b st' p q
SameFrames-trans a b no_fuel p q = tt

abbrev pub SameHandled : State → Option (State × List Effect) → Type 0
SameHandled st none = Unit
SameHandled st (some (st', es)) = Same st st'

handle_frame-Same :
    (pid : ℕ) (frame : List ℕ) (len now : ℕ) (st : State)
    → SameHandled st (handle_frame pid frame len now st)
unfolding handle_frame
handle_frame-Same pid frame len now st = ground arith

make_room-Same :
    (alloc : Allocator) (offset len size : ℕ) (st : State) (es : List Effect)
    → SameFrames st (make_room alloc offset len size st es)
make_room-Same alloc offset len size st es = ground arith

frames_loop-Same :
    (fuel : ℕ) (alloc : Allocator) (clock : ℕ → ℕ) (pid size offset : ℕ) (rest : List ℕ)
    (st : State) (es : List Effect)
    → SameFrames st (frames_loop fuel alloc clock pid size offset rest st es)
unfolding frames_loop
frames_loop-Same zero alloc clock pid size offset rest st es = tt
frames_loop-Same (suc fuel) alloc clock pid size offset rest st es =
    elim (Bool-cases (ltb (length rest) frame_header_size)) [
      | inl e ↦ rw e (refl, refl, refl)
      | inr e ↦ elim (Bool-cases (is_good_header rest)) [
        | inr g ↦ rw (e, g) (refl, refl, refl)
        | inl g ↦ elim (Bool-cases (ltb (length rest) (be32_at rest 8))) [
          | inl w ↦ rw (e, g, w) (make_room-Same alloc offset (be32_at rest 8) size st es)
          | inr w ↦
              rw (e, g, w)
                (go (handle_frame pid rest (be32_at rest 8) (clock offset) st)
                  (handle_frame-Same pid rest (be32_at rest 8) (clock offset) st)
                  (λ st' es'. frames_loop-Same fuel alloc clock pid size _ _ st' es'))
        ]
      ]
    ]
  where
    go :
        (h : Option (State × List Effect))
        → SameHandled st h
        → ((st' : State) (es' : List Effect)
            → SameFrames st' (
                frames_loop fuel alloc clock pid size
                  (offset + be32_at rest 8)
                  (drop (be32_at rest 8) rest)
                  st'
                  es'))
        → SameFrames st (elim h [
          | none ↦ dropped st es
          | some (st', more) ↦
              frames_loop fuel alloc clock pid size
                (offset + be32_at rest 8)
                (drop (be32_at rest 8) rest)
                st'
                (es ++ more)
        ])
    go none h ih = (refl, refl, refl)
    go (some (st', more)) h ih = SameFrames-trans st st' _ h (ih st' (es ++ more))

-- The same descriptor, pid and priority.
abbrev pub SameSource : Source → Source → Type 0
SameSource s t = (t.fd ≡ s.fd) × (t.pid ≡ s.pid) × (t.priority ≡ s.priority)

abbrev pub SameRead : Source → State → Read → Type 0
SameRead src st r = Same st r.state × SameSource src r.source

SameRead-trans :
    (s t : Source) (a b : State) (r : Read)
    → SameSource s t
    → Same a b
    → SameRead t b r
    → SameRead s a r
SameRead-trans s t a b r p q h =
    (Same-trans a b r.state q h.0, (h.1.0 ∙ p.0, h.1.1 ∙ p.1, h.1.2 ∙ p.2))

-- A larger buffer, if there is one.
grow-SameSource :
    (alloc : Allocator) (src : Source)
    → (grow alloc src ≡ none)
      ⊎ ((src' : Source) × (grow alloc src ≡ some src') × SameSource src src')
unfolding grow
grow-SameSource alloc src =
    elim (Bool-cases (ltb (src.buffer_size - length src.buffer) socket_rcv_buffer_size)) [
      | inr e ↦ inr (src, rw e, (refl, refl, refl))
      | inl e ↦
          elim (Bool-cases (
            ltb (max_frame_size + socket_rcv_buffer_size * 2)
              (if src.buffer_size == 0 then initial_buffer_size else src.buffer_size * 2))) [
                | inl f ↦ inl (rw (e, f))
                | inr f ↦
                    elim (Bool-cases (
                      alloc (
                        if src.buffer_size == 0
                        then initial_buffer_size
                        else src.buffer_size * 2))) [
                          | inl g ↦ inr (
                            record src {
                              buffer_size =
                                  if src.buffer_size == 0
                                  then initial_buffer_size
                                  else src.buffer_size * 2;
                            },
                            rw (e, f, g),
                            (refl, refl, refl),
                          )
                          | inr g ↦ inl (rw (e, f, g))
                        ]
              ]
    ]

process-Same :
    (alloc : Allocator) (clock : ℕ → ℕ) (src : Source) (buffer : List ℕ) (st : State)
    (es : List Effect)
    → SameFrames st (process alloc clock src buffer st es)
unfolding process
process-Same alloc clock src buffer st es =
    frames_loop-Same (suc (length buffer)) alloc clock src.pid src.buffer_size 0 buffer st es

pub read_loop-Same :
    (alloc : Allocator) (rs : List Recv) (src : Source) (st : State) (es : List Effect)
    → SameRead src st (read_loop alloc rs src st es)
unfolding read_loop
read_loop-Same alloc [] src st es = elim (grow-SameSource alloc src) [
  | inl e ↦ rw (e, read_loop) ((refl, refl, refl), (refl, refl, refl))
  | inr (src', e, same) ↦ rw (e, read_loop) ((refl, refl, refl), same)
]
read_loop-Same alloc (closed ∷ rs) src st es = ((refl, refl, refl), (refl, refl, refl))
read_loop-Same alloc (recv_failed Errno.eintr ∷ rs) src st es = elim (grow-SameSource alloc src) [
  | inl e ↦ rw (e, read_loop) ((refl, refl, refl), (refl, refl, refl))
  | inr (src', e, same) ↦
      rw (e, read_loop)
        (SameRead-trans src src' st st (read_loop alloc rs src' st es) same (refl, refl, refl)
          (read_loop-Same alloc rs src' st es))
]
read_loop-Same alloc (recv_failed Errno.eagain ∷ rs) src st es = elim (grow-SameSource alloc src) [
  | inl e ↦ rw (e, read_loop) ((refl, refl, refl), (refl, refl, refl))
  | inr (src', e, same) ↦ rw (e, read_loop) ((refl, refl, refl), same)
]
read_loop-Same alloc (recv_failed e ∷ rs) src st es = ((refl, refl, refl), (refl, refl, refl))
read_loop-Same alloc (received bs clock ∷ rs) src st es = elim (grow-SameSource alloc src) [
  | inl e ↦ rw (e, read_loop) ((refl, refl, refl), (refl, refl, refl))
  | inr (src', e, same) ↦
      rw (e, read_loop)
        (go src' same (process alloc clock src' (filled_buffer src' bs) st es)
          (process-Same alloc clock src' (filled_buffer src' bs) st es)
          λ s st' es'. read_loop-Same alloc rs s st' es')
]
  where
    go :
        (src' : Source)
        → SameSource src src'
        → (r : Frames) → SameFrames st r
        → ((s : Source) (st' : State) (es' : List Effect)
            → SameRead s st' (read_loop alloc rs s st' es'))
        → SameRead src st (elim r [
          | dropped st' effects' ↦ ends false src' st' effects'
          | stopped offset size st' effects' ↦
              read_loop alloc rs
                (record src' { buffer = drop offset (filled_buffer src' bs); buffer_size = size })
                st'
                effects'
          | no_fuel ↦ ends false src' st es
        ])
    go src' same (dropped st' es') h ih = (h, same)
    go src' same (stopped o n st' es') h ih =
        let s : Source = record src' { buffer = drop o (filled_buffer src' bs); buffer_size = n } in
        SameRead-trans src s st st' (read_loop alloc rs s st' es') same h (ih s st' es')
    go src' same no_fuel h ih = ((refl, refl, refl), same)
