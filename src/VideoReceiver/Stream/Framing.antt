-- ===== src/VideoReceiver/Stream/Framing.antt =====
-- The frames that a source sends are the frames that are handled.
use qdplay.Prelude.{
  ℕ, suc, ◌+◌, ◌-◌, ◌≡◌, refl, ◌∙◌, true, false, ◌&&◌, some, List, [], ◌∷◌, ◌++◌, length, drop, ltb,
  if◌then◌else◌, arith, All, take-append_length, drop-append_length, drop-add, length-append,
  ==_iff,
}
use qdplay.Words.{be32_at, be32_bytes}
use qdplay.VideoReceiver.{State, VideoParams, Effect, write_h264, frame_header_size}
use qdplay.VideoReceiver.Frames.{handle_frame, pass_gate, payload, frame_params}
use qdplay.VideoSender.{Sent, IsSent, full_len, put_frame}
use qdplay.VideoReceiver.Stream.{Allocator, frames_loop, is_good_header}

unfoldable pub put_frames : List Sent → List ℕ → List ℕ
put_frames [] rest = rest
put_frames (f ∷ fs) rest = put_frame f (put_frames fs rest)

-- What one frame of the source does, and what the frames do in turn from `offset` on.
abbrev pub forward_frame : ℕ → ℕ → Sent → State → State × List Effect
forward_frame pid now f st =
    let (st', forward) = pass_gate pid now f.unit st in
    (st', if forward && ltb 0 (length f.unit) then write_h264 f.params f.unit ∷ [] else [])

unfoldable pub forward_frames :
    ℕ → (ℕ → ℕ) → ℕ → List Sent → State → List Effect → State × List Effect
forward_frames pid clock offset [] st effects = (st, effects)
forward_frames pid clock offset (f ∷ fs) st effects =
    let (st', more) = forward_frame pid (clock offset) f st in
    forward_frames pid clock (offset + full_len f) fs st' (effects ++ more)

length_back : (n : ℕ) → 32 + n - 32 ≡ n
length_back n = omega arith

pub put_frame_fields :
    (f : Sent) (rest : List ℕ)
    → IsSent f
    → (be32_at (put_frame f rest) 8 ≡ full_len f)
      × (be32_at (put_frame f rest) 28 ≡ length f.unit)
      × (frame_params (put_frame f rest) ≡ f.params)
      × (payload (put_frame f rest) (full_len f) ≡ f.unit)
unfolding put_frame
put_frame_fields f rest v = (
  be32_bytes (full_len f) (omega (arith, v.fits)),
  be32_bytes (length f.unit) (omega (arith, v.fits)),
  params_eq (be32_bytes f.params.width v.width) (be32_bytes f.params.height v.height)
      (be32_bytes f.params.frame_rate v.frame_rate),
  rw length_back (take-append_length f.unit rest),
)
  where
    params_eq :
        {a b c : ℕ}
        → a ≡ f.params.width
        → b ≡ f.params.height
        → c ≡ f.params.frame_rate
        → ◌≡◌ {A = VideoParams} (record { width = a; height = b; frame_rate = c }) f.params
    params_eq p q r = λ i. record { width = p i; height = q i; frame_rate = r i }

pub put_frame_good :
    (f : Sent) (rest : List ℕ) → IsSent f → is_good_header (put_frame f rest) ≡ true
unfolding put_frame
put_frame_good f rest v = ground (arith, v.fits, be32_bytes (32 + length f.unit))

pub long_enough : (f : Sent) (rest : List ℕ) → length (put_frame f rest) ≡ full_len f + length rest
unfolding put_frame
long_enough f rest = omega (arith, length-append f.unit rest)

drop-put_frame : (f : Sent) (rest : List ℕ) → drop (full_len f) (put_frame f rest) ≡ rest
unfolding put_frame
drop-put_frame f rest =
    rw (drop-add frame_header_size (length f.unit) (put_frame f rest))
      (drop-append_length f.unit rest)

handle_frame-put_frame :
    (pid now : ℕ) (f : Sent) (rest : List ℕ) (st : State)
    → IsSent f
    → handle_frame pid (put_frame f rest) (full_len f) now st ≡ some (forward_frame pid now f st)
unfolding handle_frame
handle_frame-put_frame pid now f rest st v =
    let (_, size, params, unit) = put_frame_fields f rest v in
    rw (unit, params, size, length_back) (rw ((==_iff _ _).1 refl))

frames_loop_step :
    (f : Sent) (fuel : ℕ) (alloc : Allocator) (clock : ℕ → ℕ) (pid size offset : ℕ) (rest : List ℕ)
    (st : State) (effects : List Effect)
    → IsSent f
    → let (st', more) = forward_frame pid (clock offset) f st in
      frames_loop (suc fuel) alloc clock pid size offset (put_frame f rest) st effects
      ≡ frames_loop fuel alloc clock pid size (offset + full_len f) rest st' (effects ++ more)
unfolding frames_loop
frames_loop_step f fuel alloc clock pid size offset rest st effects v =
    let len : length (put_frame f rest) ≡ full_len f + length rest = long_enough f rest in
    let header : ltb (length (put_frame f rest)) frame_header_size ≡ false = ground (arith, len) in
    let whole : ltb (length (put_frame f rest)) (full_len f) ≡ false = ground (arith, len) in
    rw (
      header,
      put_frame_good f rest v,
      (put_frame_fields f rest v).0,
      whole,
      handle_frame-put_frame pid (clock offset) f rest st v,
      (put_frame_fields f rest v).0,
      drop-put_frame f rest,
    )

-- The frames at the front of the buffer are handled in turn.
pub frames_loop-put_frames :
    (fs : List Sent) (fuel : ℕ) (alloc : Allocator) (clock : ℕ → ℕ) (pid size offset : ℕ)
    (rest : List ℕ) (st : State) (effects : List Effect)
    → All IsSent fs
    → let (st', effects') = forward_frames pid clock offset fs st effects in
      frames_loop (length fs + fuel) alloc clock pid size offset (put_frames fs rest) st effects
      ≡ frames_loop fuel alloc clock pid size (offset + length (put_frames fs [])) rest st' effects'
unfolding put_frames forward_frames
frames_loop-put_frames [] fuel alloc clock pid size offset rest st effects all =
    let e : 0 + fuel ≡ fuel = omega arith in let o : offset + 0 ≡ offset = omega arith in rw (e, o)
frames_loop-put_frames (f ∷ fs) fuel alloc clock pid size offset rest st effects all =
    let e : suc (length fs) + fuel ≡ suc (length fs + fuel) = omega arith in
    let o : offset + length (put_frame f (put_frames fs []))
        ≡ offset + full_len f + length (put_frames fs []) =
      omega (arith, long_enough f (put_frames fs [])) in
    let (st', more) = forward_frame pid (clock offset) f st in
    rw (e, o)
      (frames_loop_step f (length fs + fuel) alloc clock pid size offset (put_frames fs rest) st
          effects all.0
        ∙ frames_loop-put_frames fs fuel alloc clock pid size (offset + full_len f) rest st'
            (effects ++ more) all.1)
