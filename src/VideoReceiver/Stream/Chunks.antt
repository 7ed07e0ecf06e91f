-- ===== src/VideoReceiver/Stream/Chunks.antt =====
-- However the stream of a source is cut into the pieces that `recv` returns, the same frames are
-- handled.
use qdplay.Prelude.{
  ℕ, ◌+◌, ◌≡◌, ◌≤◌, ◌<◌, refl, sym, ◌∙◌, ap, ◌⊎◌, inl, inr, true, List, [], ◌∷◌, ◌++◌, length, drop,
  ltb, arith, Bool-cases, All, drop-append_length, get_or-append, tests,
}
use mathlib.Core.List.{append_assoc}
use qdplay.Words.{be32_at}
use qdplay.VideoReceiver.{frame_header_size}
use qdplay.VideoSender.{Sent, IsSent, full_len, put_frame}
use qdplay.VideoReceiver.Stream.{is_good_header}
use qdplay.VideoReceiver.Stream.Framing.{put_frames, put_frame_good, put_frame_fields, long_enough}

-- The first allocation of 256 KiB holds three times what one `recv` asks for, besides a frame of
-- this length.
abbrev pub small_limit : ℕ
small_limit = 196608

abbrev pub IsSmall : Sent → Type 0
IsSmall f = IsSent f × (full_len f ≤ small_limit)

-- The start of a frame that is not complete.
abbrev pub Waits : List ℕ → Type 0
Waits tail =
    (length tail < frame_header_size)
    ⊎ ((is_good_header tail ≡ true)
        × (length tail < be32_at tail 8)
        × (be32_at tail 8 ≤ small_limit))

be32_at-append : (xs ys : List ℕ) (i : ℕ) → i + 4 ≤ length xs → be32_at (xs ++ ys) i ≡ be32_at xs i
be32_at-append xs ys i h = rw (
  get_or-append xs ys i 0 (omega arith),
  get_or-append xs ys (i + 1) 0 (omega arith),
  get_or-append xs ys (i + 2) 0 (omega arith),
  get_or-append xs ys (i + 3) 0 (omega arith),
)

put_frame-append : (f : Sent) (xs ys : List ℕ) → put_frame f xs ++ ys ≡ put_frame f (xs ++ ys)
unfolding put_frame
put_frame-append f xs ys = rw (append_assoc f.unit xs ys)

put_frames-append :
    (fs : List Sent) (xs ys : List ℕ) → put_frames fs xs ++ ys ≡ put_frames fs (xs ++ ys)
unfolding put_frames
put_frames-append [] xs ys = refl
put_frames-append (f ∷ fs) xs ys =
    put_frame-append f (put_frames fs xs) ys ∙ ap (put_frame f) (put_frames-append fs xs ys)

pub drop-put_frames :
    (fs : List Sent) (tail : List ℕ) → drop (length (put_frames fs [])) (put_frames fs tail) ≡ tail
drop-put_frames fs tail =
    rw (sym (put_frames-append fs [] tail)) (drop-append_length (put_frames fs []) tail)

-- A buffer that begins the stream of some frames holds the first of them and the start of another.
pub record Cut (fs : List Sent) (buffer later : List ℕ) : Type 0 where
  pub first : List Sent
  pub others : List Sent
  pub tail : List ℕ
  pub whole : fs ≡ first ++ others
  pub held : buffer ≡ put_frames first tail
  pub ahead : tail ++ later ≡ put_frames others []
  pub waits : Waits tail

-- A piece of a frame's start.
Waits-prefix :
    (f : Sent) (tail later rest : List ℕ)
    → IsSmall f
    → tail ++ later ≡ put_frame f rest
    → length tail < full_len f
    → Waits tail
Waits-prefix f tail later rest small e h = elim (Bool-cases (ltb (length tail) frame_header_size)) [
  | inl short ↦ inl (omega (tests))
  | inr long ↦
      let same : (i : ℕ) → i ≤ 28 → be32_at tail i ≡ be32_at (put_frame f rest) i =
        λ i le. sym (be32_at-append tail later i (ground arith)) ∙ ap (λ b. be32_at b i) e in
      let declared : be32_at tail 8 ≡ full_len f =
        same 8 (omega arith) ∙ (put_frame_fields f rest small.0).0 in
      let good : is_good_header tail ≡ true =
        rw (same 0 (omega arith), same 4 (omega arith), same 8 (omega arith))
          (put_frame_good f rest small.0) in
      inr (good, rw declared h, rw declared small.1)
]

append_split :
    (xs ys us vs : List ℕ)
    → xs ++ ys ≡ us ++ vs
    → length us ≤ length xs
    → (rest : List ℕ) × (xs ≡ us ++ rest) × (rest ++ ys ≡ vs)
append_split xs ys [] vs e h = (xs, refl, e)
append_split [] ys (u ∷ us) vs e h = absurd (omega arith)
append_split (x ∷ xs) ys (u ∷ us) vs e h =
    let (rest, p, q) = append_split xs ys us vs (cc) (omega arith) in (rest, cc, q)

-- The cut of a stream of complete frames after some of its bytes.
pub cut :
    (fs : List Sent) (buffer later : List ℕ)
    → All IsSmall fs
    → buffer ++ later ≡ put_frames fs []
    → Cut fs buffer later
unfolding put_frames
cut [] [] later all e = record {
  first = [];
  others = [];
  tail = [];
  whole = refl;
  held = refl;
  ahead = e;
  waits = inl (omega arith);
}
cut [] (x ∷ buffer) later all e = cc
cut (f ∷ fs) buffer later all e = elim (Bool-cases (ltb (length buffer) (full_len f))) [
  | inl short ↦ record {
    first = [];
    others = f ∷ fs;
    tail = buffer;
    whole = refl;
    held = refl;
    ahead = e;
    waits = Waits-prefix f buffer later (put_frames fs []) all.0 e (omega (tests));
  }
  | inr long ↦
      let (rest, p, q) =
        append_split buffer later (put_frame f []) (put_frames fs [])
          (e ∙ sym (put_frame-append f [] (put_frames fs []))) (ground (arith, long_enough f [])) in
      let c = cut fs rest later all.1 q in
      record {
        first = f ∷ c.first;
        others = c.others;
        tail = c.tail;
        whole = ap (◌∷◌ f) c.whole;
        held = p ∙ put_frame-append f [] rest ∙ ap (put_frame f) c.held;
        ahead = c.ahead;
        waits = c.waits;
      }
]
