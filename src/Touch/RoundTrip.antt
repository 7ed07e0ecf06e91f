-- ===== src/Touch/RoundTrip.antt =====
-- The payload of touches, and that the parser takes it back.
use qdplay.Prelude.{
  ℕ, ◌+◌, ◌*◌, ◌^◌, ◌≤◌, ◌<◌, ◌≡◌, refl, false, ◌||◌, some, List, [], ◌∷◌, length, All, ltb, ◌==◌,
  arith,
}
use qdplay.Words.{put_be32, be32_bytes}
use qdplay.Touch.{Finger, Touches, max_fingers, read_fingers, parse}

-- The fields have their widths.
pub record IsFinger (f : Finger) : Type 0 where
  pub finger_id : f.finger_id < 256
  pub finger_action : f.finger_action < 256
  pub x : f.x < 2 ^ 32
  pub y : f.y < 2 ^ 32

-- Between one and ten fingers.
pub record IsTouches (t : Touches) : Type 0 where
  pub action_id : t.action_id < 2 ^ 32
  pub fingers : All IsFinger t.fingers
  pub some_finger : 1 ≤ length t.fingers
  pub few_fingers : length t.fingers ≤ max_fingers

unfoldable pub put_fingers : List Finger → List ℕ → List ℕ
put_fingers [] rest = rest
put_fingers (f ∷ fs) rest =
    f.finger_id ∷ f.finger_action ∷ put_be32 f.x (put_be32 f.y (put_fingers fs rest))

-- The header with the count of the fingers in a byte, the fingers, and what follows.
unfoldable pub put_touches : Touches → List ℕ → List ℕ
put_touches t rest = put_be32 t.action_id (length t.fingers ∷ put_fingers t.fingers rest)

length-put_fingers :
    (fs : List Finger) (rest : List ℕ) → length (put_fingers fs rest) ≡ length fs * 10 + length rest
unfolding put_fingers
length-put_fingers [] rest = omega arith
length-put_fingers (f ∷ fs) rest = omega (arith, length-put_fingers fs rest)

read_fingers-put_fingers :
    (fs : List Finger) (rest : List ℕ)
    → All IsFinger fs
    → read_fingers (length fs) (put_fingers fs rest) ≡ fs
unfolding read_fingers put_fingers
read_fingers-put_fingers [] rest all = refl
read_fingers-put_fingers (f ∷ fs) rest all =
    rw (be32_bytes f.x all.0.x, be32_bytes f.y all.0.y, read_fingers-put_fingers fs rest all.1)

-- Touches of one to ten fingers, whose fields have their widths, are parsed from their payload,
-- whatever padding follows it.
pub parse-put_touches :
    (t : Touches) (padding : List ℕ) → IsTouches t → parse (put_touches t padding) ≡ some t
unfolding parse put_touches
parse-put_touches t padding v =
    let len : length (put_fingers t.fingers padding) ≡ length t.fingers * 10 + length padding =
      length-put_fingers t.fingers padding in
    let one = v.some_finger in
    let ten = v.few_fingers in
    let size = length (put_touches t padding) in
    let long : ltb size 5 ≡ false = ground arith in
    let good : (length t.fingers == 0
          || ltb max_fingers (length t.fingers)
          || ltb size (5 + length t.fingers * 10))
        ≡ false =
      ground arith in
    rw
      (
        long,
        good,
        be32_bytes t.action_id v.action_id,
        read_fingers-put_fingers t.fingers padding v.fingers,
      )
      refl
