-- ===== src/ProcessorV2/Tests.antt =====
-- The theorems about touches and the gesture applied to concrete payloads.
use qdplay.Prelude.{ℕ, ◌≤◌, ◌≡◌, refl, true, false, some, [], ◌∷◌, ◌++◌, arith, length, List}
use qdplay.Float32.{to_int16}
use qdplay.Touch.{Finger, Touches, parse, read_fingers}
use qdplay.Touch.RoundTrip.{IsTouches, put_touches, put_fingers, parse-put_touches}
use qdplay.Accessory.{Session}
use qdplay.Accessory.Read.{Reading, arrived}
use qdplay.Accessory.Read.Lossless.{ahead, bytes_of}
use qdplay.ProcessorV2.Message.{split_message, read_message}
use qdplay.ProcessorV2.Message.Whole.{read_message-split_message}
use qdplay.ProcessorV2.Gesture.{
  send_input_event, switch_source, input_event_up, pressed_fingers, handle_touch,
}
use qdplay.ProcessorV2.Gesture.Once.{
  handle_all, fires, is_release, Points, handle_all-gesture, handle_touch-Points,
}

-- 100.0f and 200.0f
abbrev finger : ℕ → ℕ → Finger
finger id action = record { finger_id = id; finger_action = action; x = 0x42C80000; y = 0x43480000 }

abbrev three_fingers : Touches
three_fingers = record { action_id = 1; fingers = finger 0 1 ∷ finger 1 1 ∷ finger 2 3 ∷ [] }

abbrev one_finger : Touches
one_finger = record { action_id = 2; fingers = finger 0 3 ∷ finger 1 2 ∷ [] }

abbrev no_finger : Touches
no_finger = record { action_id = 3; fingers = finger 0 2 ∷ [] }

three_fingers-IsTouches : IsTouches three_fingers
three_fingers-IsTouches = record {
  action_id = omega arith;
  fingers = (omega arith, (omega arith, (omega arith, tt)));
  some_finger = omega arith;
  few_fingers = omega arith;
}

parse-put_touches_example : parse (put_touches three_fingers (0 ∷ 0 ∷ [])) ≡ some three_fingers
parse-put_touches_example = parse-put_touches three_fingers (0 ∷ 0 ∷ []) three_fingers-IsTouches

one_left : is_release (put_touches one_finger []) ≡ false
unfolding parse put_touches put_fingers read_fingers pressed_fingers
one_left = refl

all_left : is_release (put_touches no_finger []) ≡ true
unfolding parse put_touches put_fingers read_fingers pressed_fingers
all_left = refl

three_press : 3 ≤ pressed_fingers three_fingers.fingers
unfolding pressed_fingers
three_press = omega arith

at_100 : to_int16 0x42C80000 ≡ some 100
unfolding to_int16
at_100 = refl

at_200 : to_int16 0x43480000 ≡ some 200
unfolding to_int16
at_200 = refl

handle_all-gesture_example :
    handle_all false (
      put_touches three_fingers [] ∷ (put_touches one_finger [] ∷ [])
      ++ (put_touches no_finger [] ∷ []))
    ≡ some (false, send_input_event input_event_up 100 200 ∷ switch_source ∷ [])
handle_all-gesture_example =
    handle_all-gesture (put_touches three_fingers []) three_fingers (finger 0 1)
      (finger 1 1 ∷ finger 2 3 ∷ []) 100 200 (put_touches one_finger [] ∷ [])
      (put_touches no_finger []) (parse-put_touches three_fingers [] three_fingers-IsTouches) refl
      three_press at_100 at_200 (one_left, tt) all_left

one_fires_not : fires false (put_touches one_finger []) ≡ false
unfolding parse put_touches put_fingers read_fingers pressed_fingers
one_fires_not = refl

handle_touch-Points_example : Points (handle_touch false (put_touches one_finger []))
handle_touch-Points_example = handle_touch-Points false (put_touches one_finger []) one_fires_not

abbrev session : Session
session = record {
  has_fd = true;
  stopping = false;
  link_failed = false;
  has_processor = true;
  bounce = [];
  last_read_ts = 0;
  last_write_ts = 0;
  send_buffer_size = 0;
}

-- A touch message of 18 bytes: the header is there, and its two bytes of payload arrive.
abbrev touch_header : List ℕ
touch_header = b'5' ∷ b'A' ∷ b'5' ∷ b'A' ∷ 0 ∷ 0 ∷ 0 ∷ 18 ∷ 0 ∷ 0 ∷ 2 ∷ 1 ∷ 0 ∷ 0 ∷ 0 ∷ 0 ∷ []

abbrev touch_rest : List Reading
touch_rest = arrived (7 ∷ 8 ∷ 0 ∷ []) 10 ∷ []

touch_enough : 18 ≤ length (touch_header ++ ahead session touch_rest)
unfolding bytes_of
touch_enough = omega arith

read_message-split_message_example :
    (read_message (λ size. true) touch_header 512 touch_rest session).0
    ≡ split_message (touch_header ++ ahead session touch_rest)
read_message-split_message_example =
    read_message-split_message (λ size. true) touch_header 512 touch_rest session refl (omega arith)
      (omega arith) refl refl (refl, refl) ((omega arith, omega arith), tt) touch_enough
