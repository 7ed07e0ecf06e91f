-- ===== src/ProcessorV2/Gesture.antt =====
-- message_processor_v2.c: `message_processor_v2_handle_touch`. Touches drive a pointer in the active
-- source, and three fingers switch to the source before it.
pub mod Once
use qdplay.Prelude.{
  ℕ, ◌+◌, ◌^◌, Bool, true, false, ◌&&◌, Option, none, some, List, [], ◌∷◌, ◌++◌, leb, ◌==◌,
  if◌then◌else◌,
}
use qdplay.Float32.{is_coordinate, to_int16}
use qdplay.Touch.{Finger, Touches, action_down, action_up, action_move, parse}

-- `messaging_service_send_input_event` with an action and a position in 16 bits, and
-- `video_receiver_switch_to_previous`.
pub data Action : Type 0 where
  send_input_event : ℕ → ℕ → ℕ → Action
  switch_source : Action

-- MESSAGING_SERVICE_INPUT_EVENT_DOWN, _UP and _MOVE
abbrev pub input_event_down : ℕ
input_event_down = 0

abbrev pub input_event_up : ℕ
input_event_up = 1

abbrev pub input_event_move : ℕ
input_event_move = 2

abbrev pub switch_gesture_fingers : ℕ
switch_gesture_fingers = 3

-- How many fingers are not lifted.
unfoldable pub pressed_fingers : List Finger → ℕ
pressed_fingers [] = 0
pressed_fingers (f ∷ fs) =
    let rest = pressed_fingers fs in if f.finger_action == action_up then rest else 1 + rest

-- The first finger with id 0.
unfoldable pub finger_zero : List Finger → Option Finger
finger_zero [] = none
finger_zero (f ∷ fs) = let rest = finger_zero fs in if f.finger_id == 0 then some f else rest

-- `fingers[0]`, if no finger has id 0. There is a finger: the parser refuses a payload without one.
abbrev pub first_touch : List Finger → Option Finger
first_touch [] = none
first_touch (f ∷ fs) = elim (finger_zero (f ∷ fs)) [ none ↦ some f | some g ↦ some g ]

-- The switch over the action; `none` is its default.
abbrev pub input_action : ℕ → Option ℕ
input_action a =
    if a == action_down
    then some input_event_down
    else if a == action_up
    then some input_event_up
    else if a == action_move
    then some input_event_move
    else none

-- The two casts and the event. `none` where C leaves a cast undefined.
abbrev pub input_event : ℕ → Finger → Option Action
input_event action f = elim (to_int16 f.x) [
  | none ↦ none
  | some x ↦ elim (to_int16 f.y) [ none ↦ none | some y ↦ some (send_input_event action x y) ]
]

-- The gesture fires: the touch is released in the source that has the screen, and it is switched.
abbrev pub fire : List Finger → Option (Bool × List Action)
fire [] = some (true, [])
fire (f ∷ fs) = elim (input_event input_event_up f) [
  | none ↦ none
  | some e ↦ some (true, e ∷ switch_source ∷ [])
]

-- The primary finger drives the pointer.
abbrev pub point : List Finger → Option (Bool × List Action)
point fs = elim (first_touch fs) [
  | none ↦ some (false, [])
  | some f ↦ elim (input_action f.finger_action) [
    | none ↦ some (false, [])
    | some a ↦ elim (is_coordinate f.x && is_coordinate f.y) [
      | false ↦ some (false, [])
      | true ↦ elim (input_event a f) [ none ↦ none | some e ↦ some (false, e ∷ []) ]
    ]
  ]
]

-- With `message_processor_v2_gesture_fired` before and after, and the calls that are made. The
-- answer is always TRUE; `none` where C leaves the behaviour undefined.
unfoldable pub handle_fingers : Bool → List Finger → Option (Bool × List Action)
handle_fingers fired fs =
    let pressed = pressed_fingers fs in
    if leb switch_gesture_fingers pressed
    then (if fired then some (true, []) else fire fs)
    else if fired
    then (if pressed == 0 then some (false, []) else some (true, []))
    else point fs

-- `message_processor_v2_handle_touch`. A malformed payload is skipped.
unfoldable pub handle_touch : Bool → List ℕ → Option (Bool × List Action)
handle_touch fired payload = elim (parse payload) [
  | none ↦ some (fired, [])
  | some t ↦ handle_fingers fired t.fingers
]
