-- ===== src/ProcessorV2/Gesture/Once.antt =====
-- A gesture switches the source once, and nothing else that is touched does.
use qdplay.Prelude.{
  ℕ, ◌≤◌, ◌<◌, ◌≡◌, ◌⊎◌, inl, inr, refl, Bool, true, false, not, ◌&&◌, Option, none, some, List, [],
  ◌∷◌, ◌++◌, All, leb, ◌==◌, arith, Bool-cases, Option-cases,
}
use qdplay.Float32.{is_coordinate, to_int16}
use qdplay.Float32.Bounds.{to_int16_lem}
use qdplay.Touch.{Finger, Touches, parse, action_down, action_up, action_move}
use qdplay.ProcessorV2.Gesture.{
  Action, send_input_event, switch_source, input_event_up, switch_gesture_fingers, pressed_fingers,
  first_touch, input_action, point, handle_fingers, handle_touch,
}

-- The touches in turn, with all the calls that they make.
unfoldable pub handle_all : Bool → List (List ℕ) → Option (Bool × List Action)
handle_all fired [] = some (fired, [])
handle_all fired (p ∷ ps) = elim (handle_touch fired p) [
  | none ↦ none
  | some (fired', actions) ↦ elim (handle_all fired' ps) [
    | none ↦ none
    | some (fired'', more) ↦ some (fired'', actions ++ more)
  ]
]

-- Every finger is lifted.
abbrev pub is_release : List ℕ → Bool
is_release payload = elim (parse payload) [ none ↦ false | some t ↦ pressed_fingers t.fingers == 0 ]

-- After the gesture has fired nothing is done before a release.
handle_touch-fired : (p : List ℕ) → handle_touch true p ≡ some (not (is_release p), [])
unfolding handle_touch handle_fingers
handle_touch-fired p = elim (Option-cases (parse p)) [
  | inl e ↦ rw (e, is_release, handle_touch) refl
  | inr (t, e) ↦
      rw (e, is_release, handle_touch)
        (elim (Bool-cases (leb switch_gesture_fingers (pressed_fingers t.fingers))) [
          | inl many ↦
              let some_left : (pressed_fingers t.fingers == 0) ≡ false = ground arith in
              rw (many, some_left) refl
          | inr few ↦ rw few (elim (Bool-cases (pressed_fingers t.fingers == 0)) [
            | inl z ↦ rw z refl
            | inr z ↦ rw z refl
          ])
        ])
]

handle_all-fired :
    (middle : List (List ℕ)) (last : List ℕ)
    → All (λ p. is_release p ≡ false) middle
    → is_release last ≡ true
    → handle_all true (middle ++ (last ∷ [])) ≡ some (false, [])
unfolding handle_all
handle_all-fired [] last all release = rw (handle_touch-fired last, release, handle_all) refl
handle_all-fired (p ∷ middle) last all release =
    rw (handle_touch-fired p, all.0, handle_all-fired middle last all.1 release, handle_all) refl

-- When three fingers or more press while no gesture has fired, and the first finger reported stands
-- at a place that fits 16 bits, then these touches, any others in which some finger presses, or that
-- are malformed, and the release of all fingers make two calls in all: the touch is lifted at the
-- first finger's place, and the source is switched. The pointer is then free again.
pub handle_all-gesture :
    (first : List ℕ) (t : Touches) (f : Finger) (fs : List Finger) (x y : ℕ)
    (middle : List (List ℕ)) (last : List ℕ)
    → parse first ≡ some t
    → t.fingers ≡ f ∷ fs
    → switch_gesture_fingers ≤ pressed_fingers (f ∷ fs)
    → to_int16 f.x ≡ some x
    → to_int16 f.y ≡ some y
    → All (λ p. is_release p ≡ false) middle
    → is_release last ≡ true
    → handle_all false (first ∷ middle ++ (last ∷ []))
      ≡ some (false, send_input_event input_event_up x y ∷ switch_source ∷ [])
unfolding handle_all handle_touch handle_fingers
handle_all-gesture first t f fs x y middle last parsed fingers many ex ey all release =
    let fires : leb switch_gesture_fingers (pressed_fingers (f ∷ fs)) ≡ true = ground arith in
    rw
      (
        parsed,
        fingers,
        fires,
        ex,
        ey,
        handle_all-fired middle last all release,
        handle_all,
        handle_touch,
      )
      refl

-- Three fingers press and no gesture has fired.
abbrev pub fires : Bool → List ℕ → Bool
fires fired payload = elim (parse payload) [
  | none ↦ false
  | some t ↦ not fired && leb switch_gesture_fingers (pressed_fingers t.fingers)
]

-- An event of the pointer, at a place from 0 to 32766.
abbrev pub IsPointer : Action → Type 0
IsPointer (send_input_event action x y) = (action ≤ 2) × (x < 32767) × (y < 32767)
IsPointer switch_source = ⊥

-- The calls are those of the pointer, and C defines them.
abbrev pub Points : Option (Bool × List Action) → Type 0
Points r =
    (fired : Bool) × (actions : List Action) × (r ≡ some (fired, actions)) × All IsPointer actions

input_action_lem :
    (a : ℕ) → (input_action a ≡ none) ⊎ ((b : ℕ) × (input_action a ≡ some b) × (b ≤ 2))
input_action_lem a = elim (Bool-cases (a == action_down)) [
  | inl e ↦ inr (0, rw e refl, omega arith)
  | inr e ↦ elim (Bool-cases (a == action_up)) [
    | inl e' ↦ inr (1, rw (e, e') refl, omega arith)
    | inr e' ↦ elim (Bool-cases (a == action_move)) [
      | inl e'' ↦ inr (2, rw (e, e', e'') refl, omega arith)
      | inr e'' ↦ inl (rw (e, e', e'') refl)
    ]
  ]
]

point-Points : (fs : List Finger) → Points (point fs)
point-Points fs = elim (Option-cases (first_touch fs)) [
  | inl e ↦ rw (e, point) (false, [], refl, tt)
  | inr (f, e) ↦ elim (input_action_lem f.finger_action) [
    | inl a ↦ rw (e, a, point) (false, [], refl, tt)
    | inr (b, a, small) ↦ elim (Bool-cases (is_coordinate f.x && is_coordinate f.y)) [
      | inr out ↦ rw (e, a, out, point) (false, [], refl, tt)
      | inl inside ↦
          let (x, ex, hx) = to_int16_lem f.x (ground arith) in
          let (y, ey, hy) = to_int16_lem f.y (ground arith) in
          rw (e, a, inside, ex, ey, point)
            (false, send_input_event b x y ∷ [], refl, ((small, hx, hy), tt))
    ]
  ]
]

-- Touches that do not fire the gesture never switch the source. Their behaviour is defined, and an
-- event that they send has a position from 0 to 32766.
pub handle_touch-Points :
    (fired : Bool) (payload : List ℕ)
    → fires fired payload ≡ false
    → Points (handle_touch fired payload)
unfolding handle_touch handle_fingers
handle_touch-Points true payload h =
    rw (handle_touch-fired payload) (not (is_release payload), [], refl, tt)
handle_touch-Points false payload h = elim (Option-cases (parse payload)) [
  | inl e ↦ rw (e, handle_touch) (false, [], refl, tt)
  | inr (t, e) ↦
      let few : leb switch_gesture_fingers (pressed_fingers t.fingers) ≡ false =
        ground (arith, e) in
      rw (e, few, handle_touch) (point-Points t.fingers)
]
