-- ===== src/Touch.antt =====
-- src/messages/v2/message_touch_event_v2.c: the touches that the head unit reports. A coordinate is
-- the 32 bits of its `float`.
pub mod RoundTrip
use qdplay.Prelude.{
  ℕ, zero, suc, ◌+◌, ◌*◌, Bool, ◌||◌, Option, none, some, List, [], ◌∷◌, length, get_or, drop, ltb,
  ◌==◌, if◌then◌else◌,
}
use qdplay.Words.{be32_at}

abbrev pub action_down : ℕ
action_down = 1

abbrev pub action_up : ℕ
action_up = 2

abbrev pub action_move : ℕ
action_move = 3

abbrev pub max_fingers : ℕ
max_fingers = 10

-- `message_touch_finger_v2_t`
pub record Finger : Type 0 where
  pub finger_id : ℕ
  pub finger_action : ℕ
  pub x : ℕ
  pub y : ℕ

-- `message_touches_v2_t`: `fingers` is the used part of the array, so `fingers_count` is its length.
pub record Touches : Type 0 where
  pub action_id : ℕ
  pub fingers : List Finger

-- `sizeof(message_touch_event_ext_v2_t)`
abbrev pub touch_header_len : ℕ
touch_header_len = 5

-- `sizeof(message_touch_event_finger_v2_t)`
abbrev pub finger_len : ℕ
finger_len = 10

abbrev pub finger_at : List ℕ → Finger
finger_at bytes = record {
  finger_id = get_or bytes 0 0;
  finger_action = get_or bytes 1 0;
  x = be32_at bytes 2;
  y = be32_at bytes 6;
}

-- The loop over the fingers.
unfoldable pub read_fingers : ℕ → List ℕ → List Finger
read_fingers zero bytes = []
read_fingers (suc n) bytes = finger_at bytes ∷ read_fingers n (drop finger_len bytes)

-- `message_touch_v2_parse`, of a payload that is not NULL. `none` is -EINVAL.
unfoldable pub parse : List ℕ → Option Touches
parse payload =
    let fingers_count = get_or payload 4 0 in
    if ltb (length payload) touch_header_len
    then none
    else if fingers_count == 0
        || ltb max_fingers fingers_count
        || ltb (length payload) (touch_header_len + fingers_count * finger_len)
    then none
    else some (record {
      action_id = be32_at payload 0;
      fingers = read_fingers fingers_count (drop touch_header_len payload);
    })
