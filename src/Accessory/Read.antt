-- ===== src/Accessory/Read.antt =====
-- usb_active_accessory.c: `usb_active_accessory_read` and `usb_active_accessory_read_message_tail`.
pub mod Lossless
use qdplay.Prelude.{
  ℕ, zero, suc, ◌+◌, ◌-◌, min, Bool, true, false, not, ◌||◌, List, [], ◌∷◌, ◌++◌, length, take,
  drop, ltb, leb, ◌==◌, if◌then◌else◌,
}
use qdplay.Posix.{Errno, eintr, eio, einval, ecanceled, Outcome, done, failed}
use qdplay.Accessory.{Session, max_read_chunk, round_up, note_error}

-- What a `read` of the driver does: bytes arrive at some time, and what the request has no room for
-- is lost; a signal interrupts it, while the session goes on or when it has been stopped; an error.
pub data Reading : Type 0 where
  arrived : List ℕ → ℕ → Reading
  interrupted : Reading
  woken : Reading
  broke : Errno → Reading

-- The loop over `read(fd, session.bounce, request)`. The driver's answers come in turn, and behind
-- them the session is stopped.
unfoldable pub fetch : ℕ → List Reading → Session → Outcome (Unit {0}) × List Reading × Session
fetch request [] s = (failed eintr, [], record s { stopping = true })
fetch request (arrived bytes now ∷ rs) s =
    let bs = take request bytes in
    (
      done tt,
      rs,
      record s { bounce = bs; last_read_ts = if ltb 0 (length bs) then now else s.last_read_ts },
    )
fetch request (interrupted ∷ rs) s = fetch request rs s
fetch request (woken ∷ rs) s = (failed eintr, rs, record s { stopping = true })
fetch request (broke e ∷ rs) s = (failed e, rs, note_error e s)

-- What is left of a transfer, up to `len` bytes of it.
abbrev pub hand_out : ℕ → Session → Outcome (List ℕ) × Session
hand_out len s = (done (take len s.bounce), record s { bounce = drop len s.bounce })

-- Hands out what is fetched, or passes an error on.
abbrev pub after_fetch :
    ℕ → Outcome (Unit {0}) × List Reading × Session → Outcome (List ℕ) × List Reading × Session
after_fetch len (failed e, rs, s) = (failed e, rs, s)
after_fetch len (done _, rs, s) = let (r, s') = hand_out len s in (r, rs, s')

-- `usb_active_accessory_read`: the bytes, or an errno for -1.
unfoldable pub read : ℕ → List Reading → Session → Outcome (List ℕ) × List Reading × Session
read len rs s =
    if not s.has_fd || s.stopping
    then (failed ecanceled, rs, s)
    else if len == 0
    then (done [], rs, s)
    else if ltb 0 (length s.bounce)
    then (let (r, s') = hand_out len s in (r, rs, s'))
    else after_fetch len (fetch (min (round_up len) max_read_chunk) rs s)

-- How `usb_active_accessory_read_message_tail` ends: the bytes in the buffer, or an errno.
-- `no_fuel` is no outcome of the code.
pub data Tail : Type 0 where
  complete : List ℕ → Tail
  errored : Errno → Tail
  no_fuel : Tail

-- What the loop does with a read: `next` goes on with the bytes that have come.
abbrev pub after_read :
    (List ℕ → List Reading → Session → Tail × List Reading × Session)
    → Outcome (List ℕ) × List Reading × Session
    → Tail × List Reading × Session
after_read next (failed e, rs, s) = (errored e, rs, s)
after_read next (done [], rs, s) = (errored eio, rs, s)
after_read next (done (b ∷ bs), rs, s) = next (b ∷ bs) rs s

-- The loop, with `buffer` received.
unfoldable pub tail_loop :
    ℕ → ℕ → ℕ → List ℕ → List Reading → Session → Tail × List Reading × Session
tail_loop zero required capacity buffer rs s = (no_fuel, rs, s)
tail_loop (suc fuel) required capacity buffer rs s = elim (leb required (length buffer)) [
  | true ↦ (complete buffer, rs, s)
  | false ↦
      after_read (λ bs rs' s'. tail_loop fuel required capacity (buffer ++ bs) rs' s')
        (read (capacity - length buffer) rs s)
]

-- Every turn adds a byte at least.
unfoldable pub read_message_tail :
    List ℕ → ℕ → ℕ → List Reading → Session → Tail × List Reading × Session
read_message_tail buffer required capacity rs s =
    if ltb capacity required
    then (errored einval, rs, s)
    else tail_loop (suc required) required capacity buffer rs s
