-- ===== src/Worker.antt =====
-- src/usb_accessory/usb_accessory_worker.c: the loop that presents the gadget, waits for the head unit
-- and runs sessions.
pub mod Backoff
pub mod Tests
use qdplay.Prelude.{
  ℕ, ◌+◌, ◌*◌, Bool, true, false, not, Option, none, some, List, [], ◌∷◌, ◌++◌, ltb, ◌==◌,
  if◌then◌else◌,
}
use qdplay.Posix.{Outcome, done, failed}
use qdplay.RunSession.{open_from}

-- Microseconds.
abbrev pub retry_min : ℕ
retry_min = 250000

abbrev pub retry_max : ℕ
retry_max = 5000000

-- `open_accessory_device`: the attempts are those of `open_device`; every failure is -1.
abbrev pub open_accessory_device : (ℕ → Outcome ℕ) → Option ℕ
open_accessory_device opens = elim (open_from 30 0 opens) [ done fd ↦ some fd | failed e ↦ none ]

-- `wait_result_t`
pub data WaitResult : Type 0 where
  wait_start_requested wait_no_source wait_error : WaitResult

-- What a turn of `wait_for_start` sees: whether a video source is connected, and the answer of
-- `ioctl`.
pub record Poll : Type 0 where
  pub has_source : Bool
  pub status : Outcome ℕ

-- `wait_for_start`; `none` as long as it waits.
unfoldable pub wait_for_start : List Poll → Option WaitResult
wait_for_start [] = none
wait_for_start (p ∷ ps) =
    let rest = wait_for_start ps in
    if not p.has_source then some wait_no_source else elim p.status [
      | failed e ↦ some wait_error
      | done status ↦ if status == 1 then some wait_start_requested else rest
    ]

-- What a turn of the loop meets: the answers of `usb_accessory_set_mode` and `open`, what is polled,
-- and the result of `usb_active_accessory_run_session`.
pub record Turn : Type 0 where
  pub mode : Outcome ℕ
  pub opens : ℕ → Outcome ℕ
  pub polls : List Poll
  pub session_result : Outcome ℕ

pub data WorkerCall : Type 0 where
  awaits_source : WorkerCall
  opens_device : ℕ → WorkerCall
  closes_device : ℕ → WorkerCall
  runs_session : WorkerCall
  disables_gadget : WorkerCall
  sleeps : ℕ → WorkerCall

-- `failed` and `retry_delay` after a session.
abbrev pub after_session : Outcome ℕ → ℕ → Bool × ℕ
after_session (failed e) delay = (true, delay)
after_session (done n) delay = (false, retry_min)

-- `failed`, `retry_delay` and the calls once the wait is over.
abbrev pub after_wait : ℕ → Outcome ℕ → ℕ → WaitResult → Bool × ℕ × List WorkerCall
after_wait fd session_result delay wait_start_requested =
    let (is_failed, delay') = after_session session_result delay in
    (is_failed, delay', opens_device fd ∷ closes_device fd ∷ runs_session ∷ [])
after_wait fd session_result delay wait_no_source =
    (false, delay, opens_device fd ∷ closes_device fd ∷ [])
after_wait fd session_result delay wait_error =
    (true, delay, opens_device fd ∷ closes_device fd ∷ [])

-- With the result of the wait; `none` as long as it waits.
abbrev pub with_wait : ℕ → Outcome ℕ → ℕ → Option WaitResult → Option (Bool × ℕ × List WorkerCall)
with_wait fd session_result delay none = none
with_wait fd session_result delay (some w) = some (after_wait fd session_result delay w)

-- With the device, which cannot be opened in the case of `none`.
abbrev pub with_accessory : Turn → ℕ → Option ℕ → Option (Bool × ℕ × List WorkerCall)
with_accessory t delay none = some (true, delay, [])
with_accessory t delay (some fd) = with_wait fd t.session_result delay (wait_for_start t.polls)

-- With the result of `usb_accessory_set_mode`.
abbrev pub with_initial_mode : Turn → ℕ → Outcome ℕ → Option (Bool × ℕ × List WorkerCall)
with_initial_mode t delay (failed e) = some (true, delay, [])
with_initial_mode t delay (done _) = with_accessory t delay (open_accessory_device t.opens)

-- Twice the delay, up to the maximum.
abbrev pub longer : ℕ → ℕ
longer delay = if ltb retry_max (delay * 2) then retry_max else delay * 2

-- The end of a turn: the gadget is disabled, and after a failure the worker sleeps.
abbrev pub back_off : Bool × ℕ × List WorkerCall → ℕ × List WorkerCall
back_off (is_failed, delay, calls) =
    if is_failed
    then (longer delay, awaits_source ∷ (calls ++ (disables_gadget ∷ sleeps delay ∷ [])))
    else (delay, awaits_source ∷ (calls ++ (disables_gadget ∷ [])))

abbrev pub end_turn : Option (Bool × ℕ × List WorkerCall) → Option (ℕ × List WorkerCall)
end_turn none = none
end_turn (some r) = some (back_off r)

-- A turn of `usb_accessory_worker_start`: the next `retry_delay` and the calls.
unfoldable pub turn : Turn → ℕ → Option (ℕ × List WorkerCall)
turn t delay = end_turn (with_initial_mode t delay t.mode)

-- The calls of a turn, and of those that follow it with its delay.
abbrev pub followed : (ℕ → List WorkerCall) → Option (ℕ × List WorkerCall) → List WorkerCall
followed next none = []
followed next (some (delay, calls)) = calls ++ next delay

-- The turns one after another, up to one that still waits.
unfoldable pub worker : List Turn → ℕ → List WorkerCall
worker [] delay = []
worker (t ∷ ts) delay = followed (worker ts) (turn t delay)

-- `usb_accessory_worker_start`
abbrev pub worker_start : List Turn → List WorkerCall
worker_start ts = worker ts retry_min
