-- ===== src/Worker/Backoff.antt =====
-- The worker's delays follow a count of the failures since the last session that was completed.
use qdplay.Prelude.{
  ℕ, suc, ◌*◌, ◌^◌, ◌≡◌, refl, ◌∙◌, ap, Bool, true, false, Option, none, some, List, [], ◌∷◌, ◌++◌,
  min, arith,
}
use qdplay.Posix.{Outcome, done, failed}
use qdplay.Worker.{
  Turn, WorkerCall, sleeps, WaitResult, wait_start_requested, wait_no_source, wait_error,
  wait_for_start, open_accessory_device, retry_min, longer, with_accessory, with_wait,
  with_initial_mode, end_turn, followed, turn, worker, worker_start,
}

-- How a turn ends: it fails, it has no session, a session is completed, or it still waits.
pub data Verdict : Type 0 where
  fails no_session completed waits : Verdict

abbrev session_verdict : Outcome ℕ → Verdict
session_verdict (failed e) = fails
session_verdict (done n) = completed

abbrev wait_verdict : Outcome ℕ → Option WaitResult → Verdict
wait_verdict session none = waits
wait_verdict session (some wait_start_requested) = session_verdict session
wait_verdict session (some wait_no_source) = no_session
wait_verdict session (some wait_error) = fails

abbrev device_verdict : Turn → Option ℕ → Verdict
device_verdict t none = fails
device_verdict t (some fd) = wait_verdict t.session_result (wait_for_start t.polls)

abbrev mode_verdict : Turn → Outcome ℕ → Verdict
mode_verdict t (failed e) = fails
mode_verdict t (done n) = device_verdict t (open_accessory_device t.opens)

abbrev pub verdict : Turn → Verdict
verdict t = mode_verdict t t.mode

-- The delay after so many failures.
abbrev pub delay_after : ℕ → ℕ
delay_after failures = min (250000 * 2 ^ failures) 5000000

-- A turn of a worker that only counts its failures, and those that follow it.
abbrev pub counted : (ℕ → List ℕ) → ℕ → Verdict → List ℕ
counted next failures fails = delay_after failures ∷ next (suc failures)
counted next failures no_session = next failures
counted next failures completed = next 0
counted next failures waits = []

-- The sleeps of such a worker.
unfoldable pub count : List Turn → ℕ → List ℕ
count [] failures = []
count (t ∷ ts) failures = counted (count ts) failures (verdict t)

-- The sleeps among the calls.
pub sleeps_of : List WorkerCall → List ℕ
sleeps_of [] = []
sleeps_of (sleeps us ∷ cs) = us ∷ sleeps_of cs
sleeps_of (_ ∷ cs) = sleeps_of cs

longer-delay_after : (failures : ℕ) → longer (delay_after failures) ≡ delay_after (suc failures)
longer-delay_after failures =
    let power : 2 ^ suc failures ≡ 2 * 2 ^ failures = omega arith in ground (arith, power)

-- What the turn before its end is by the verdict: whether it fails, the delay, and that it does not
-- sleep.
abbrev IsAttempt : Verdict → ℕ → Option (Bool × ℕ × List WorkerCall) → Type 0
IsAttempt waits delay r = r ≡ none
IsAttempt fails delay none = ⊥
IsAttempt fails delay (some (is_failed, delay', calls)) =
    (is_failed ≡ true) × (delay' ≡ delay) × (sleeps_of calls ≡ [])
IsAttempt no_session delay none = ⊥
IsAttempt no_session delay (some (is_failed, delay', calls)) =
    (is_failed ≡ false) × (delay' ≡ delay) × (sleeps_of calls ≡ [])
IsAttempt completed delay none = ⊥
IsAttempt completed delay (some (is_failed, delay', calls)) =
    (is_failed ≡ false) × (delay' ≡ retry_min) × (sleeps_of calls ≡ [])

with_wait-IsAttempt :
    (fd : ℕ) (session : Outcome ℕ) (delay : ℕ) (w : Option WaitResult)
    → IsAttempt (wait_verdict session w) delay (with_wait fd session delay w)
unfolding sleeps_of
with_wait-IsAttempt fd session delay none = refl
with_wait-IsAttempt fd (failed e) delay (some wait_start_requested) = (refl, refl, refl)
with_wait-IsAttempt fd (done n) delay (some wait_start_requested) = (refl, refl, refl)
with_wait-IsAttempt fd session delay (some wait_no_source) = (refl, refl, refl)
with_wait-IsAttempt fd session delay (some wait_error) = (refl, refl, refl)

with_accessory-IsAttempt :
    (t : Turn) (delay : ℕ) (fd : Option ℕ)
    → IsAttempt (device_verdict t fd) delay (with_accessory t delay fd)
unfolding sleeps_of
with_accessory-IsAttempt t delay none = (refl, refl, refl)
with_accessory-IsAttempt t delay (some fd) =
    with_wait-IsAttempt fd t.session_result delay (wait_for_start t.polls)

with_initial_mode-IsAttempt :
    (t : Turn) (delay : ℕ) (mode : Outcome ℕ)
    → IsAttempt (mode_verdict t mode) delay (with_initial_mode t delay mode)
unfolding sleeps_of
with_initial_mode-IsAttempt t delay (failed e) = (refl, refl, refl)
with_initial_mode-IsAttempt t delay (done n) =
    with_accessory-IsAttempt t delay (open_accessory_device t.opens)

sleeps_of-append : (cs ds : List WorkerCall) → sleeps_of (cs ++ ds) ≡ sleeps_of cs ++ sleeps_of ds
unfolding sleeps_of
sleeps_of-append [] ds = refl
sleeps_of-append (sleeps us ∷ cs) ds = ap (◌∷◌ us) (sleeps_of-append cs ds)
sleeps_of-append (WorkerCall.awaits_source ∷ cs) ds = sleeps_of-append cs ds
sleeps_of-append (WorkerCall.opens_device fd ∷ cs) ds = sleeps_of-append cs ds
sleeps_of-append (WorkerCall.closes_device fd ∷ cs) ds = sleeps_of-append cs ds
sleeps_of-append (WorkerCall.runs_session ∷ cs) ds = sleeps_of-append cs ds
sleeps_of-append (WorkerCall.disables_gadget ∷ cs) ds = sleeps_of-append cs ds

sleeps_of-quiet :
    (calls tail more : List WorkerCall)
    → sleeps_of calls ≡ []
    → sleeps_of ((calls ++ tail) ++ more) ≡ sleeps_of tail ++ sleeps_of more
unfolding sleeps_of
sleeps_of-quiet calls tail more quiet =
    sleeps_of-append (calls ++ tail) more
    ∙ ap (λ us. us ++ sleeps_of more)
        (sleeps_of-append calls tail ∙ ap (λ us. us ++ sleeps_of tail) quiet)

turn-counted :
    (next : ℕ → List WorkerCall) (next' : ℕ → List ℕ) (failures : ℕ) (v : Verdict)
    (r : Option (Bool × ℕ × List WorkerCall))
    → ((n : ℕ) → sleeps_of (next (delay_after n)) ≡ next' n)
    → IsAttempt v (delay_after failures) r
    → sleeps_of (followed next (end_turn r)) ≡ counted next' failures v
unfolding sleeps_of
turn-counted next next' failures waits r rest e = ap (λ o. sleeps_of (followed next (end_turn o))) e
turn-counted next next' failures fails none rest e = absurd e
turn-counted next next' failures no_session none rest e = absurd e
turn-counted next next' failures completed none rest e = absurd e
turn-counted next next' failures fails (some (is_failed, delay, calls)) rest (f, d, quiet) =
    let tail = WorkerCall.disables_gadget ∷ sleeps (delay_after failures) ∷ [] in
    let more = next (longer (delay_after failures)) in
    rw (f, d)
      (sleeps_of-quiet calls tail more quiet
        ∙ ap (λ us. delay_after failures ∷ us)
            (ap (λ us. sleeps_of (next us)) (longer-delay_after failures) ∙ rest (suc failures)))
turn-counted next next' failures no_session (some (is_failed, delay, calls)) rest (f, d, quiet) =
    rw (f, d)
      (sleeps_of-quiet calls (WorkerCall.disables_gadget ∷ []) (next (delay_after failures)) quiet
        ∙ rest failures)
turn-counted next next' failures completed (some (is_failed, delay, calls)) rest (f, d, quiet) =
    rw (f, d)
      (sleeps_of-quiet calls (WorkerCall.disables_gadget ∷ []) (next retry_min) quiet ∙ rest 0)

worker-count :
    (ts : List Turn) (failures : ℕ)
    → sleeps_of (worker ts (delay_after failures)) ≡ count ts failures
unfolding worker turn count sleeps_of
worker-count [] failures = refl
worker-count (t ∷ ts) failures =
    turn-counted (worker ts) (count ts) failures (verdict t)
      (with_initial_mode t (delay_after failures) t.mode) (worker-count ts)
      (with_initial_mode-IsAttempt t (delay_after failures) t.mode)

-- The worker sleeps as one that only counts: after a turn that fails it sleeps for 250 ms times two to
-- the number of failures before it since the last completed session, for 5 s at most, and a turn
-- without a session is no failure and resets nothing.
pub worker_start-count : (ts : List Turn) → sleeps_of (worker_start ts) ≡ count ts 0
worker_start-count ts = worker-count ts 0
