-- ===== src/VideoReceiver/Sources/History.antt =====
-- Histories of the sources list: the calls that the receiver and the messaging threads make, in
-- the order in which they take the mutex.
use qdplay.Prelude.{
  ℕ, ◌+◌, ◌*◌, ◌^◌, ◌≤◌, ◌<◌, ◌≡◌, List, [], ◌∷◌, ◌⊎◌, inl, inr, length, arith, some, none,
}
use qdplay.Posix.{Outcome}
use qdplay.VideoReceiver.{Source, State, max_sources, init_state}
use qdplay.VideoReceiver.Sources.{
  activate, deactivate, request_active, yield_screen, switch_to_previous, accept, remove_source,
  accept_fd, update_active, lower, promote, pick_best,
}
use qdplay.VideoReceiver.Sources.Pick.{IsBest, pick_best-IsBest}
use qdplay.VideoReceiver.Sources.Inv.{
  Inv, HasRoom, request_active-Inv, yield_screen-Inv, switch_to_previous-Inv, accept-Inv,
  remove_source-Inv, raise-Below, lower-Below, promote-Below,
}

pub data Call : Type 0 where
  activates deactivates : Call
  requests yields : ℕ → Call
  switches : Call
  accepts : Outcome ℕ → Outcome ℕ → Call
  removes : ℕ → Call

-- One call at time `now`.
unfoldable pub step : ℕ × Call → State → State
step (now, activates) st = activate st
step (now, deactivates) st = deactivate st
step (now, requests pid) st = (request_active pid now st).0
step (now, yields pid) st = (yield_screen pid now st).0
step (now, switches) st = (switch_to_previous now st).0
step (now, accepts fd credentials) st = (accept fd credentials now st).0
step (now, removes index) st = (remove_source index now st).0

pub run : List (ℕ × Call) → State → State
run [] st = st
run (c ∷ cs) st = run cs (step c st)

-- Every call keeps the invariant while the priorities do not run out.
pub step-Inv : (c : ℕ × Call) (st : State) → HasRoom 4 st → Inv st → Inv (step c st)
unfolding step activate deactivate
step-Inv (now, activates) st room v = record {
  count = v.count;
  below = v.below;
  positive = v.positive;
  active = v.active;
}
step-Inv (now, deactivates) st room v = record {
  count = v.count;
  below = v.below;
  positive = v.positive;
  active = v.active;
}
step-Inv (now, requests pid) st room v = request_active-Inv pid now st room v
step-Inv (now, yields pid) st room v = yield_screen-Inv pid now st (omega arith) v
step-Inv (now, switches) st room v = switch_to_previous-Inv now st (omega arith) v
step-Inv (now, accepts fd credentials) st room v = accept-Inv fd credentials now st (omega arith) v
step-Inv (now, removes index) st room v = remove_source-Inv index now st v

next-update_active :
    (now : ℕ) (st : State) → (update_active now st).next_priority ≡ st.next_priority
unfolding update_active
next-update_active now st = ground arith

next-yield_screen :
    (pid now : ℕ) (st : State)
    → HasRoom 1 st
    → Inv st
    → (yield_screen pid now st).0.next_priority ≤ st.next_priority + 1
unfolding yield_screen
next-yield_screen pid now st room v =
    let (b, len, ptr) = lower-Below pid 0 st.next_priority none st.sources v.positive tt v.below in
    let lowered : State = record st { sources = (lower pid 0 none st.sources).0 } in
    let (b', len', lo, hi) = promote-Below (lower pid 0 none st.sources).1 lowered room b in
    omega (arith, hi, next-update_active now (promote (lower pid 0 none st.sources).1 lowered))

-- A call uses up at most four priorities: one for each source of the pid that asks for the screen.
pub next-step :
    (c : ℕ × Call) (st : State)
    → HasRoom 4 st
    → Inv st
    → (step c st).next_priority ≤ st.next_priority + 4
unfolding step activate deactivate request_active switch_to_previous accept accept_fd remove_source
    update_active
next-step (now, activates) st room v = omega arith
next-step (now, deactivates) st room v = omega arith
next-step (now, requests pid) st room v =
    let (b, lo, hi, len) =
      raise-Below pid st.next_priority st.next_priority st.sources (omega (arith, v.count))
        (omega arith) v.below in
    ground (arith, hi, v.count)
next-step (now, yields pid) st room v = omega (arith, next-yield_screen pid now st (omega arith) v)
next-step (now, switches) st room v =
    ground (arith, next-yield_screen st.active_pid now st (omega arith) v)
next-step (now, accepts (Outcome.done fd) credentials) st room v = ground arith
next-step (now, accepts (Outcome.failed e) credentials) st room v = ground arith
next-step (now, removes index) st room v = ground arith

-- Every history of calls keeps the invariant while the priorities do not run out.
pub run-Inv :
    (cs : List (ℕ × Call)) (st : State) → HasRoom (4 * length cs) st → Inv st → Inv (run cs st)
unfolding run
run-Inv [] st room v = v
run-Inv (c ∷ cs) st room v =
    run-Inv cs (step c st) (omega (arith, next-step c st (omega arith) v))
      (step-Inv c st (omega arith) v)

pub init_state-Inv : Inv init_state
unfolding pick_best
init_state-Inv = omega arith

-- Whatever the calls since the start, of which there are fewer than 2^61, there are at most four
-- sources, and the active pid is 0 if there is none and otherwise that of a connected source that
-- no other exceeds in priority.
pub active-run :
    (cs : List (ℕ × Call))
    → length cs < 2 ^ 61
    → let st = run cs init_state in
      (length st.sources ≤ max_sources)
      × (((st.sources ≡ []) × (st.active_pid ≡ 0))
          ⊎ ((s : Source) × (st.active_pid ≡ s.pid) × IsBest st.sources s))
active-run cs h =
    let v = run-Inv cs init_state (omega arith) init_state-Inv in
    (v.count, choose v (pick_best-IsBest (run cs init_state).sources))
  where
    choose :
        {st : State}
        → Inv st
        → ((st.sources ≡ []) × (pick_best none st.sources ≡ none))
          ⊎ ((r : Source) × (pick_best none st.sources ≡ some r) × IsBest st.sources r)
        → ((st.sources ≡ []) × (st.active_pid ≡ 0))
          ⊎ ((s : Source) × (st.active_pid ≡ s.pid) × IsBest st.sources s)
    choose v (inl (none_left, e)) = inl (none_left, ground (arith, v.active))
    choose v (inr (r, e, best)) = inr (r, ground (arith, v.active), best)
