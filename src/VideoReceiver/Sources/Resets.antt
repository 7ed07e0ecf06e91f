-- ===== src/VideoReceiver/Sources/Resets.antt =====
-- A call that changes the active source starts the wait for a key frame.
use qdplay.Prelude.{
  ℕ, ◌≡◌, ◌⊎◌, ◌==◌, refl, inl, inr, true, none, some, List, length, get_elem?, ltb, Bool-cases,
  Option-cases, if_intro,
}
use qdplay.Posix.{done, failed}
use qdplay.VideoReceiver.{State, Effect, max_sources}
use qdplay.VideoReceiver.Sources.{
  update_active, pick_active, yield_screen, lower, promote, Pointer, activate, deactivate,
  request_active, raise, switch_to_previous, accept, accept_fd, remove_source, swap_remove,
}
use qdplay.VideoReceiver.Sources.History.{
  Call, activates, deactivates, requests, yields, switches, accepts, removes, step,
}

-- The screen stays where it is, or a key frame is awaited from now on.
abbrev pub Resets : ℕ → ℕ → State → Type 0
Resets now old_pid st =
    (st.active_pid ≡ old_pid) ⊎ ((st.awaiting_keyframe ≡ true) × (st.awaiting_keyframe_since ≡ now))

update_active-Resets : (now : ℕ) (st : State) → Resets now st.active_pid (update_active now st)
unfolding update_active
update_active-Resets now st = elim (Bool-cases (st.active_pid == pick_active st)) [
  | inl same ↦ rw same (inl refl)
  | inr new ↦ rw new (inr (refl, refl))
]

yield_screen-Resets :
    (pid now : ℕ) (st : State) → Resets now st.active_pid (yield_screen pid now st).0
unfolding yield_screen
yield_screen-Resets pid now st = go (lower pid 0 none st.sources).1
  where
    lowered : State
    lowered = record st { sources = (lower pid 0 none st.sources).0 }

    go : (next : Pointer) → Resets now st.active_pid (update_active now (promote next lowered))
    go none = update_active-Resets now lowered
    go (some (j, s)) = update_active-Resets now (promote (some (j, s)) lowered)

-- Each call under the mutex that gives the screen to another process waits for a key frame.
pub step-Resets : (c : Call) (now : ℕ) (st : State) → Resets now st.active_pid (step (now, c) st)
unfolding step activate deactivate request_active switch_to_previous accept accept_fd remove_source
step-Resets activates now st = inl refl
step-Resets deactivates now st = inl refl
step-Resets (requests pid) now st =
    let (sources, next) = raise pid st.next_priority st.sources in
    update_active-Resets now (record st { sources = sources; next_priority = next })
step-Resets (yields pid) now st = yield_screen-Resets pid now st
step-Resets switches now st =
    if_intro (λ (r : State × List Effect). Resets now st.active_pid r.0) (st.active_pid == 0)
      (inl refl) (yield_screen-Resets st.active_pid now st)
step-Resets (accepts (failed e) credentials) now st = inl refl
step-Resets (accepts (done fd) credentials) now st =
    if_intro (λ (r : State × List Effect). Resets now st.active_pid r.0)
      (ltb (length st.sources) max_sources) (update_active-Resets now _) (inl refl)
step-Resets (removes index) now st = elim (Option-cases (get_elem? st.sources index)) [
  | inl missing ↦ rw (missing, remove_source, step) (inl refl)
  | inr (s, found) ↦
      rw (found, remove_source, step)
        (update_active-Resets now (record st { sources = swap_remove st.sources index }))
]
