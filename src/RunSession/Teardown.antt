-- ===== src/RunSession/Teardown.antt =====
-- However a session goes, what it has taken is given back.
use qdplay.Prelude.{
  ℕ, ◌≡◌, refl, Bool, true, false, Option, none, some, List, [], ◌∷◌, ◌++◌, map, ◌==◌,
  if◌then◌else◌, arith, Bool-cases, inl, inr,
}
use qdplay.Posix.{Outcome, done, failed}
use qdplay.Processor.{Port, Call, activates, deactivates, MessageProcessor, ◌>>=◌}
use qdplay.RunSession.{open_device, reset_state, probe_protocol, Ending}
use qdplay.RunSession.Run.{
  Slot, Kernel, Event, presents_gadget, fails_to_present, opened, does, deactivates_receiver,
  disables_gadget, joins_watchdog, closes, tear_down, serve_session, with_device, with_mode,
  run_session,
}

-- The gadget as the session's calls leave it. `usb_accessory_set_mode` that fails may have detached it
-- or not, and the result of `usb_accessory_disable` is not looked at.
pub data Presence : Type 0 where
  in_initial_mode in_accessory_mode asked_to_detach not_known : Presence

-- The descriptor that is open, the gadget, and whether the receiver is active.
pub record Resources : Type 0 where
  pub fd : Option ℕ
  pub presence : Presence
  pub active : Bool

-- The worker starts a session behind a successful `usb_accessory_set_mode` to the initial mode.
abbrev pub at_start : Resources
at_start = record { fd = none; presence = in_initial_mode; active = false }

-- Nothing is left open; the gadget depends on whether it could be presented as an accessory.
abbrev pub at_end : Outcome ℕ → Resources
at_end (done n) = record { fd = none; presence = asked_to_detach; active = false }
at_end (failed e) = record { fd = none; presence = not_known; active = false }

-- Whether the receiver is active after a processor's call.
abbrev pub active_after : Call → Bool → Bool
active_after activates active = true
active_after deactivates active = false
active_after _ active = active

abbrev open_on : ℕ → Option ℕ → Presence → Bool → Option Resources
open_on fd none in_accessory_mode active =
    some (record { fd = some fd; presence = in_accessory_mode; active = active })
open_on fd _ _ active = none

-- What a call does to the resources; `none` if the call is wrong: a descriptor is opened over another
-- or while the gadget is no accessory, is closed when it is not open, or a processor works without one.
abbrev pub track_event : Event → Resources → Option Resources
track_event presents_gadget r = some (record r { presence = in_accessory_mode })
track_event fails_to_present r = some (record r { presence = not_known })
track_event (opened fd) r = open_on fd r.fd r.presence r.active
track_event (does c) r = elim r.fd [
  | none ↦ none
  | some _ ↦ some (record r { active = active_after c r.active })
]
track_event deactivates_receiver r = some (record r { active = false })
track_event disables_gadget r = some (record r { presence = asked_to_detach })
track_event joins_watchdog r = some r
track_event (closes fd) r = elim r.fd [
  | none ↦ none
  | some fd' ↦ if fd == fd' then some (record r { fd = none }) else none
]

pub track : List Event → Resources → Option Resources
track [] r = some r
track (e ∷ es) r = elim (track_event e r) [ none ↦ none | some r' ↦ track es r' ]

-- The calls of a session with such a result of `usb_accessory_set_mode` are right ones, and leave these
-- resources.
abbrev pub IsBalanced : Outcome ℕ → List Event → Type 0
IsBalanced mode events = track events at_start ≡ some (at_end mode)

track-does :
    (fd : ℕ) (cs : List Call) (active : Bool)
    → track
        (map does cs ++ (deactivates_receiver ∷ disables_gadget ∷ joins_watchdog ∷ closes fd ∷ []))
        (record { fd = some fd; presence = in_accessory_mode; active = active })
      ≡ some (record { fd = none; presence = asked_to_detach; active = false })
unfolding track
track-does fd [] active = let e : (fd == fd) ≡ true = ground arith in rw (e, track) refl
track-does fd (c ∷ cs) active = track-does fd cs (active_after c active)

tear_down-IsBalanced :
    (n fd : ℕ) (done_by : Ending × List Call × Port) → IsBalanced (done n) (tear_down fd done_by).1
unfolding track
tear_down-IsBalanced n fd (e, cs, p) = track-does fd cs false

with_device-IsBalanced :
    (k : Kernel) (fuel : ℕ) (ms : List MessageProcessor) (slot : Slot) (n : ℕ) (fd : Outcome ℕ)
    → IsBalanced (done n) (with_device k fuel ms slot fd).1
unfolding track
with_device-IsBalanced k fuel ms slot n (failed e) = refl
with_device-IsBalanced k fuel ms slot n (done fd) = elim (Bool-cases k.watchdog_starts) [
  | inl starts ↦ rw starts (
      tear_down-IsBalanced n fd
        ((probe_protocol k.now ms >>= serve_session fuel) (reset_state k.now slot.port)))
  | inr lacks ↦ let e : (fd == fd) ≡ true = ground arith in rw (lacks, e, track) refl
]

with_mode-IsBalanced :
    (k : Kernel) (fuel : ℕ) (ms : List MessageProcessor) (slot : Slot) (mode : Outcome ℕ)
    → IsBalanced mode (with_mode k fuel ms slot mode).1
unfolding track
with_mode-IsBalanced k fuel ms slot (failed e) = refl
with_mode-IsBalanced k fuel ms slot (done n) =
    with_device-IsBalanced k fuel ms slot n (open_device k.opens)

-- Let a session start with no descriptor, the gadget in its initial mode and the video receiver
-- inactive, as the worker starts it. Whatever the kernel answers and the processors do, the session opens
-- a descriptor only while the gadget is presented as an accessory, works only on the one that it has
-- opened and closes it once, and leaves the video receiver inactive. If the gadget could be presented, a
-- call that detaches it is the last one made on it, also when the device or the watchdog fails. If it
-- could not, no descriptor is opened, and the gadget stays as the failed call has left it.
pub run_session-IsBalanced :
    (k : Kernel) (fuel : ℕ) (ms : List MessageProcessor) (slot : Slot)
    → IsBalanced k.mode (run_session k fuel ms slot).1
unfolding run_session
run_session-IsBalanced k fuel ms slot = with_mode-IsBalanced k fuel ms slot k.mode
