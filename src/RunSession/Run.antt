-- ===== src/RunSession/Run.antt =====
-- `usb_active_accessory_run_session` as a whole, with the calls that it makes in order.
use qdplay.Prelude.{
  ℕ, Bool, true, false, Option, none, some, List, [], ◌∷◌, ◌++◌, map, if◌then◌else◌,
}
use qdplay.Posix.{eagain, Outcome, done, failed}
use qdplay.Processor.{Io, Port, Call, MessageProcessor, ◌>>=◌}
use qdplay.RunSession.{
  open_device, reset_state, request_stop, probe_protocol, Ending, stopped, no_fuel, session_loop,
}

-- `session_phase_t`
pub data Phase : Type 0 where
  session_idle session_connecting session_running : Phase

-- `session.fd`, where `none` is -1, `session.phase`, and the rest.
pub record Slot : Type 0 where
  pub fd : Option ℕ
  pub phase : Phase
  pub port : Port

-- The answers of `usb_accessory_set_mode` and `open`, whether the watchdog starts, and the time.
pub record Kernel : Type 0 where
  pub mode : Outcome ℕ
  pub opens : ℕ → Outcome ℕ
  pub watchdog_starts : Bool
  pub now : ℕ

-- `usb_accessory_set_mode` that succeeds, or that fails; the descriptor, what the processors do, and the
-- calls of the teardown.
pub data Event : Type 0 where
  presents_gadget : Event
  fails_to_present : Event
  opened : ℕ → Event
  does : Call → Event
  deactivates_receiver : Event
  disables_gadget : Event
  joins_watchdog : Event
  closes : ℕ → Event

-- The result, `none` when the fuel of the loop is used up; the calls; the session afterwards.
abbrev pub Ran : Type 0
Ran = Option (Outcome ℕ) × List Event × Slot

-- `session.processor = processor`
abbrev pub start : MessageProcessor → Port → Port
start m p = record p { session = record p.session { has_processor = true } }

-- With what `probe_protocol` has found.
abbrev pub serve_session : ℕ → Option MessageProcessor → Io Ending
serve_session fuel none p = (stopped, [], request_stop p)
serve_session fuel (some m) p =
    if p.session.stopping then (stopped, [], p) else session_loop fuel m 0 (start m p)

-- What the caller sees of an ending.
abbrev pub result_of : Ending → Option (Outcome ℕ)
result_of no_fuel = none
result_of _ = some (done 0)

-- `session.fd = -1`, with `session.processor = NULL`.
abbrev pub released : Port → Slot
released p = record {
  fd = none;
  phase = session_idle;
  port = record p { session = record p.session { has_fd = false; has_processor = false } };
}

-- The teardown, whatever the session has done.
abbrev pub tear_down : ℕ → Ending × List Call × Port → Ran
tear_down fd (e, cs, p) = (
  result_of e,
  presents_gadget
      ∷ opened fd
      ∷ (map does cs ++ (deactivates_receiver ∷ disables_gadget ∷ joins_watchdog ∷ closes fd ∷ [])),
  released (request_stop p),
)

-- With the descriptor, or the error of `open_device`.
abbrev pub with_device : Kernel → ℕ → List MessageProcessor → Slot → Outcome ℕ → Ran
with_device k fuel ms slot (failed e) =
    (some (failed e), presents_gadget ∷ disables_gadget ∷ [], slot)
with_device k fuel ms slot (done fd) =
    if k.watchdog_starts
    then tear_down fd
        ((probe_protocol k.now ms >>= serve_session fuel) (reset_state k.now slot.port))
    else (
      some (failed eagain),
      presents_gadget ∷ opened fd ∷ closes fd ∷ disables_gadget ∷ [],
      released (reset_state k.now slot.port),
    )

abbrev pub with_mode : Kernel → ℕ → List MessageProcessor → Slot → Outcome ℕ → Ran
with_mode k fuel ms slot (failed e) = (some (failed e), fails_to_present ∷ [], slot)
with_mode k fuel ms slot (done _) = with_device k fuel ms slot (open_device k.opens)

-- `usb_active_accessory_run_session`
unfoldable pub run_session : Kernel → ℕ → List MessageProcessor → Slot → Ran
run_session k fuel ms slot = with_mode k fuel ms slot k.mode
