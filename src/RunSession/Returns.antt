-- ===== src/RunSession/Returns.antt =====
-- A session returns, whatever the driver answers.
use qdplay.Prelude.{
  ℕ, zero, suc, ◌+◌, ◌*◌, ◌≡◌, ◌≢◌, ◌≤◌, refl, Bool, Option, none, some, List, [], ◌∷◌, length,
  replicate, if◌then◌else◌, All, arith, if_intro,
}
use qdplay.Posix.{Outcome, done, failed}
use qdplay.Struct.{put_bytes}
use qdplay.Processor.{Io, Port, Call, MessageProcessor, return, write_bytes, read_some, ◌>>=◌}
use qdplay.Processor.Progress.{pending, arriving}
use qdplay.Processor.Draining.{
  Sober, Sober-return, Sober-bind, Sober-write_bytes, Sober-read_some, Drains,
}
use qdplay.RunSession.{
  open_device, reset_state, app_status, is_nodev, repeat_hello, after_hello, first_probed,
  probe_reads, or_next, probe_all, unless_nodev, probe_protocol, probe_extra_reads, Ending, stopped,
  no_fuel,
}
use qdplay.RunSession.Loop.{session_loop-IsOver}
use qdplay.RunSession.Run.{
  Slot, Kernel, Ran, start, serve_session, result_of, with_device, with_mode, run_session,
}

-- What a session needs of a processor: its probe gives no byte back, and its `run` takes one at least
-- whenever it returns TRUE.
pub record Serves (m : MessageProcessor) : Type 0 where
  pub probes : (buffer : List ℕ) → Sober (m.probe buffer)
  pub runs : Drains m.run

-- A processor that is found is one of those.
abbrev IsServed : Option MessageProcessor → Type 0
IsServed none = Unit
IsServed (some m) = Serves m

-- What a probe finds, with no byte given back.
record Finds (io : Io (Option MessageProcessor)) : Type 0 where
  sober : Sober io
  served : (p : Port) → IsServed (io p).0

Finds-return : (o : Option MessageProcessor) → IsServed o → Finds (return o)
Finds-return o s = record { sober = Sober-return o; served = λ p. s }

Finds-bind {ℓ} :
    {A : Type ℓ} {io : Io A} {next : A → Io (Option MessageProcessor)}
    → Sober io
    → ((a : A) → Finds (next a))
    → Finds (io >>= next)
Finds-bind {A} {io} {next} first rest = record {
  sober = Sober-bind first (λ a. (rest a).sober);
  served = λ p. (rest (io p).0).served (io p).2;
}

Finds-first_probed :
    (buffer : List ℕ) (ms : List MessageProcessor) → All Serves ms → Finds (first_probed buffer ms)
unfolding first_probed
Finds-first_probed buffer [] all = Finds-return none tt
Finds-first_probed buffer (m ∷ ms) all =
    Finds-bind (all.0.probes buffer)
      (λ ok. if_intro Finds ok (Finds-return (some m) all.0) (Finds-first_probed buffer ms all.1))

Finds-or_next :
    (next : Io (Option MessageProcessor)) (o : Option MessageProcessor)
    → Finds next
    → IsServed o
    → Finds (or_next next o)
Finds-or_next next none found s = found
Finds-or_next next (some m) found s = Finds-return (some m) s

Finds-then :
    {io next : Io (Option MessageProcessor)} → Finds io → Finds next → Finds (io >>= or_next next)
Finds-then {io} {next} first rest = record {
  sober = record {
    kept = λ p. omega (
      arith,
      first.sober.kept p,
      (Finds-or_next next (io p).0 rest (first.served p)).sober.kept (io p).2,
    );
  };
  served = λ p. (Finds-or_next next (io p).0 rest (first.served p)).served (io p).2;
}

Finds-probe_all :
    (next : Io (Option MessageProcessor)) (ms : List MessageProcessor) (r : Option (List ℕ))
    → All Serves ms
    → Finds next
    → Finds (probe_all next ms r)
Finds-probe_all next ms none all rest = Finds-return none tt
Finds-probe_all next ms (some bytes) all rest =
    Finds-then (Finds-first_probed (put_bytes 0 bytes (replicate 512 0)) ms all) rest

Finds-unless :
    (stop : Port → Bool) (io : Io (Option MessageProcessor))
    → Finds io
    → Finds (λ p. if stop p then (none, [], p) else io p)
Finds-unless stop io found = record {
  sober = record {
    kept = λ p.
        if_intro (λ (r : Option MessageProcessor × List Call × Port). pending r.2 ≤ pending p)
          (stop p) (omega arith) (found.sober.kept p);
  };
  served = λ p.
      if_intro (λ (r : Option MessageProcessor × List Call × Port). IsServed r.0) (stop p) tt
        (found.served p);
}

Finds-probe_reads :
    (left : ℕ) (ms : List MessageProcessor) → All Serves ms → Finds (probe_reads left ms)
unfolding probe_reads
Finds-probe_reads zero ms all = Finds-return none tt
Finds-probe_reads (suc left) ms all =
    Finds-unless (λ p. p.session.stopping) (read_some 512 >>= probe_all (probe_reads left ms) ms)
      (Finds-bind (Sober-read_some 512)
        (λ r. Finds-probe_all (probe_reads left ms) ms r all (Finds-probe_reads left ms all)))

Sober-repeat_hello : (fuel now : ℕ) → Sober (repeat_hello fuel now)
unfolding repeat_hello
Sober-repeat_hello zero now = record { kept = λ p. omega arith }
Sober-repeat_hello (suc fuel) now =
    let again : Sober (write_bytes now app_status >>= unless_nodev (repeat_hello fuel now)) =
      Sober-bind (Sober-write_bytes now app_status)
        (λ r. if_intro Sober (is_nodev r) (Sober-repeat_hello fuel now) (Sober-return tt)) in
    record {
      kept = λ p.
          if_intro (λ (r : Unit {0} × List Call × Port). pending r.2 ≤ pending p) p.session.stopping
            (omega arith) (again.kept p);
    }

Sober-after_hello : (now : ℕ) (r : Outcome ℕ) → Sober (after_hello now r)
Sober-after_hello now (done n) = record { kept = λ p. omega arith }
Sober-after_hello now (failed e) = record {
  kept = λ p. (Sober-repeat_hello (suc (length p.writings)) now).kept p;
}

Finds-probe_protocol :
    (now : ℕ) (ms : List MessageProcessor) → All Serves ms → Finds (probe_protocol now ms)
unfolding probe_protocol
Finds-probe_protocol now ms all =
    Finds-bind (Sober-bind (Sober-write_bytes now app_status) (Sober-after_hello now)) (λ ok.
      if_intro Finds ok (Finds-probe_reads (suc probe_extra_reads) ms all) (Finds-return none tt))

serve_session-returns :
    (fuel : ℕ) (o : Option MessageProcessor) (p : Port)
    → IsServed o
    → pending p * 20 + 20 ≤ fuel
    → (serve_session fuel o p).0 ≢ no_fuel
serve_session-returns fuel none p s room = λ e. cc
serve_session-returns fuel (some m) p s room =
    if_intro (λ (r : Ending × List Call × Port). r.0 ≢ no_fuel) p.session.stopping (λ e. cc)
      (session_loop-IsOver m (start m p) fuel s.runs (omega (arith, room))).0

result_of-returns : (e : Ending) → e ≢ no_fuel → result_of e ≡ some (done 0)
result_of-returns stopped over = refl
result_of-returns Ending.link_lost over = refl
result_of-returns Ending.too_many_errors over = refl
result_of-returns no_fuel over = absurd (over refl)

-- The session has a result.
abbrev pub Returns : Ran → Type 0
Returns ran = (r : Outcome ℕ) × (ran.0 ≡ some r)

with_device-Returns :
    (k : Kernel) (fuel : ℕ) (ms : List MessageProcessor) (slot : Slot) (fd : Outcome ℕ)
    → All Serves ms
    → arriving slot.port.readings * 20 + 20 ≤ fuel
    → Returns (with_device k fuel ms slot fd)
with_device-Returns k fuel ms slot (failed e) all room = (failed e, refl)
with_device-Returns k fuel ms slot (done fd) all room =
    let p = reset_state k.now slot.port in
    let found = Finds-probe_protocol k.now ms all in
    let kept : pending (probe_protocol k.now ms p).2 ≤ arriving slot.port.readings =
      omega (arith, found.sober.kept p) in
    if_intro Returns k.watchdog_starts
      (
        done 0,
        result_of-returns _ (
            serve_session-returns fuel (probe_protocol k.now ms p).0 (probe_protocol k.now ms p).2
              (found.served p) (omega (arith, kept, room))),
      )
      (_, refl)

with_mode-Returns :
    (k : Kernel) (fuel : ℕ) (ms : List MessageProcessor) (slot : Slot) (mode : Outcome ℕ)
    → All Serves ms
    → arriving slot.port.readings * 20 + 20 ≤ fuel
    → Returns (with_mode k fuel ms slot mode)
with_mode-Returns k fuel ms slot (failed e) all room = (failed e, refl)
with_mode-Returns k fuel ms slot (done n) all room =
    with_device-Returns k fuel ms slot (open_device k.opens) all room

-- A session returns a result, with processors whose probes give no byte of the driver back and whose
-- `run` takes one at least whenever it says that a message is handled: twenty turns of its loop for
-- every byte that the driver has, and twenty more, are enough.
pub run_session-Returns :
    (k : Kernel) (fuel : ℕ) (ms : List MessageProcessor) (slot : Slot)
    → All Serves ms
    → arriving slot.port.readings * 20 + 20 ≤ fuel
    → Returns (run_session k fuel ms slot)
unfolding run_session
run_session-Returns k fuel ms slot all room = with_mode-Returns k fuel ms slot k.mode all room
