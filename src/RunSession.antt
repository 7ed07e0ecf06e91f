-- ===== src/RunSession.antt =====
-- usb_active_accessory.c: `usb_active_accessory_run_session`, a session with a head unit from the
-- opening of the driver to the release of it. The watchdog's stop is seen where the session waits, in
-- its reads.
pub mod Opening
pub mod Hello
pub mod Loop
pub mod Run
pub mod Teardown
pub mod Returns
pub mod Processors
pub mod Tests
use qdplay.Prelude.{
  ℕ, zero, suc, ◌+◌, Bool, true, false, not, ◌&&◌, ◌||◌, Option, none, some, List, [], ◌∷◌, ◌++◌,
  length, replicate, leb, if◌then◌else◌,
}
use qdplay.Posix.{Errno, ebusy, enoent, enodev, eagain, Outcome, done, failed}
use qdplay.Struct.{fill, put_bytes}
use qdplay.Accessory.{Session}
use qdplay.Accessory.Write.{write}
use qdplay.Processor.{Io, Port, Call, MessageProcessor, return, ◌>>=◌, read_some, write_bytes}
use qdplay.MessagesV1.{app_status_response_init}

abbrev pub open_attempts : ℕ
open_attempts = 30

abbrev pub max_protocol_errors : ℕ
max_protocol_errors = 20

abbrev pub probe_extra_reads : ℕ
probe_extra_reads = 2

-- EBUSY, ENOENT and ENODEV are waited for.
abbrev pub is_retried : Outcome ℕ → Bool
is_retried (failed ebusy) = true
is_retried (failed enoent) = true
is_retried (failed enodev) = true
is_retried _ = false

-- The loop of `open_device` with the attempts that are left; `opens` has what each `open` returns.
unfoldable pub open_from : ℕ → ℕ → (ℕ → Outcome ℕ) → Outcome ℕ
open_from zero attempt opens = failed ebusy
open_from (suc left) attempt opens = elim (is_retried (opens attempt)) [
  | true ↦ open_from left (suc attempt) opens
  | false ↦ opens attempt
]

-- `open_device`
abbrev pub open_device : (ℕ → Outcome ℕ) → Outcome ℕ
open_device opens = open_from open_attempts 0 opens

-- `session_reset_state`, with the time.
abbrev pub reset_state : ℕ → Port → Port
reset_state now p = record p {
  session = record {
    has_fd = true;
    stopping = false;
    link_failed = false;
    has_processor = false;
    bounce = [];
    last_read_ts = now;
    last_write_ts = now;
    send_buffer_size = p.session.send_buffer_size;
  };
}

-- `session_request_stop`
abbrev pub request_stop : Port → Port
request_stop p = record p { session = record p.session { stopping = true } }

abbrev pub is_nodev : Outcome ℕ → Bool
is_nodev (failed enodev) = true
is_nodev _ = false

-- What the phone says first.
abbrev pub app_status : List ℕ
app_status = fill app_status_response_init (replicate 512 0)

abbrev pub unless_nodev : Io (Unit {0}) → Outcome ℕ → Io (Unit {0})
unless_nodev next r = if is_nodev r then next else return tt

-- The loop that repeats the first message while the head unit has not configured the accessory.
unfoldable pub repeat_hello : ℕ → ℕ → Io (Unit {0})
repeat_hello zero now p = (tt, [], p)
repeat_hello (suc fuel) now p =
    if p.session.stopping
    then (tt, [], p)
    else (write_bytes now app_status >>= unless_nodev (repeat_hello fuel now)) p

abbrev pub is_failed : Outcome ℕ → Bool
is_failed (failed e) = true
is_failed (done n) = false

-- Every repetition takes one of the driver's answers.
abbrev pub after_hello : ℕ → Outcome ℕ → Io Bool
after_hello now (done n) p = (true, [], p)
after_hello now (failed e) p =
    let (_, cs, p') = repeat_hello (suc (length p.writings)) now p in
    (not p'.session.stopping, cs, p')

-- The first message; FALSE if the session is stopped before it can be written.
abbrev pub say_hello : ℕ → Io Bool
say_hello now = write_bytes now app_status >>= after_hello now

-- The loop over the processors: the first whose probe says TRUE.
unfoldable pub first_probed : List ℕ → List MessageProcessor → Io (Option MessageProcessor)
first_probed buffer [] = return none
first_probed buffer (m ∷ ms) =
    m.probe buffer >>= λ ok. if ok then return (some m) else first_probed buffer ms

-- The processor that is found, or the next message.
abbrev pub or_next :
    Io (Option MessageProcessor) → Option MessageProcessor → Io (Option MessageProcessor)
or_next next none = next
or_next next (some m) = return (some m)

-- What is read fills the start of a cleared buffer of 512 bytes.
abbrev pub probe_all :
    Io (Option MessageProcessor)
    → List MessageProcessor
    → Option (List ℕ)
    → Io (Option MessageProcessor)
probe_all next ms none = return none
probe_all next ms (some bytes) =
    first_probed (put_bytes 0 bytes (replicate 512 0)) ms >>= or_next next

-- The loop over the first messages of the head unit, with the reads that are left.
unfoldable pub probe_reads : ℕ → List MessageProcessor → Io (Option MessageProcessor)
probe_reads zero ms p = (none, [], p)
probe_reads (suc left) ms p =
    if p.session.stopping
    then (none, [], p)
    else (read_some 512 >>= probe_all (probe_reads left ms) ms) p

-- `probe_protocol`
unfoldable pub probe_protocol : ℕ → List MessageProcessor → Io (Option MessageProcessor)
probe_protocol now ms =
    say_hello now >>= λ ok. if ok then probe_reads (suc probe_extra_reads) ms else return none

-- How the loop over `processor->run` ends. `no_fuel` is no ending of the code.
pub data Ending : Type 0 where
  stopped link_lost too_many_errors no_fuel : Ending

-- What is done when `processor->run` returns: `next` goes on with the protocol errors so far.
abbrev pub after_run : (ℕ → Io Ending) → ℕ → Bool → Io Ending
after_run next errors true p = next 0 p
after_run next errors false p = elim (p.session.link_failed || p.session.stopping) [
  | true ↦ (if p.session.link_failed then link_lost else stopped, [], p)
  | false ↦ elim (leb max_protocol_errors (suc errors)) [
    | true ↦ (too_many_errors, [], request_stop p)
    | false ↦ next (suc errors) p
  ]
]

-- The loop, with `protocol_errors`.
unfoldable pub session_loop : ℕ → MessageProcessor → ℕ → Io Ending
session_loop zero m errors p = (no_fuel, [], p)
session_loop (suc fuel) m errors p = elim p.session.stopping [
  | true ↦ (stopped, [], p)
  | false ↦ (m.run >>= after_run (session_loop fuel m) errors) p
]
