-- ===== src/RunSession/Loop.antt =====
-- The session ends: a processor that says TRUE has taken bytes, and twenty times FALSE in a row is
-- too much.
use qdplay.Prelude.{
  ℕ, zero, suc, ◌+◌, ◌-◌, ◌*◌, ◌≡◌, ◌≢◌, ◌≤◌, ◌<◌, refl, Bool, true, false, ◌||◌, List, leb, arith,
  Bool-cases, inl, inr,
}
use qdplay.Processor.{Io, Port, Call, MessageProcessor}
use qdplay.Processor.Draining.{Drains}
use qdplay.Processor.Progress.{pending}
use qdplay.RunSession.{Ending, no_fuel, session_loop, after_run, max_protocol_errors}

-- The turns that are left at most: twenty for every byte that the driver has, and those up to the
-- limit of errors.
abbrev pub turns : ℕ → Port → ℕ
turns errors p = pending p * 20 + (20 - errors)

-- The loop has ended, and the session is stopped or its link is lost.
abbrev pub IsOver : Ending × List Call × Port → Type 0
IsOver (e, cs, p) = (e ≢ no_fuel) × (p.session.link_failed || p.session.stopping ≡ true)

after_run-IsOver :
    (fuel errors : ℕ) (next : ℕ → Io Ending) (ok : Bool) (p : Port) (before : ℕ)
    → errors < 20
    → pending p ≤ before
    → (ok ≡ true → pending p < before)
    → before * 20 + (20 - errors) ≤ suc fuel
    → ((errors' : ℕ) → errors' < 20 → turns errors' p ≤ fuel → IsOver (next errors' p))
    → IsOver (after_run next errors ok p)
after_run-IsOver fuel errors next true p before few kept took room step =
    step 0 (omega arith) (omega (arith, took refl))
after_run-IsOver fuel errors next false p before few kept took room step =
    elim (Bool-cases (p.session.link_failed || p.session.stopping)) [
      | inl over ↦ elim (Bool-cases p.session.link_failed) [
        | inl lost ↦ rw (over, lost, after_run) ((λ e. cc), refl)
        | inr kept' ↦ rw (over, kept', after_run) ((λ e. cc), ground arith)
      ]
      | inr on ↦ elim (Bool-cases (leb max_protocol_errors (suc errors))) [
        | inl many ↦ rw (on, many, after_run) ((λ e. cc), ground arith)
        | inr some_left ↦
            rw (on, some_left, after_run) (step (suc errors) (ground arith) (ground arith))
      ]
    ]

session_loop-turns :
    (fuel errors : ℕ) (m : MessageProcessor) (p : Port)
    → Drains m.run
    → errors < 20
    → turns errors p ≤ fuel
    → IsOver (session_loop fuel m errors p)
unfolding session_loop
session_loop-turns zero errors m p d few room = absurd (omega arith)
session_loop-turns (suc fuel) errors m p d few room = elim (Bool-cases p.session.stopping) [
  | inl stop ↦ rw (stop, session_loop) ((λ e. cc), ground arith)
  | inr go ↦
      rw (go, session_loop)
        (after_run-IsOver fuel errors (session_loop fuel m) (m.run p).0 (m.run p).2 (pending p) few
          (d.sober.kept p) (d.takes p) room
          (λ errors' few' room'. session_loop-turns fuel errors' m (m.run p).2 d few' room'))
]

-- The loop of the session ends, with a processor that takes a byte at least whenever it says that a
-- message is handled and never gives one back: twenty turns for every byte that the driver has, and
-- twenty more, are enough. The session is then stopped or its link is lost.
pub session_loop-IsOver :
    (m : MessageProcessor) (p : Port) (fuel : ℕ)
    → Drains m.run
    → turns 0 p ≤ fuel
    → IsOver (session_loop fuel m 0 p)
session_loop-IsOver m p fuel d room = session_loop-turns fuel 0 m p d (omega arith) room
