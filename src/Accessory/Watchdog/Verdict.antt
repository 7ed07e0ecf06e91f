-- ===== src/Accessory/Watchdog/Verdict.antt =====
-- Which sessions the watchdog lets live.
use qdplay.Prelude.{
  ℕ, ◌+◌, ◌*◌, ◌≡◌, ◌⊎◌, refl, ◌≤◌, ◌<◌, ◌↔◌, subst, true, false, Option, none, some, ltb, leb,
  arith, Bool-cases, Option-cases, inl, inr,
}
use qdplay.Accessory.Watchdog.{
  Watch, write_hb_interval, connect_timeout, usec_per_sec, Beat, is_sent, not_sent, link_lost, tick,
}

-- The head unit was heard in time: since the start while there is no processor, and within the
-- processor's timeout after that.
abbrev pub InTime : ℕ → Watch → Option ℕ → Type 0
InTime now w none = now ≤ w.started_ts + connect_timeout
InTime now w (some sec) = now ≤ w.last_read_ts + sec * usec_per_sec

-- The session is not being stopped, has a video source and no link error, and its head unit was
-- heard in time.
abbrev pub IsAlive : ℕ → Watch → Type 0
IsAlive now w =
    (w.stopping ≡ false)
    × (w.has_source ≡ true)
    × (w.link_failed ≡ false)
    × InTime now w w.read_timeout_sec

Beat-cases : (b : Beat) → (b ≡ is_sent) ⊎ (b ≡ not_sent) ⊎ (b ≡ link_lost)
Beat-cases is_sent = inl refl
Beat-cases not_sent = inr (inl refl)
Beat-cases link_lost = inr (inr refl)

-- A turn of the watchdog lets exactly the sessions go on that are alive.
pub tick-IsAlive :
    (now : ℕ) (beat : Beat) (w : Watch) → ((tick now beat w).0.stopping ≡ false) ↔ IsAlive now w
unfolding tick
tick-IsAlive now beat w = elim (Bool-cases w.stopping) [
  | inl s ↦ rw (s, tick, IsAlive) (ground arith)
  | inr s ↦ elim (Bool-cases w.has_source) [
    | inr c ↦ rw (s, c, tick, IsAlive) (ground arith)
    | inl c ↦ elim (Bool-cases w.link_failed) [
      | inl l ↦ rw (s, c, l, tick, IsAlive) (ground arith)
      | inr l ↦ elim (Option-cases w.read_timeout_sec) [
        | inl e ↦ elim (Bool-cases (ltb (w.started_ts + connect_timeout) now)) [
          | inl late ↦ rw (s, c, l, e, late, tick, IsAlive) (ground arith)
          | inr early ↦ rw (s, c, l, e, early, tick, IsAlive) (ground arith)
        ]
        | inr (sec, e) ↦ elim (Bool-cases (ltb (w.last_read_ts + sec * usec_per_sec) now)) [
          | inl late ↦ rw (s, c, l, e, late, tick, IsAlive) (ground arith)
          | inr early ↦ elim (Bool-cases (leb (w.last_write_ts + write_hb_interval) now)) [
            | inl due ↦ elim (Beat-cases beat) [
              | inl b ↦ rw (s, c, l, e, early, due, b, tick, IsAlive) (ground arith)
              | inr (inl b) ↦ rw (s, c, l, e, early, due, b, tick, IsAlive) (ground arith)
              | inr (inr b) ↦ rw (s, c, l, e, early, due, b, tick, IsAlive) (ground arith)
            ]
            | inr fresh ↦ rw (s, c, l, e, early, fresh, tick, IsAlive) (ground arith)
          ]
        ]
      ]
    ]
  ]
]

-- When a turn of the watchdog lets a session with a processor go on, and the heartbeat is written if
-- one is due, the last write is less than three seconds ago.
pub tick-writes :
    (now sec : ℕ) (w : Watch)
    → w.read_timeout_sec ≡ some sec
    → (tick now is_sent w).0.stopping ≡ false
    → now < (tick now is_sent w).0.last_write_ts + write_hb_interval
unfolding tick
tick-writes now sec w running going =
    let (s, c, l, in_time) = (tick-IsAlive now is_sent w).0 going in
    let heard : now ≤ w.last_read_ts + sec * usec_per_sec = subst (InTime now w) running in_time in
    let early : ltb (w.last_read_ts + sec * usec_per_sec) now ≡ false = ground arith in
    elim (Bool-cases (leb (w.last_write_ts + write_hb_interval) now)) [
      | inl due ↦ rw (s, c, l, running, early, due, tick) (omega arith)
      | inr fresh ↦ rw (s, c, l, running, early, fresh, tick) (ground arith)
    ]
