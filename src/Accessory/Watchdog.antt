-- ===== src/Accessory/Watchdog.antt =====
-- usb_active_accessory.c: `watchdog_thread`, which stops a session that is lost and keeps a silent one
-- alive by heartbeats.
pub mod Verdict
use qdplay.Prelude.{
  ℕ, ◌+◌, ◌*◌, Bool, true, false, not, ◌||◌, Option, none, some, List, [], ◌∷◌, ◌++◌, ltb, leb,
  if◌then◌else◌,
}

-- Microseconds: USB_ACTIVE_ACCESSORY_WRITE_HB_INTERVAL_US, _CONNECT_TIMEOUT_US and G_USEC_PER_SEC.
abbrev pub write_hb_interval : ℕ
write_hb_interval = 3000000

abbrev pub connect_timeout : ℕ
connect_timeout = 10000000

abbrev pub usec_per_sec : ℕ
usec_per_sec = 1000000

-- What the watchdog reads: the flags and times of the session, whether a video source is connected,
-- and the `read_timeout_sec` of the processor, if there is one.
pub record Watch : Type 0 where
  pub stopping : Bool
  pub link_failed : Bool
  pub has_source : Bool
  pub read_timeout_sec : Option ℕ
  pub started_ts : ℕ
  pub last_read_ts : ℕ
  pub last_write_ts : ℕ

-- The calls that it makes.
pub data Duty : Type 0 where
  request_stop : Duty
  write_hb : Duty
  disable_gadget : Duty
  wake_reader : Duty

-- The watchdog's branches while the session is not being stopped; `now - ts > t` is written as
-- `ts + t < now`.
abbrev pub first_duty : ℕ → Watch → Option Duty
first_duty now w =
    if not w.has_source || w.link_failed then some request_stop else elim w.read_timeout_sec [
      | none ↦ if ltb (w.started_ts + connect_timeout) now then some request_stop else none
      | some sec ↦
          if ltb (w.last_read_ts + sec * usec_per_sec) now
          then some request_stop
          else if leb (w.last_write_ts + write_hb_interval) now
          then some write_hb
          else none
    ]

-- What a heartbeat that is due comes to: it is written; or it is not, and the error may be one of the
-- link, which the write notes.
pub data Beat : Type 0 where
  is_sent not_sent link_lost : Beat

-- The state after the first call.
abbrev pub after_duty : ℕ → Beat → Option Duty → Watch → Watch
after_duty now beat none w = w
after_duty now beat (some request_stop) w = record w { stopping = true }
after_duty now is_sent (some write_hb) w = record w { last_write_ts = now }
after_duty now link_lost (some write_hb) w = record w { link_failed = true }
after_duty now beat (some _) w = w

abbrev pub calls_of : Option Duty → List Duty
calls_of none = []
calls_of (some d) = d ∷ []

-- One turn of the loop, in which no other thread stops the session.
unfoldable pub tick : ℕ → Beat → Watch → Watch × List Duty
tick now beat w =
    let duty = first_duty now w in
    let w' = after_duty now beat duty w in
    if w.stopping
    then (w, wake_reader ∷ [])
    else (w', calls_of duty ++ (if w'.stopping then disable_gadget ∷ wake_reader ∷ [] else []))
