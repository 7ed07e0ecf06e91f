-- ===== src/Accessory.antt =====
-- src/usb_accessory/usb_active_accessory.c: the session with a head unit, as far as its reads and
-- writes use it. The driver's answers are arguments.
pub mod Read
pub mod Write
pub mod Watchdog
pub mod Tests
use qdplay.Prelude.{ℕ, ◌+◌, ◌*◌, ◌/◌, Bool, true, false, List}
use qdplay.Posix.{Errno, eio, enodev, eshutdown, epipe, econnreset}

-- `session_t`: whether `fd` is not negative, the flags, whether there is a processor, the part of
-- `bounce` from `bounce_pos` to `bounce_len`, the times, and the size of the send buffer.
pub record Session : Type 0 where
  pub has_fd : Bool
  pub stopping : Bool
  pub link_failed : Bool
  pub has_processor : Bool
  pub bounce : List ℕ
  pub last_read_ts : ℕ
  pub last_write_ts : ℕ
  pub send_buffer_size : ℕ

abbrev pub chunk_size : ℕ
chunk_size = 512

abbrev pub max_read_chunk : ℕ
max_read_chunk = 16384

-- `(len + 511) & ~511`, of a length that is far from 2^64.
abbrev pub round_up : ℕ → ℕ
round_up len = (len + 511) / 512 * 512

abbrev pub is_link_error : Session → Errno → Bool
is_link_error s enodev = s.has_processor
is_link_error s eio = true
is_link_error s eshutdown = true
is_link_error s epipe = true
is_link_error s econnreset = true
is_link_error s e = false

-- `if (is_link_error(err)) session.link_failed = TRUE`
abbrev pub note_error : Errno → Session → Session
note_error e s = elim (is_link_error s e) [ true ↦ record s { link_failed = true } | false ↦ s ]
