-- ===== src/Accessory/Write.antt =====
-- usb_active_accessory.c: `write_all_locked`, `usb_active_accessory_write` and
-- `usb_active_accessory_write_with_padding_512`. A writer holds the lock from the first byte to the
-- last, so one call is one step.
pub mod Whole
pub mod Fields
use qdplay.Prelude.{
  ℕ, zero, suc, ◌+◌, ◌-◌, Bool, true, false, not, ◌||◌, List, [], ◌∷◌, ◌++◌, length, take, drop,
  replicate, ltb, ◌==◌, if◌then◌else◌,
}
use qdplay.Posix.{Errno, eintr, eio, enotconn, enomem, Outcome, done, failed}
use qdplay.Accessory.{Session, round_up, note_error}

-- What a `write` of the driver does: it takes so many bytes, or all if there are fewer; a signal
-- interrupts it while the session goes on; or it fails, with EINTR too.
pub data Writing : Type 0 where
  accepted : ℕ → Writing
  interrupted : Writing
  refused : Errno → Writing

-- The result, the bytes that the driver has taken, its answers that are left, and the session.
abbrev pub Written : Type 0
Written = Outcome ℕ × List ℕ × List Writing × Session

abbrev pub more_sent : List ℕ → Written → Written
more_sent bytes (r, sent, ws, s) = (r, bytes ++ sent, ws, s)

-- `errno == EINTR && !session_stopping()`
abbrev pub retries_write : Errno → Session → Bool
retries_write eintr s = not s.stopping
retries_write e s = false

-- `write_all_locked`, with `written` and the bytes behind them. Behind the answers that are given, the
-- driver fails with EIO. `now` is the time at the end.
unfoldable pub write_all_locked : ℕ → List ℕ → List Writing → ℕ → Session → Written
write_all_locked written [] ws now s = (done written, [], ws, record s { last_write_ts = now })
write_all_locked written (b ∷ bs) [] now s = (failed eio, [], [], note_error eio s)
write_all_locked written (b ∷ bs) (accepted zero ∷ ws) now s =
    (failed eio, [], ws, note_error eio s)
write_all_locked written (b ∷ bs) (accepted (suc n) ∷ ws) now s =
    more_sent (take (suc n) (b ∷ bs))
      (write_all_locked (written + length (take (suc n) (b ∷ bs))) (drop (suc n) (b ∷ bs)) ws now s)
write_all_locked written (b ∷ bs) (interrupted ∷ ws) now s =
    write_all_locked written (b ∷ bs) ws now s
write_all_locked written (b ∷ bs) (refused e ∷ ws) now s = elim (retries_write e s) [
  | true ↦ write_all_locked written (b ∷ bs) ws now s
  | false ↦ (failed e, [], ws, note_error e s)
]

-- `usb_active_accessory_write`
unfoldable pub write : List ℕ → List Writing → ℕ → Session → Written
write bytes ws now s =
    if not s.has_fd || s.stopping
    then (failed enotconn, [], ws, s)
    else write_all_locked 0 bytes ws now s

-- Header and body, filled up with zeros.
abbrev pub padded : List ℕ → List ℕ → List ℕ
padded header body =
    let full = length header + length body in header ++ (body ++ replicate (round_up full - full) 0)

-- `usb_active_accessory_write_with_padding_512`. `memory` says whether a buffer of a size can be had.
unfoldable pub write_with_padding_512 :
    (ℕ → Bool) → List ℕ → List ℕ → List Writing → ℕ → Session → Written
write_with_padding_512 memory header body ws now s =
    let chunked = round_up (length header + length body) in
    if not s.has_fd || s.stopping
    then (failed enotconn, [], ws, s)
    else if ltb s.send_buffer_size chunked
    then (if memory chunked
        then write_all_locked 0 (padded header body) ws now
            (record s { send_buffer_size = chunked })
        else (failed enomem, [], ws, s))
    else write_all_locked 0 (padded header body) ws now s
