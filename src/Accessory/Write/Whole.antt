-- ===== src/Accessory/Write/Whole.antt =====
-- A message is written whole, or a part of it from its start and the writer is told.
use mathlib.Core.List.{append_assoc}
use qdplay.Prelude.{
  ℕ, zero, suc, ◌+◌, ◌-◌, ◌%◌, ◌≡◌, ◌≤◌, ◌⊎◌, inl, inr, refl, ◌∙◌, ap, Bool, not, ◌||◌, List, [],
  ◌∷◌, ◌++◌, length, take, drop, replicate, ltb, All, arith, Bool-cases, length-append, length-drop,
  length-replicate,
}
use qdplay.Posix.{Errno, done, failed, enotconn, enomem}
use qdplay.Accessory.{Session, round_up}
use qdplay.Accessory.Write.{
  Writing, accepted, interrupted, refused, Written, more_sent, retries_write, write_all_locked,
  padded, write_with_padding_512,
}

-- All of `message` is written and its length is the result, or an error is, and what is written is
-- the start of `message`.
abbrev pub IsWhole : ℕ → List ℕ → Written → Type 0
IsWhole written message (r, sent, ws, s) =
    ((r ≡ done (written + length message)) × (sent ≡ message))
    ⊎ ((e : Errno) × (rest : List ℕ) × (r ≡ failed e) × (sent ++ rest ≡ message))

take-append-drop : (n : ℕ) (xs : List ℕ) → take n xs ++ drop n xs ≡ xs
take-append-drop zero xs = refl
take-append-drop (suc n) [] = refl
take-append-drop (suc n) (x ∷ xs) = ap (◌∷◌ x) (take-append-drop n xs)

more_sent-IsWhole :
    (n written : ℕ) (message : List ℕ) (w : Written)
    → IsWhole (written + length (take n message)) (drop n message) w
    → IsWhole written message (more_sent (take n message) w)
more_sent-IsWhole n written message (r, sent, ws, s) (inl (e, all)) =
    let split : take n message ++ drop n message ≡ message = take-append-drop n message in
    let total : written + length (take n message) + length (drop n message)
        ≡ written + length message =
      omega (arith, length-append (take n message) (drop n message), ap length split) in
    inl (e ∙ ap done total, ap (◌++◌ (take n message)) all ∙ split)
more_sent-IsWhole n written message (r, sent, ws, s) (inr (e, rest, f, part)) = inr (
  e,
  rest,
  f,
  append_assoc (take n message) sent rest
      ∙ ap (◌++◌ (take n message)) part
      ∙ take-append-drop n message,
)

write_all_locked-IsWhole :
    (written : ℕ) (message : List ℕ) (ws : List Writing) (now : ℕ) (s : Session)
    → IsWhole written message (write_all_locked written message ws now s)
unfolding write_all_locked
write_all_locked-IsWhole written [] ws now s = inl (ap done (omega arith), refl)
write_all_locked-IsWhole written (b ∷ bs) [] now s = inr (_, b ∷ bs, refl, refl)
write_all_locked-IsWhole written (b ∷ bs) (accepted zero ∷ ws) now s = inr (_, b ∷ bs, refl, refl)
write_all_locked-IsWhole written (b ∷ bs) (accepted (suc n) ∷ ws) now s =
    let next = written + length (take (suc n) (b ∷ bs)) in
    let left = drop (suc n) (b ∷ bs) in
    more_sent-IsWhole (suc n) written (b ∷ bs) (write_all_locked next left ws now s)
      (write_all_locked-IsWhole next left ws now s)
write_all_locked-IsWhole written (b ∷ bs) (interrupted ∷ ws) now s =
    write_all_locked-IsWhole written (b ∷ bs) ws now s
write_all_locked-IsWhole written (b ∷ bs) (refused e ∷ ws) now s =
    elim (Bool-cases (retries_write e s)) [
      | inl again ↦
          rw (again, write_all_locked) (write_all_locked-IsWhole written (b ∷ bs) ws now s)
      | inr over ↦ rw (over, write_all_locked) (inr (e, b ∷ bs, refl, refl))
    ]

-- The padded length is a multiple of 512, less than 512 beyond that of header and body.
pub length-padded :
    (header body : List ℕ) → length (padded header body) ≡ round_up (length header + length body)
length-padded header body =
    let full = length header + length body in
    omega (
      arith,
      length-append header (body ++ replicate (round_up full - full) 0),
      length-append body (replicate (round_up full - full) 0),
      length-replicate {A = ℕ} (round_up full - full) 0,
    )

-- Header, body and padding are written whole and their number is the result, a multiple of 512; or an
-- error is, and what is written is the start of them.
abbrev pub IsPadded : List ℕ → List ℕ → Written → Type 0
IsPadded header body (r, sent, ws, s) =
    ((r ≡ done (length sent)) × (sent ≡ padded header body) × (length sent % 512 ≡ 0))
    ⊎ ((e : Errno) × (rest : List ℕ) × (r ≡ failed e) × (sent ++ rest ≡ padded header body))

IsWhole-IsPadded :
    (header body : List ℕ) (w : Written) → IsWhole 0 (padded header body) w → IsPadded header body w
IsWhole-IsPadded header body (r, sent, ws, s) (inl (e, all)) =
    let size : length sent ≡ round_up (length header + length body) =
      ap length all ∙ length-padded header body in
    inl (e ∙ ap done (omega (arith, ap length all)), all, omega (arith, size))
IsWhole-IsPadded header body (r, sent, ws, s) (inr part) = inr part

-- Whatever the driver answers, `usb_active_accessory_write_with_padding_512` has written header, body
-- and zeros up to a multiple of 512 bytes and returns their number, or it returns an error and what
-- it has written is a start of them.
pub write_with_padding_512-IsPadded :
    (memory : ℕ → Bool) (header body : List ℕ) (ws : List Writing) (now : ℕ) (s : Session)
    → IsPadded header body (write_with_padding_512 memory header body ws now s)
unfolding write_with_padding_512
write_with_padding_512-IsPadded memory header body ws now s =
    let chunked = round_up (length header + length body) in
    let message = padded header body in
    let grown : Session = record s { send_buffer_size = chunked } in
    elim (Bool-cases (not s.has_fd || s.stopping)) [
      | inl off ↦ rw (off, write_with_padding_512) (inr (enotconn, message, refl, refl))
      | inr on ↦ elim (Bool-cases (ltb s.send_buffer_size chunked)) [
        | inr room ↦
            rw (on, room, write_with_padding_512)
              (IsWhole-IsPadded header body (write_all_locked 0 message ws now s)
                (write_all_locked-IsWhole 0 message ws now s))
        | inl small ↦ elim (Bool-cases (memory chunked)) [
          | inl had ↦
              rw (on, small, had, write_with_padding_512)
                (IsWhole-IsPadded header body (write_all_locked 0 message ws now grown)
                  (write_all_locked-IsWhole 0 message ws now grown))
          | inr lacks ↦
              rw (on, small, lacks, write_with_padding_512) (inr (enomem, message, refl, refl))
        ]
      ]
    ]

-- The driver takes some bytes, or a signal interrupts it while the session goes on.
abbrev pub IsWilling : Writing → Type 0
IsWilling (accepted n) = 1 ≤ n
IsWilling interrupted = Unit
IsWilling (refused e) = ⊥

-- How many bytes the driver takes.
unfoldable pub taken : List Writing → ℕ
taken [] = 0
taken (accepted n ∷ ws) = n + taken ws
taken (_ ∷ ws) = taken ws

-- However the driver splits the writes of a message up, it is written whole, if the driver takes as
-- many bytes as the message has.
pub write_all_locked-done :
    (written : ℕ) (message : List ℕ) (ws : List Writing) (now : ℕ) (s : Session)
    → All IsWilling ws
    → length message ≤ taken ws
    → let (r, sent, _, _) = write_all_locked written message ws now s in
      (r ≡ done (written + length message)) × (sent ≡ message)
unfolding write_all_locked taken
write_all_locked-done written [] ws now s all enough = (ap done (omega arith), refl)
write_all_locked-done written (b ∷ bs) [] now s all enough = absurd (omega arith)
write_all_locked-done written (b ∷ bs) (accepted zero ∷ ws) now s all enough =
    absurd (omega (arith, all.0))
write_all_locked-done written (b ∷ bs) (accepted (suc n) ∷ ws) now s all enough =
    let first = take (suc n) (b ∷ bs) in
    let left = drop (suc n) (b ∷ bs) in
    let split : first ++ left ≡ b ∷ bs = take-append-drop (suc n) (b ∷ bs) in
    let total : written + length first + length left ≡ written + suc (length bs) =
      omega (arith, length-append first left, ap length split) in
    let (r, sent) =
      write_all_locked-done (written + length first) left ws now s all.1
        (omega (arith, length-drop (suc n) (b ∷ bs))) in
    (r ∙ ap done total, ap (◌++◌ first) sent ∙ split)
write_all_locked-done written (b ∷ bs) (interrupted ∷ ws) now s all enough =
    write_all_locked-done written (b ∷ bs) ws now s all.1 enough
write_all_locked-done written (b ∷ bs) (refused e ∷ ws) now s all enough = absurd all.0
