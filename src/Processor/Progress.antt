-- ===== src/Processor/Progress.antt =====
-- The bytes that the driver still has for a processor never grow, and a read that returns some takes
-- them.
use qdplay.Prelude.{
  ℕ, Bool, zero, suc, ◌+◌, ◌-◌, ◌≡◌, ◌≤◌, not, ◌||◌, List, [], ◌∷◌, ◌++◌, length, ltb, leb, ◌==◌,
  min, arith, Bool-cases, inl, inr, if_intro, length-take, length-drop,
}
use qdplay.Posix.{Outcome, Errno, done, failed}
use qdplay.Accessory.{Session, max_read_chunk, round_up, note_error}
use qdplay.Accessory.Read.{
  Reading, arrived, interrupted, woken, broke, fetch, read, hand_out, after_fetch, Tail, tail_loop,
  read_message_tail, after_read,
}
use qdplay.Accessory.Write.{Writing, write, write_with_padding_512}
use qdplay.Accessory.Write.Fields.{
  bounce-IsUntouched, note_error-field, write-field, write_with_padding_512-field,
}
use qdplay.Processor.{Port}

-- The bytes that the driver has.
unfoldable pub arriving : List Reading → ℕ
arriving [] = 0
arriving (arrived bytes now ∷ rs) = length bytes + arriving rs
arriving (_ ∷ rs) = arriving rs

-- With the part of a transfer that is not handed out.
abbrev pub pending_in : List Reading → Session → ℕ
pending_in rs s = length s.bounce + arriving rs

abbrev pub pending : Port → ℕ
pending p = pending_in p.readings p.session

note_error-bounce : (e : Errno) (s : Session) → length (note_error e s).bounce ≡ length s.bounce
note_error-bounce = note_error-field (λ s. length s.bounce) bounce-IsUntouched

-- No byte is added.
abbrev pub Keeps {ℓ} : {A : Type ℓ} → ℕ → A × List Reading × Session → Type 0
Keeps before (_, rs, s) = pending_in rs s ≤ before

fetch-Keeps :
    (request : ℕ) (rs : List Reading) (s : Session) → Keeps (pending_in rs s) (fetch request rs s)
unfolding fetch arriving
fetch-Keeps request [] s = omega arith
fetch-Keeps request (arrived bytes now ∷ rs) s = omega (arith, length-take request bytes)
fetch-Keeps request (interrupted ∷ rs) s = fetch-Keeps request rs s
fetch-Keeps request (woken ∷ rs) s = omega arith
fetch-Keeps request (broke e ∷ rs) s = omega (arith, note_error-bounce e s)

-- What a read returns is taken from the pending bytes.
abbrev pub Takes : ℕ → Outcome (List ℕ) × List Reading × Session → Type 0
Takes before (done bs, rs, s) = length bs + pending_in rs s ≤ before
Takes before (failed e, rs, s) = pending_in rs s ≤ before

hand_out-Takes :
    (len : ℕ) (rs : List Reading) (s : Session) (before : ℕ)
    → pending_in rs s ≤ before
    → Takes before (let (r, s') = hand_out len s in (r, rs, s'))
hand_out-Takes len rs s before kept =
    omega (arith, length-take len s.bounce, length-drop len s.bounce, kept)

after_fetch-Takes :
    (len before : ℕ) (f : Outcome (Unit {0}) × List Reading × Session)
    → Keeps before f
    → Takes before (after_fetch len f)
after_fetch-Takes len before (failed e, rs, s) kept = kept
after_fetch-Takes len before (done _, rs, s) kept = hand_out-Takes len rs s before kept

pub read-Takes :
    (len : ℕ) (rs : List Reading) (s : Session) → Takes (pending_in rs s) (read len rs s)
unfolding read
read-Takes len rs s =
    let P = Takes (pending_in rs s) in
    if_intro P (not s.has_fd || s.stopping) (omega arith) (
      if_intro P (len == 0) (omega arith) (
        if_intro P (ltb 0 (length s.bounce))
          (hand_out-Takes len rs s (pending_in rs s) (omega arith))
          (after_fetch-Takes len (pending_in rs s) (fetch (min (round_up len) max_read_chunk) rs s)
            (fetch-Keeps (min (round_up len) max_read_chunk) rs s))))

Takes-Keeps :
    (before : ℕ) (r : Outcome (List ℕ) × List Reading × Session) → Takes before r → Keeps before r
Takes-Keeps before (done bs, rs, s) taken = omega (arith, taken)
Takes-Keeps before (failed e, rs, s) taken = taken

after_read-Keeps :
    (before : ℕ) (next : List ℕ → List Reading → Session → Tail × List Reading × Session)
    (r : Outcome (List ℕ) × List Reading × Session)
    → ((bs : List ℕ) (rs : List Reading) (s : Session)
        → pending_in rs s ≤ before
        → Keeps before (next bs rs s))
    → Keeps before r
    → Keeps before (after_read next r)
after_read-Keeps before next (failed e, rs, s) step kept = kept
after_read-Keeps before next (done [], rs, s) step kept = kept
after_read-Keeps before next (done (b ∷ bs), rs, s) step kept = step (b ∷ bs) rs s kept

tail_loop-Keeps :
    (fuel required capacity before : ℕ) (buffer : List ℕ) (rs : List Reading) (s : Session)
    → pending_in rs s ≤ before
    → Keeps before (tail_loop fuel required capacity buffer rs s)
unfolding tail_loop
tail_loop-Keeps zero required capacity before buffer rs s kept = kept
tail_loop-Keeps (suc fuel) required capacity before buffer rs s kept =
    elim (Bool-cases (leb required (length buffer))) [
      | inl full ↦ rw (full, tail_loop) kept
      | inr more ↦
          let room = capacity - length buffer in
          let taken : Keeps (pending_in rs s) (read room rs s) =
            Takes-Keeps (pending_in rs s) (read room rs s) (read-Takes room rs s) in
          rw (more, tail_loop)
            (after_read-Keeps before
              (λ bs rs' s'. tail_loop fuel required capacity (buffer ++ bs) rs' s') (read room rs s)
              (λ bs rs' s' kept'.
                tail_loop-Keeps fuel required capacity before (buffer ++ bs) rs' s' kept')
              (omega (arith, taken, kept)))
    ]

pub read_message_tail-Keeps :
    (buffer : List ℕ) (required capacity : ℕ) (rs : List Reading) (s : Session)
    → Keeps (pending_in rs s) (read_message_tail buffer required capacity rs s)
unfolding read_message_tail
read_message_tail-Keeps buffer required capacity rs s =
    if_intro (Keeps (pending_in rs s)) (ltb capacity required) (omega arith)
      (tail_loop-Keeps (suc required) required capacity (pending_in rs s) buffer rs s (omega arith))

pub write-bounce :
    (bytes : List ℕ) (ws : List Writing) (now : ℕ) (s : Session)
    → length (write bytes ws now s).3.bounce ≡ length s.bounce
write-bounce = write-field (λ s. length s.bounce) bounce-IsUntouched

pub write_with_padding_512-bounce :
    (memory : ℕ → Bool) (header body : List ℕ) (ws : List Writing) (now : ℕ) (s : Session)
    → length (write_with_padding_512 memory header body ws now s).3.bounce ≡ length s.bounce
write_with_padding_512-bounce =
    write_with_padding_512-field (λ s. length s.bounce) bounce-IsUntouched
