-- ===== src/RunSession/Hello.antt =====
-- The first message is repeated once at most for every answer that the driver has.
use qdplay.Prelude.{
  ℕ, zero, suc, ◌+◌, ◌≡◌, ◌<◌, refl, ap, true, not, ◌||◌, List, [], ◌∷◌, ◌++◌, length, take, drop,
  if◌then◌else◌, arith, if_intro, Bool-cases, inl, inr,
}
use qdplay.Posix.{}
use qdplay.Accessory.{Session}
use qdplay.Accessory.Write.{
  Writing, accepted, interrupted, refused, Written, retries_write, write_all_locked, write,
}
use qdplay.Processor.{Port, Call, write_bytes}
use qdplay.RunSession.{app_status, is_nodev, unless_nodev, repeat_hello}

-- ENODEV takes one of the driver's answers.
abbrev Shrinks : ℕ → Written → Type 0
Shrinks before (r, sent, ws, s) = is_nodev r ≡ true → length ws < before

write_all_locked-Shrinks :
    (written : ℕ) (bytes : List ℕ) (ws : List Writing) (now : ℕ) (s : Session)
    → Shrinks (length ws) (write_all_locked written bytes ws now s)
unfolding write_all_locked
write_all_locked-Shrinks written [] ws now s = λ e. cc
write_all_locked-Shrinks written (b ∷ bs) [] now s = λ e. cc
write_all_locked-Shrinks written (b ∷ bs) (accepted zero ∷ ws) now s = λ e. cc
write_all_locked-Shrinks written (b ∷ bs) (accepted (suc n) ∷ ws) now s =
    let next = written + length (take (suc n) (b ∷ bs)) in
    let left = drop (suc n) (b ∷ bs) in
    λ e. omega (arith, write_all_locked-Shrinks next left ws now s e)
write_all_locked-Shrinks written (b ∷ bs) (interrupted ∷ ws) now s =
    λ e. omega (arith, write_all_locked-Shrinks written (b ∷ bs) ws now s e)
write_all_locked-Shrinks written (b ∷ bs) (refused e ∷ ws) now s =
    elim (Bool-cases (retries_write e s)) [
      | inl again ↦
          rw (again, write_all_locked)
            (λ e'. omega (arith, write_all_locked-Shrinks written (b ∷ bs) ws now s e'))
      | inr over ↦ rw (over, write_all_locked) (λ e'. omega arith)
    ]

write-Shrinks :
    (bytes : List ℕ) (ws : List Writing) (now : ℕ) (s : Session)
    → Shrinks (length ws) (write bytes ws now s)
unfolding write
write-Shrinks bytes ws now s =
    if_intro (Shrinks (length ws)) (not s.has_fd || s.stopping) (λ e. cc)
      (write_all_locked-Shrinks 0 bytes ws now s)

-- With more fuel than the driver has answers the loop that repeats the first message has ended: one
-- turn more changes nothing.
pub repeat_hello-enough :
    (fuel now : ℕ) (p : Port)
    → length p.writings < fuel
    → repeat_hello (suc fuel) now p ≡ repeat_hello fuel now p
unfolding repeat_hello
repeat_hello-enough zero now p room = absurd (omega arith)
repeat_hello-enough (suc fuel) now p room =
    let r = (write_bytes now app_status p).0 in
    let p' = (write_bytes now app_status p).2 in
    let shorter : is_nodev r ≡ true → length p'.writings < length p.writings =
      write-Shrinks app_status p.writings now p.session in
    let same : unless_nodev (repeat_hello (suc fuel) now) r p'
        ≡ unless_nodev (repeat_hello fuel now) r p' =
      elim (Bool-cases (is_nodev r)) [
        | inl again ↦
            rw again (repeat_hello-enough fuel now p' (omega (arith, shorter again, room)))
        | inr over ↦ rw over refl
      ] in
    ap
      (λ (t : Unit {0} × List Call × Port).
        if p.session.stopping
        then (tt, [], p)
        else (t.0, (write_bytes now app_status p).1 ++ t.1, t.2))
      same
