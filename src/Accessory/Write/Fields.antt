-- ===== src/Accessory/Write/Fields.antt =====
-- What the writes leave of the session: a field that neither an error, the time of the last write nor
-- the size of the send buffer touches.
use qdplay.Prelude.{
  ℕ, zero, suc, ◌+◌, ◌≡◌, refl, ◌∙◌, Bool, true, Bool-cases, inl, inr, not, ◌||◌, List, [], ◌∷◌,
  length, take, drop, ltb, if_intro,
}
use qdplay.Posix.{Errno, eio}
use qdplay.Accessory.{Session, round_up, is_link_error, note_error}
use qdplay.Accessory.Write.{
  Writing, accepted, refused, interrupted, Written, retries_write, write, write_all_locked, padded,
  write_with_padding_512,
}

-- A view of the session that the writes' changes leave as it is.
pub record IsUntouched {A : Type 0} (f : Session → A) : Type 0 where
  pub lost : (s : Session) → f (record s { link_failed = true }) ≡ f s
  pub written_at : (s : Session) (now : ℕ) → f (record s { last_write_ts = now }) ≡ f s
  pub grown : (s : Session) (size : ℕ) → f (record s { send_buffer_size = size }) ≡ f s

pub stopping-IsUntouched : IsUntouched (λ s. s.stopping)
stopping-IsUntouched = record {
  lost = λ s. refl;
  written_at = λ s now. refl;
  grown = λ s size. refl;
}

pub bounce-IsUntouched : IsUntouched (λ s. length s.bounce)
bounce-IsUntouched = record { lost = λ s. refl; written_at = λ s now. refl; grown = λ s size. refl }

pub note_error-field :
    {A : Type 0} (f : Session → A)
    → IsUntouched f
    → (e : Errno) (s : Session) → f (note_error e s) ≡ f s
note_error-field f u e s = elim (Bool-cases (is_link_error s e)) [
  | inl lost ↦ rw (lost, note_error) (u.lost s)
  | inr kept ↦ rw (kept, note_error) refl
]

write_all_locked-field :
    {A : Type 0} (f : Session → A)
    → IsUntouched f
    → (written : ℕ) (bytes : List ℕ) (ws : List Writing) (now : ℕ) (s : Session)
    → f (write_all_locked written bytes ws now s).3 ≡ f s
unfolding write_all_locked
write_all_locked-field f u written [] ws now s = u.written_at s now
write_all_locked-field f u written (b ∷ bs) [] now s = note_error-field f u eio s
write_all_locked-field f u written (b ∷ bs) (accepted zero ∷ ws) now s = note_error-field f u eio s
write_all_locked-field f u written (b ∷ bs) (accepted (suc n) ∷ ws) now s =
    write_all_locked-field f u (written + length (take (suc n) (b ∷ bs))) (drop (suc n) (b ∷ bs)) ws
      now s
write_all_locked-field f u written (b ∷ bs) (interrupted ∷ ws) now s =
    write_all_locked-field f u written (b ∷ bs) ws now s
write_all_locked-field f u written (b ∷ bs) (refused e ∷ ws) now s =
    elim (Bool-cases (retries_write e s)) [
      | inl again ↦
          rw (again, write_all_locked) (write_all_locked-field f u written (b ∷ bs) ws now s)
      | inr over ↦ rw (over, write_all_locked) (note_error-field f u e s)
    ]

pub write-field :
    {A : Type 0} (f : Session → A)
    → IsUntouched f
    → (bytes : List ℕ) (ws : List Writing) (now : ℕ) (s : Session)
    → f (write bytes ws now s).3 ≡ f s
unfolding write
write-field f u bytes ws now s =
    if_intro (λ (w : Written). f w.3 ≡ f s) (not s.has_fd || s.stopping) refl
      (write_all_locked-field f u 0 bytes ws now s)

pub write_with_padding_512-field :
    {A : Type 0} (f : Session → A)
    → IsUntouched f
    → (memory : ℕ → Bool) (header body : List ℕ) (ws : List Writing) (now : ℕ) (s : Session)
    → f (write_with_padding_512 memory header body ws now s).3 ≡ f s
unfolding write_with_padding_512
write_with_padding_512-field f u memory header body ws now s =
    let P = λ (w : Written). f w.3 ≡ f s in
    let chunked = round_up (length header + length body) in
    let grown : Session = record s { send_buffer_size = chunked } in
    if_intro P (not s.has_fd || s.stopping) refl (
      if_intro P (ltb s.send_buffer_size chunked)
        (if_intro P (memory chunked)
          (write_all_locked-field f u 0 (padded header body) ws now grown ∙ u.grown s chunked) refl)
        (write_all_locked-field f u 0 (padded header body) ws now s))
