-- ===== src/ProcessorV2/Message/Whole.antt =====
-- A message is read whole, however its bytes arrive.
use qdplay.Prelude.{
  ℕ, zero, suc, ◌+◌, ◌-◌, ◌≡◌, ◌≤◌, ◌<◌, refl, sym, ◌∙◌, ap, Bool, true, false, not, ◌||◌, List, [],
  ◌∷◌, ◌++◌, length, get_or, take, drop, ltb, All, arith, Bool-cases, inl, inr, length-drop,
  get_or-append,
}
use qdplay.Words.{be16_at, be32_at}
use qdplay.Accessory.{Session, round_up}
use qdplay.Accessory.Read.{Reading, read_message_tail}
use qdplay.Accessory.Read.Lossless.{Live, IsPacket, ahead, Got, read_message_tail-Got}
use qdplay.ProcessorV2.Message.{
  header_len, has_mark, is_bad_size, split_message, after_tail, read_message,
}

take_within : (k : ℕ) (xs ys : List ℕ) → k ≤ length xs → take k (xs ++ ys) ≡ take k xs
take_within zero xs ys h = refl
take_within (suc k) [] ys h = absurd (omega arith)
take_within (suc k) (x ∷ xs) ys h = ap (◌∷◌ x) (take_within k xs ys (omega arith))

drop_within : (k : ℕ) (xs ys : List ℕ) → k ≤ length xs → drop k (xs ++ ys) ≡ drop k xs ++ ys
drop_within zero xs ys h = refl
drop_within (suc k) [] ys h = absurd (omega arith)
drop_within (suc k) (x ∷ xs) ys h = drop_within k xs ys (omega arith)

-- A field of the header, whatever stands behind the header.
size-append : (xs ys : List ℕ) → header_len ≤ length xs → be32_at (xs ++ ys) 4 ≡ be32_at xs 4
size-append xs ys head =
    let at = λ (i : ℕ) (h : i < 16). get_or-append xs ys i 0 (omega arith) in
    rw (at 4 (omega arith), at 5 (omega arith), at 6 (omega arith), at 7 (omega arith)) refl

-- What stands behind a whole message is not looked at.
split_message-append :
    (xs ys : List ℕ)
    → header_len ≤ length xs
    → be32_at xs 4 ≤ length xs
    → split_message (xs ++ ys) ≡ split_message xs
unfolding split_message
split_message-append xs ys head whole =
    let at : (i : ℕ) → i < 16 → get_or (xs ++ ys) i 0 ≡ get_or xs i 0 =
      λ i h. get_or-append xs ys i 0 (omega arith) in
    rw
      (
        at 4 (omega arith),
        at 5 (omega arith),
        at 6 (omega arith),
        at 7 (omega arith),
        at 8 (omega arith),
        at 9 (omega arith),
        at 10 (omega arith),
        at 11 (omega arith),
        at 13 (omega arith),
      )
      (elim (Bool-cases (ltb (be32_at xs 4 - header_len) (be16_at xs 8))) [
        | inl long ↦ rw long refl
        | inr fits ↦
            let inside : be16_at xs 8 ≤ be32_at xs 4 - header_len = ground arith in
            let cut : take (be32_at xs 4 - header_len - be16_at xs 8)
                  (drop (header_len + be16_at xs 8) (xs ++ ys))
                ≡ take (be32_at xs 4 - header_len - be16_at xs 8)
                    (drop (header_len + be16_at xs 8) xs) =
              ap (take (be32_at xs 4 - header_len - be16_at xs 8))
                (drop_within (header_len + be16_at xs 8) xs ys (omega arith))
              ∙ take_within _ (drop (header_len + be16_at xs 8) xs) ys
                  (omega (arith, length-drop (header_len + be16_at xs 8) xs)) in
            rw (fits, cut) refl
      ])

after_tail-Got :
    (full_len capacity : ℕ) (buffer : List ℕ) (rs : List Reading) (s : Session)
    → header_len ≤ length buffer
    → be32_at buffer 4 ≡ full_len
    → header_len ≤ full_len
    → Got full_len capacity buffer rs s (read_message_tail buffer full_len capacity rs s)
    → (after_tail capacity (read_message_tail buffer full_len capacity rs s)).0
      ≡ split_message (buffer ++ ahead s rs)
after_tail-Got full_len capacity buffer rs s head size long g =
    let inside : header_len ≤ length g.bytes = omega (arith, long, g.enough) in
    let same_size : be32_at g.bytes 4 ≡ full_len =
      sym (size-append g.bytes (ahead g.after g.rest) inside)
      ∙ ap (λ b. be32_at b 4) g.same
      ∙ size-append buffer (ahead s rs) head
      ∙ size in
    ap (λ t. (after_tail capacity t).0) g.result
    ∙ sym (
        split_message-append g.bytes (ahead g.after g.rest) inside
          (omega (arith, same_size, g.enough)))
    ∙ ap split_message g.same

-- When the mark and the declared length of a message are good, the session goes on, the rest of the
-- message arrives in packets of up to 512 bytes, and memory can be had, the message that is read is
-- the one at the start of the stream, whatever stood in the buffer before and however the packets fall.
pub read_message-split_message :
    (memory : ℕ → Bool) (buffer : List ℕ) (capacity : ℕ) (rs : List Reading) (s : Session)
    → memory (round_up (be32_at buffer 4)) ≡ true
    → header_len ≤ length buffer
    → length buffer ≤ capacity
    → has_mark buffer ≡ true
    → is_bad_size (be32_at buffer 4) ≡ false
    → Live s
    → All IsPacket rs
    → be32_at buffer 4 ≤ length (buffer ++ ahead s rs)
    → (read_message memory buffer capacity rs s).0 ≡ split_message (buffer ++ ahead s rs)
unfolding read_message
read_message-split_message memory buffer capacity rs s had head inside mark size live all whole =
    let good : (ltb (length buffer) header_len
          || not (has_mark buffer)
          || is_bad_size (be32_at buffer 4))
        ≡ false =
      (let there : ltb (length buffer) header_len ≡ false = ground arith in
        rw (there, mark, size) refl) in
    let long : header_len ≤ be32_at buffer 4 =
      (let known : is_bad_size (be32_at buffer 4) ≡ false = size in ground arith) in
    elim (Bool-cases (ltb (length buffer) (be32_at buffer 4))) [
      | inr enough ↦
          rw (good, enough, read_message)
            (sym (split_message-append buffer (ahead s rs) head (ground arith)))
      | inl part ↦ elim (Bool-cases (ltb capacity (round_up (be32_at buffer 4)))) [
        | inl small ↦
            rw (good, part, small, had, read_message)
              (after_tail-Got (be32_at buffer 4) (round_up (be32_at buffer 4)) buffer rs s head refl
                long
                (read_message_tail-Got buffer (be32_at buffer 4) (round_up (be32_at buffer 4)) rs s
                  (omega arith) (ground arith) live all whole))
        | inr room ↦
            rw (good, part, room, read_message)
              (after_tail-Got (be32_at buffer 4) capacity buffer rs s head refl long (
                read_message_tail-Got buffer (be32_at buffer 4) capacity rs s (ground arith) inside
                  live all whole))
      ]
    ]
