-- ===== src/VideoReceiver/Sources/Raise.antt =====
-- The loop of `video_receiver_request_active`, which raises the sources of a process above all others.
use qdplay.Prelude.{
  ℕ, zero, suc, ◌+◌, ◌^◌, ◌≤◌, ◌<◌, ◌≡◌, ◌≢◌, refl, List, [], ◌∷◌, inl, inr, length, arith, All,
  get_elem?, some, none, Option, Bool-cases, ltb, ◌==◌, true, false,
}
use qdplay.Words.{add_u64}
use qdplay.VideoReceiver.{Source}
use qdplay.VideoReceiver.Sources.{raise, pid_of, pick_best, better}
use qdplay.VideoReceiver.Sources.Pick.{Below, BestBelow, better-BestBelow}
use qdplay.VideoReceiver.Sources.Inv.{}

-- The best source so far is of `pid` and above all that the array held before.
raise_pick :
    (pid next n : ℕ) (b : Source) (xs : List Source)
    → next + length xs < 2 ^ 64
    → b.pid ≡ pid
    → n ≤ b.priority
    → b.priority < next
    → Below n xs
    → pid_of (pick_best (some b) (raise pid next xs).0) ≡ pid
unfolding raise pick_best
raise_pick pid next n b [] room e lo hi bs = e
raise_pick pid next n b (x ∷ xs) room e lo hi bs = elim (Bool-cases (x.pid == pid)) [
  | inl h ↦
      let b' : Source = record x { priority = next } in
      let up : ltb b.priority next ≡ true = ground arith in
      rw (h, up)
        (raise_pick pid (add_u64 next 1) n b' xs (omega arith) (ground arith) (omega arith)
          (omega arith) bs.1)
  | inr h ↦
      let down : ltb b.priority x.priority ≡ false = ground arith in
      rw (h, down) (raise_pick pid next n b xs (omega arith) e lo hi bs.1)
]

better_above :
    (n : ℕ) (best : Option Source) (s : Source)
    → BestBelow n best
    → n ≤ s.priority
    → better best s ≡ some s
better_above n none s b h = refl
better_above n (some t) s b h = ground arith

-- The process has a source.
abbrev pub Owns : ℕ → List Source → Type 0
Owns pid xs = (i : ℕ) × (s : Source) × (get_elem? xs i ≡ some s) × (s.pid ≡ pid)

pub raise_finds :
    (pid next n : ℕ) (best : Option Source) (xs : List Source) (i : ℕ) (s : Source)
    → next + length xs < 2 ^ 64
    → BestBelow n best
    → n ≤ next
    → Below n xs
    → get_elem? xs i ≡ some s
    → s.pid ≡ pid
    → pid_of (pick_best best (raise pid next xs).0) ≡ pid
unfolding raise pick_best
raise_finds pid next n best [] i s room bb le bs at own = ground arith
raise_finds pid next n best (x ∷ xs) zero s room bb le bs at own =
    let hit : (x.pid == pid) ≡ true = ground arith in
    rw (hit, better_above n best (record x { priority = next }) bb le)
      (raise_pick pid (add_u64 next 1) n (record x { priority = next }) xs (omega arith)
        (ground arith) le (omega arith) bs.1)
raise_finds pid next n best (x ∷ xs) (suc i) s room bb le bs at own =
    elim (Bool-cases (x.pid == pid)) [
      | inl h ↦
          rw (h, better_above n best (record x { priority = next }) bb le)
            (raise_pick pid (add_u64 next 1) n (record x { priority = next }) xs (omega arith)
              (ground arith) le (omega arith) bs.1)
      | inr h ↦ rw h (
          raise_finds pid next n (better best x) xs i s (omega arith)
            (better-BestBelow n best x bb bs.0) le bs.1 at own)
    ]

pub raise_misses :
    (pid next : ℕ) (xs : List Source) → All (λ s. s.pid ≢ pid) xs → raise pid next xs ≡ (xs, next)
unfolding raise
raise_misses pid next [] h = refl
raise_misses pid next (x ∷ xs) h =
    let miss : (x.pid == pid) ≡ false = ground (arith, h.0) in
    rw miss (ground (arith, raise_misses pid next xs h.1))
