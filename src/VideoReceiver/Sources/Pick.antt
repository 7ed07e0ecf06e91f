-- ===== src/VideoReceiver/Sources/Pick.antt =====
-- Which source `video_receiver_pick_active_locked` finds.
use qdplay.Prelude.{
  ◌⊎◌, inl, inr, sym, ap, Bool-cases, tests, ℕ, zero, suc, ◌≤◌, ◌<◌, ◌≡◌, refl, Option, none, some,
  List, [], ◌∷◌, ◌++◌, length, get_elem?, set, All, ltb, arith,
}
use qdplay.VideoReceiver.{Source}
use qdplay.VideoReceiver.Sources.{better, pick_best}

-- The best of the sources seen so far has a lower priority than `n`.
abbrev pub BestBelow : ℕ → Option Source → Type 0
BestBelow n none = Unit
BestBelow n (some b) = b.priority < n

abbrev pub Below : ℕ → List Source → Type 0
Below n xs = All (λ s. s.priority < n) xs

pub better-BestBelow :
    (n : ℕ) (best : Option Source) (s : Source)
    → BestBelow n best
    → s.priority < n
    → BestBelow n (better best s)
better-BestBelow n none s b h = h
better-BestBelow n (some t) s b h = ground arith

-- A new source at the end, above all the others, is the best.
pub pick_best-snoc :
    (n : ℕ) (best : Option Source) (xs : List Source) (v : Source)
    → n ≤ v.priority
    → BestBelow n best
    → Below n xs
    → pick_best best (xs ++ (v ∷ [])) ≡ some v
unfolding pick_best
pick_best-snoc n none [] v h b bs = refl
pick_best-snoc n (some t) [] v h b bs = ground arith
pick_best-snoc n best (x ∷ xs) v h b bs =
    pick_best-snoc n (better best x) xs v h (better-BestBelow n best x b bs.0) bs.1

-- A source that stays above all that follow it is the best.
pub pick_best-keep :
    (n : ℕ) (v : Source) (xs : List Source)
    → n ≤ v.priority
    → Below n xs
    → pick_best (some v) xs ≡ some v
unfolding pick_best
pick_best-keep n v [] h bs = refl
pick_best-keep n v (x ∷ xs) h bs = ground (arith, pick_best-keep n v xs)

-- A source put into a slot, above all the others, is the best.
pub pick_best-set :
    (n : ℕ) (best : Option Source) (xs : List Source) (j : ℕ) (v : Source)
    → n ≤ v.priority
    → BestBelow n best
    → Below n xs
    → j < length xs
    → pick_best best (set xs j v) ≡ some v
unfolding pick_best
pick_best-set n best [] j v h b bs lt = absurd (omega arith)
pick_best-set n none (x ∷ xs) zero v h b bs lt = pick_best-keep n v xs h bs.1
pick_best-set n (some t) (x ∷ xs) zero v h b bs lt = ground (arith, pick_best-keep n v xs h bs.1)
pick_best-set n best (x ∷ xs) (suc j) v h b bs lt =
    pick_best-set n (better best x) xs j v h (better-BestBelow n best x b bs.0) bs.1 (omega arith)

-- What the search from the source `b` finds: a source at least as high as `b` and as every one in
-- the list, which is `b` itself or stands in the list.
abbrev pub Found : Source → List Source → Type 0
Found b xs =
    (r : Source) × (pick_best (some b) xs ≡ some r)
    × (b.priority ≤ r.priority)
    × All (λ t. t.priority ≤ r.priority) xs
    × ((r ≡ b) ⊎ ((i : ℕ) × (get_elem? xs i ≡ some r)))

Found-later :
    (b x : Source) (xs : List Source)
    → b.priority ≤ x.priority
    → better (some b) x ≡ some x
    → Found x xs
    → Found b (x ∷ xs)
unfolding pick_best
Found-later b x xs le e (r, p, up, all, inl q) =
    (r, rw e p, omega arith, (up, all), inr (0, ap some (sym q)))
Found-later b x xs le e (r, p, up, all, inr (i, q)) =
    (r, rw e p, omega arith, (up, all), inr (suc i, q))

Found-before :
    (b x : Source) (xs : List Source)
    → x.priority ≤ b.priority
    → better (some b) x ≡ some b
    → Found b xs
    → Found b (x ∷ xs)
unfolding pick_best
Found-before b x xs le e (r, p, up, all, inl q) = (r, rw e p, up, (omega arith, all), inl q)
Found-before b x xs le e (r, p, up, all, inr (i, q)) =
    (r, rw e p, up, (omega arith, all), inr (suc i, q))

pub pick_best-Found : (b : Source) (xs : List Source) → Found b xs
unfolding pick_best
pick_best-Found b [] = (b, refl, omega arith, tt, inl refl)
pick_best-Found b (x ∷ xs) = elim (Bool-cases (ltb b.priority x.priority)) [
  | inl e ↦ Found-later b x xs (omega (tests)) (rw e) (pick_best-Found x xs)
  | inr e ↦ Found-before b x xs (ground arith) (rw e) (pick_best-Found b xs)
]

-- The source `r` is in the list, and none there has a higher priority.
abbrev pub IsBest : List Source → Source → Type 0
IsBest xs r = ((i : ℕ) × (get_elem? xs i ≡ some r)) × All (λ t. t.priority ≤ r.priority) xs

-- The search over a list finds nothing in an empty one, and otherwise a source of the list that
-- none there exceeds.
pub pick_best-IsBest :
    (xs : List Source)
    → ((xs ≡ []) × (pick_best none xs ≡ none))
      ⊎ ((r : Source) × (pick_best none xs ≡ some r) × IsBest xs r)
unfolding pick_best
pick_best-IsBest [] = inl (refl, refl)
pick_best-IsBest (x ∷ xs) =
    let (r, p, up, all, place) = pick_best-Found x xs in
    elim place [
      | inl q ↦ inr (r, p, ((0, ap some (sym q)), (up, all)))
      | inr (i, q) ↦ inr (r, p, ((suc i, q), (up, all)))
    ]

-- A property of every source in the list is one of the best.
pub pick_best-All {ℓ} :
    (P : Source → Type ℓ) (b : Source) (xs : List Source)
    → P b
    → All P xs
    → (r : Source) × (pick_best (some b) xs ≡ some r) × P r
unfolding pick_best
pick_best-All P b [] h hs = (b, refl, h)
pick_best-All P b (x ∷ xs) h hs = elim (Bool-cases (ltb b.priority x.priority)) [
  | inl e ↦ rw e (pick_best-All P x xs hs.0 hs.1)
  | inr e ↦ rw e (pick_best-All P b xs h hs.1)
]
