-- ===== src/VideoReceiver/Sources/Switch.antt =====
-- Who has the screen after a source connects, leaves, asks for the screen or yields it.
use qdplay.Prelude.{
  ℕ, suc, ◌+◌, ◌-◌, ◌≤◌, ◌<◌, ◌≡◌, ◌≢◌, refl, sym, ◌∙◌, List, [], ◌∷◌, ◌++◌, ◌⊎◌, inl, inr, length,
  arith, All, get_elem?, some, none, Option, Bool-cases, ltb, ◌==◌, if◌then◌else◌, ap, set, take,
  true,
}
use qdplay.Words.{add_u64}
use qdplay.VideoReceiver.{Source, State, max_sources, close_fd}
use qdplay.VideoReceiver.Sources.{
  request_active, yield_screen, remove_source, accept_fd, update_active, raise, lower, promote,
  pid_of, pick_best, pick_active, new_source, swap_remove, Pointer, better_next, better,
}
use qdplay.VideoReceiver.Sources.Pick.{Below, pick_best-snoc, pick_best-set, pick_best-All}
use qdplay.VideoReceiver.Sources.Raise.{Owns, raise_finds, raise_misses}
use qdplay.VideoReceiver.Sources.Inv.{
  Inv, HasRoom, lower-Below, update_active_lem, PointsBelow, PointsBelow-mono,
}

-- A new connection takes the screen if a slot is free, and is closed with nothing changed if not.
pub accept_fd-active :
    (fd pid now : ℕ) (st : State)
    → HasRoom 1 st
    → Inv st
    → let (st', effects) = accept_fd fd pid now st in
      ((length st.sources < max_sources)
        × (st'.sources ≡ st.sources ++ (new_source fd pid st.next_priority ∷ []))
        × (st'.active_pid ≡ pid))
      ⊎ ((max_sources ≤ length st.sources) × (st' ≡ st) × (effects ≡ close_fd fd ∷ []))
unfolding accept_fd
accept_fd-active fd pid now st room v = elim (Bool-cases (ltb (length st.sources) max_sources)) [
  | inl e ↦
      let s = new_source fd pid st.next_priority in
      let grown : State = record st {
        sources = st.sources ++ (s ∷ []);
        next_priority = add_u64 st.next_priority 1;
      } in
      let (same, _, active) = update_active_lem now grown in
      rw e (
        inl (
          ground arith,
          same,
          active
              ∙ ap pid_of
                  (pick_best-snoc st.next_priority none st.sources s (omega arith) tt v.below),
        ))
  | inr e ↦ rw e (inr (ground arith, refl, refl))
]

get_elem?-append_length :
    {A : Type 0} (xs : List A) (x : A) → get_elem? (xs ++ (x ∷ [])) (length xs) ≡ some x
get_elem?-append_length [] x = refl
get_elem?-append_length (y ∷ xs) x = get_elem?-append_length xs x

take-set_append :
    {A : Type 0} (xs : List A) (x v : A)
    → take (length xs) (set (xs ++ (x ∷ [])) (length xs) v) ≡ xs
take-set_append [] x v = refl
take-set_append (y ∷ xs) x v = ap (◌∷◌ y) (take-set_append xs x v)

length-snoc : {A : Type 0} (xs : List A) (x : A) → length (xs ++ (x ∷ [])) ≡ suc (length xs)
length-snoc [] x = refl
length-snoc (y ∷ xs) x = ap suc (length-snoc xs x)

swap_remove-snoc : (xs : List Source) (x : Source) → swap_remove (xs ++ (x ∷ [])) (length xs) ≡ xs
unfolding swap_remove
swap_remove-snoc xs x =
    let e : length (xs ++ (x ∷ [])) - 1 ≡ length xs = omega (arith, length-snoc xs x) in
    let found : get_elem? (xs ++ (x ∷ [])) (length (xs ++ (x ∷ [])) - 1) ≡ some x =
      rw e (get_elem?-append_length xs x) in
    rw (found, swap_remove) (rw e (take-set_append xs x x))

-- When the newest source leaves again, the sources are as they were before it came, and the screen
-- returns to whom it belonged.
pub remove_source-accept_fd :
    (fd pid now later : ℕ) (st : State)
    → HasRoom 1 st
    → length st.sources < max_sources
    → Inv st
    → let st' = (remove_source (length st.sources) later (accept_fd fd pid now st).0).0 in
      (st'.sources ≡ st.sources) × (st'.active_pid ≡ st.active_pid)
unfolding remove_source
remove_source-accept_fd fd pid now later st room free v =
    elim (accept_fd-active fd pid now st room v) [
      | inl (lt, same, active) ↦
          let s = new_source fd pid st.next_priority in
          let st₁ : State = (accept_fd fd pid now st).0 in
          let found : get_elem? st₁.sources (length st.sources) ≡ some s =
            rw same (get_elem?-append_length st.sources s) in
          let back : swap_remove st₁.sources (length st.sources) ≡ st.sources =
            rw same (swap_remove-snoc st.sources s) in
          let (kept, _, chosen) =
            update_active_lem later
              (record st₁ { sources = swap_remove st₁.sources (length st.sources) }) in
          rw (found, remove_source)
            (kept ∙ back, chosen ∙ ap (λ xs. pid_of (pick_best none xs)) back ∙ sym v.active)
      | inr (full, _, _) ↦ absurd (omega arith)
    ]

-- The sources of the other processes.
unfoldable pub others : ℕ → List Source → List Source
others pid [] = []
others pid (s ∷ ss) = if s.pid == pid then others pid ss else s ∷ others pid ss

abbrev pub target : Pointer → Option Source
target none = none
target (some (j, s)) = some s

target-better_next :
    (p : Pointer) (i : ℕ) (s : Source) → target (better_next p i s) ≡ better (target p) s
target-better_next none i s = refl
target-better_next (some (j, b)) i s = ground arith

-- The loop of `video_receiver_yield` points at the best source of the other processes.
pub target-lower :
    (pid i : ℕ) (p : Pointer) (xs : List Source)
    → target (lower pid i p xs).1 ≡ pick_best (target p) (others pid xs)
unfolding lower pick_best others
target-lower pid i p [] = refl
target-lower pid i p (x ∷ xs) = elim (Bool-cases (x.pid == pid)) [
  | inl e ↦ rw e (target-lower pid (i + 1) p xs)
  | inr e ↦ rw e (target-lower pid (i + 1) (better_next p i x) xs ∙ rw (target-better_next p i x))
]

others-All : (pid : ℕ) (xs : List Source) → All (λ s. s.pid ≢ pid) (others pid xs)
unfolding others
others-All pid [] = tt
others-All pid (x ∷ xs) = elim (Bool-cases (x.pid == pid)) [
  | inl e ↦ rw (e, others) (others-All pid xs)
  | inr e ↦ rw (e, others) (ground arith, others-All pid xs)
]

best_other :
    (pid : ℕ) (xs : List Source)
    → All (λ s. s.pid ≢ pid) xs
    → xs ≢ []
    → (r : Source) × (pick_best none xs ≡ some r) × (r.pid ≢ pid)
unfolding pick_best
best_other pid [] all ne = absurd (ne refl)
best_other pid (x ∷ xs) all ne = pick_best-All (λ s. s.pid ≢ pid) x xs all.0 all.1

pick_best-promote :
    (p : Pointer) (st : State) (r : Source)
    → target p ≡ some r
    → HasRoom 1 st
    → PointsBelow (length st.sources) p
    → Below st.next_priority st.sources
    → pick_active (promote p st) ≡ r.pid
pick_best-promote none st r e room ptr b = cc
pick_best-promote (some (j, s)) st r e room ptr b =
    ap pid_of (
      pick_best-set st.next_priority none st.sources j (record s { priority = st.next_priority })
        (omega arith) tt b ptr)
    ∙ ground arith

-- A process that yields while another one has a source loses the screen, to the process whose
-- source has the highest priority among those of the others.
pub yield_screen-active :
    (pid now : ℕ) (st : State)
    → HasRoom 1 st
    → Inv st
    → others pid st.sources ≢ []
    → let st' = (yield_screen pid now st).0 in
      (st'.active_pid ≢ pid) × (st'.active_pid ≡ pid_of (pick_best none (others pid st.sources)))
unfolding yield_screen
yield_screen-active pid now st room v ne =
    let (r, best, other) = best_other pid (others pid st.sources) (others-All pid st.sources) ne in
    let (b, len, ptr) = lower-Below pid 0 st.next_priority none st.sources v.positive tt v.below in
    let next = (lower pid 0 none st.sources).1 in
    let lowered : State = record st { sources = (lower pid 0 none st.sources).0 } in
    let (_, _, chosen) = update_active_lem now (promote next lowered) in
    let ptr' : PointsBelow (length lowered.sources) next =
      PointsBelow-mono (0 + length st.sources) _ next (omega (arith, len)) ptr in
    let active : (yield_screen pid now st).0.active_pid ≡ r.pid =
      chosen
      ∙ pick_best-promote next lowered r (target-lower pid 0 none st.sources ∙ best) room ptr' b in
    (λ e. other (sym active ∙ e), active ∙ sym (ap pid_of best))

-- A request of a process that has no source changes nothing.
pub request_active-none :
    (pid now : ℕ) (st : State)
    → Inv st
    → All (λ s. s.pid ≢ pid) st.sources
    → (request_active pid now st).0 ≡ st
unfolding request_active update_active
request_active-none pid now st v h =
    let same : (st.active_pid == pick_active st) ≡ true = ground (arith, v.active) in
    rw (raise_misses pid st.next_priority st.sources h, same)

-- A process that asks for the screen and has a source gets it.
pub request_active-active :
    (pid now : ℕ) (st : State)
    → HasRoom 4 st
    → Inv st
    → Owns pid st.sources
    → (request_active pid now st).0.active_pid ≡ pid
unfolding request_active
request_active-active pid now st room v (i, s, at, own) =
    let (sources, next) = raise pid st.next_priority st.sources in
    let (_, _, chosen) =
      update_active_lem now (record st { sources = sources; next_priority = next }) in
    chosen
    ∙ raise_finds pid st.next_priority st.next_priority none st.sources i s (omega (arith, v.count))
        tt (omega arith) v.below at own
