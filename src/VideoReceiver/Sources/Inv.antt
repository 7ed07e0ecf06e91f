-- ===== src/VideoReceiver/Sources/Inv.antt =====
-- The invariant of the sources list, and that every operation keeps it.
use qdplay.Prelude.{
  ℕ, zero, suc, ◌+◌, ◌-◌, ◌^◌, ◌≤◌, ◌<◌, ◌≡◌, refl, none, some, List, [], inl, inr, ◌∷◌, ◌++◌,
  length, get_elem?, set, take, ltb, ◌==◌, if◌then◌else◌, arith, length-append, length-set,
  length-take, Option-cases, Bool-cases, ap,
}
use qdplay.Words.{add_u64}
use qdplay.Posix.{Outcome, done, failed}
use qdplay.VideoReceiver.{Source, State, max_sources}
use qdplay.VideoReceiver.Sources.{
  pick_active, update_active, raise, request_active, Pointer, better_next, lower, promote,
  yield_screen, switch_to_previous, new_source, accept_fd, accept, swap_remove, remove_source,
}
use qdplay.VideoReceiver.Sources.Pick.{Below}

-- At most four sources; every priority is below the next one to be given, which is positive; and
-- the active pid is the one that a new choice would make.
pub record Inv (st : State) : Type 0 where
  pub count : length st.sources ≤ max_sources
  pub below : Below st.next_priority st.sources
  pub positive : 0 < st.next_priority
  pub active : st.active_pid ≡ pick_active st

pub Below-mono : (m n : ℕ) (xs : List Source) → m ≤ n → Below m xs → Below n xs
Below-mono m n [] h b = tt
Below-mono m n (x ∷ xs) h b = (omega arith, Below-mono m n xs h b.1)

pub Below-append :
    (n : ℕ) (xs : List Source) (v : Source) → Below n xs → v.priority < n → Below n (xs ++ (v ∷ []))
Below-append n [] v b h = (h, tt)
Below-append n (x ∷ xs) v b h = (b.0, Below-append n xs v b.1 h)

pub Below-set :
    (n : ℕ) (xs : List Source) (i : ℕ) (v : Source)
    → Below n xs
    → v.priority < n
    → Below n (set xs i v)
Below-set n [] i v b h = tt
Below-set n (x ∷ xs) zero v b h = (h, b.1)
Below-set n (x ∷ xs) (suc i) v b h = (b.0, Below-set n xs i v b.1 h)

pub Below-take : (n k : ℕ) (xs : List Source) → Below n xs → Below n (take k xs)
Below-take n zero xs b = tt
Below-take n (suc k) [] b = tt
Below-take n (suc k) (x ∷ xs) b = (b.0, Below-take n k xs b.1)

pub Below-get :
    (n i : ℕ) (xs : List Source) {v : Source}
    → Below n xs
    → get_elem? xs i ≡ some v
    → v.priority < n
Below-get n i [] b e = ground arith
Below-get n zero (x ∷ xs) b e = ground arith
Below-get n (suc i) (x ∷ xs) b e = Below-get n i xs b.1 e

-- What `update_active` leaves, and the choice that it makes.
pub update_active_lem :
    (now : ℕ) (st : State)
    → let st' = update_active now st in
      (st'.sources ≡ st.sources)
      × (st'.next_priority ≡ st.next_priority)
      × (st'.active_pid ≡ pick_active st)
unfolding update_active
update_active_lem now st = ground arith

pub update_active-Inv :
    (now : ℕ) (st : State)
    → length st.sources ≤ max_sources
    → Below st.next_priority st.sources
    → 0 < st.next_priority
    → Inv (update_active now st)
unfolding update_active
update_active-Inv now st c b p = ground arith

pub raise-Below :
    (pid next n : ℕ) (xs : List Source)
    → next + length xs < 2 ^ 64
    → n ≤ next
    → Below n xs
    → let (ys, next') = raise pid next xs in
      Below next' ys × (next ≤ next') × (next' ≤ next + length xs) × (length ys ≡ length xs)
unfolding raise
raise-Below pid next n [] h le b = (tt, omega arith, omega arith, refl)
raise-Below pid next n (x ∷ xs) h le b =
    let next₁ : ℕ = if x.pid == pid then add_u64 next 1 else next in
    let step : (next ≤ next₁) × (next₁ ≤ next + 1) = ground arith in
    let (ih, lo, hi, len) = raise-Below pid next₁ n xs (omega arith) (omega arith) b.1 in
    ((ground arith, ih), omega arith, omega arith, ap suc len)

-- The pointer stays inside the array.
abbrev pub PointsBelow : ℕ → Pointer → Type 0
PointsBelow n none = Unit
PointsBelow n (some (j, s)) = j < n

pub PointsBelow-mono : (m n : ℕ) (p : Pointer) → m ≤ n → PointsBelow m p → PointsBelow n p
PointsBelow-mono m n none h b = tt
PointsBelow-mono m n (some (j, s)) h b = omega arith

better_next-PointsBelow :
    (p : Pointer) (i : ℕ) (s : Source) → PointsBelow i p → PointsBelow (i + 1) (better_next p i s)
better_next-PointsBelow none i s h = omega arith
better_next-PointsBelow (some (j, b)) i s h = ground arith

pub lower-Below :
    (pid i n : ℕ) (p : Pointer) (xs : List Source)
    → 0 < n
    → PointsBelow i p
    → Below n xs
    → let (ys, q) = lower pid i p xs in
      Below n ys × (length ys ≡ length xs) × PointsBelow (i + length xs) q
unfolding lower
lower-Below pid i n p [] pos ptr b = (tt, refl, PointsBelow-mono i (i + 0) p (omega arith) ptr)
lower-Below pid i n p (x ∷ xs) pos ptr b = elim (Bool-cases (x.pid == pid)) [
  | inl e ↦
      let (ih, len, q) =
        lower-Below pid (i + 1) n p xs pos (PointsBelow-mono i (i + 1) p (omega arith) ptr) b.1 in
      rw e ((pos, ih), ap suc len, PointsBelow-mono _ _ _ (omega arith) q)
  | inr e ↦
      let (ih, len, q) =
        lower-Below pid (i + 1) n (better_next p i x) xs pos (better_next-PointsBelow p i x ptr)
          b.1 in
      rw e ((b.0, ih), ap suc len, PointsBelow-mono _ _ _ (omega arith) q)
]

pub swap_remove-Below :
    (n i : ℕ) (xs : List Source)
    → Below n xs
    → Below n (swap_remove xs i) × (length (swap_remove xs i) ≤ length xs)
unfolding swap_remove
swap_remove-Below n i xs b = elim (Option-cases (get_elem? xs (length xs - 1))) [
  | inl e ↦ rw (e, swap_remove) (b, omega arith)
  | inr (l, e) ↦
      rw (e, swap_remove)
        (
          Below-take n (length xs - 1) _
              (Below-set n xs i l b (Below-get n (length xs - 1) xs b e)),
          omega (arith, length-take (length xs - 1) (set xs i l), length-set xs i l),
        )
]

-- The priorities do not run out: `next_priority` leaves room for `k` more.
abbrev pub HasRoom : ℕ → State → Type 0
HasRoom k st = st.next_priority + k < 2 ^ 64

pub request_active-Inv :
    (pid now : ℕ) (st : State) → HasRoom 4 st → Inv st → Inv (request_active pid now st).0
unfolding request_active
request_active-Inv pid now st room v =
    let (b, lo, hi, len) =
      raise-Below pid st.next_priority st.next_priority st.sources (omega (arith, v.count))
        (omega arith) v.below in
    update_active-Inv now _ (omega (arith, len, v.count)) b (omega (arith, lo, v.positive))

pub promote-Below :
    (p : Pointer) (st : State)
    → HasRoom 1 st
    → Below st.next_priority st.sources
    → let st' = promote p st in
      Below st'.next_priority st'.sources
      × (length st'.sources ≡ length st.sources)
      × (st.next_priority ≤ st'.next_priority)
      × (st'.next_priority ≤ st.next_priority + 1)
promote-Below none st room b = (b, refl, omega arith, omega arith)
promote-Below (some (j, s)) st room b = (
  Below-set _ st.sources j _ (Below-mono st.next_priority _ st.sources (omega arith) b)
      (omega arith),
  length-set st.sources j _,
  omega arith,
  omega arith,
)

pub yield_screen-Inv :
    (pid now : ℕ) (st : State) → HasRoom 1 st → Inv st → Inv (yield_screen pid now st).0
unfolding yield_screen
yield_screen-Inv pid now st room v =
    let (b, len, ptr) = lower-Below pid 0 st.next_priority none st.sources v.positive tt v.below in
    let lowered : State = record st { sources = (lower pid 0 none st.sources).0 } in
    let (b', len', lo, hi) = promote-Below (lower pid 0 none st.sources).1 lowered room b in
    update_active-Inv now _ (omega (arith, len, len', v.count)) b' (omega (arith, lo, v.positive))

pub switch_to_previous-Inv :
    (now : ℕ) (st : State) → HasRoom 1 st → Inv st → Inv (switch_to_previous now st).0
unfolding switch_to_previous
switch_to_previous-Inv now st room v = elim (Bool-cases (st.active_pid == 0)) [
  | inl e ↦ rw e v
  | inr e ↦ rw e (yield_screen-Inv st.active_pid now st room v)
]

accept_fd-Inv :
    (fd pid now : ℕ) (st : State) → HasRoom 1 st → Inv st → Inv (accept_fd fd pid now st).0
unfolding accept_fd
accept_fd-Inv fd pid now st room v = elim (Bool-cases (ltb (length st.sources) max_sources)) [
  | inl e ↦ rw e (
      update_active-Inv now _
        (ground (arith, length-append st.sources (new_source fd pid st.next_priority ∷ [])))
        (Below-append _ st.sources _
          (Below-mono st.next_priority _ st.sources (omega arith) v.below) (omega arith))
        (omega arith))
  | inr e ↦ rw e v
]

pub accept-Inv :
    (fd credentials : Outcome ℕ) (now : ℕ) (st : State)
    → HasRoom 1 st
    → Inv st
    → Inv (accept fd credentials now st).0
unfolding accept
accept-Inv (done fd) credentials now st room v = accept_fd-Inv fd _ now st room v
accept-Inv (failed e) credentials now st room v = v

pub remove_source-Inv : (index now : ℕ) (st : State) → Inv st → Inv (remove_source index now st).0
unfolding remove_source
remove_source-Inv index now st v = elim (Option-cases (get_elem? st.sources index)) [
  | inl e ↦ rw (e, remove_source) v
  | inr (s, e) ↦
      let (b, len) = swap_remove-Below st.next_priority index st.sources v.below in
      rw (e, remove_source) (update_active-Inv now _ (omega (arith, len, v.count)) b v.positive)
]
