-- ===== src/VideoReceiver/Thread/Inv.antt =====
-- A round of the thread keeps the invariant of the sources list.
use qdplay.Prelude.{
  ℕ, zero, suc, ◌≡◌, refl, sym, ap, ◌∙◌, inl, inr, true, false, Option, none, some, List, [], ◌∷◌,
  get_elem?, set, length, ltb, arith, Option-cases, Bool-cases, length-set,
}
use qdplay.Posix.{}
use qdplay.Words.{}
use qdplay.VideoReceiver.{Source, State}
use qdplay.VideoReceiver.Frames.{}
use qdplay.VideoReceiver.Sources.{remove_source, better, pick_best, pid_of, update_active}
use qdplay.VideoReceiver.Sources.Pick.{}
use qdplay.VideoReceiver.Sources.Inv.{
  Inv, HasRoom, accept-Inv, remove_source-Inv, Below-set, Below-get,
}
use qdplay.VideoReceiver.Stream.{Allocator, Recv, read_loop}
use qdplay.VideoReceiver.Thread.Keeps.{Same, SameSource, read_loop-Same}
use qdplay.VideoReceiver.Thread.{read_source, serve, serve_all, Polled, poll_round}

abbrev AlikeBest : Option Source → Option Source → Type 0
AlikeBest none none = Unit
AlikeBest (some s) (some t) = (t.pid ≡ s.pid) × (t.priority ≡ s.priority)
AlikeBest _ _ = ⊥

-- Sources that differ in their buffers are ranked alike.
abbrev Alike : List Source → List Source → Type 0
Alike [] [] = Unit
Alike (s ∷ ss) (t ∷ ts) = ((t.pid ≡ s.pid) × (t.priority ≡ s.priority)) × Alike ss ts
Alike _ _ = ⊥

better-Alike :
    (b c : Option Source) (s t : Source)
    → AlikeBest b c
    → t.pid ≡ s.pid
    → t.priority ≡ s.priority
    → AlikeBest (better b s) (better c t)
better-Alike none none s t h p q = (p, q)
better-Alike none (some c) s t h p q = absurd h
better-Alike (some b) none s t h p q = absurd h
better-Alike (some b) (some c) s t h p q = elim (Bool-cases (ltb b.priority s.priority)) [
  | inl e ↦ let e' : ltb c.priority t.priority ≡ true = ground arith in rw (e, e') (p, q)
  | inr e ↦ let e' : ltb c.priority t.priority ≡ false = ground arith in rw (e, e') h
]

pick_best-Alike :
    (b c : Option Source) (xs ys : List Source)
    → AlikeBest b c
    → Alike xs ys
    → pid_of (pick_best b xs) ≡ pid_of (pick_best c ys)
unfolding pick_best
pick_best-Alike none none [] [] h a = refl
pick_best-Alike none (some c) [] [] h a = absurd h
pick_best-Alike (some b) none [] [] h a = absurd h
pick_best-Alike (some b) (some c) [] [] h a = sym h.0
pick_best-Alike b c [] (y ∷ ys) h a = absurd a
pick_best-Alike b c (x ∷ xs) [] h a = absurd a
pick_best-Alike b c (x ∷ xs) (y ∷ ys) h a =
    pick_best-Alike (better b x) (better c y) xs ys (better-Alike b c x y h a.0.0 a.0.1) a.1

Alike-refl : (xs : List Source) → Alike xs xs
Alike-refl [] = tt
Alike-refl (x ∷ xs) = ((refl, refl), Alike-refl xs)

Alike-set :
    (xs : List Source) (i : ℕ) (s t : Source)
    → get_elem? xs i ≡ some s
    → SameSource s t
    → Alike xs (set xs i t)
Alike-set [] i s t e same = tt
Alike-set (x ∷ xs) zero s t e same = ((ground arith, ground arith), Alike-refl xs)
Alike-set (x ∷ xs) (suc i) s t e same = ((refl, refl), Alike-set xs i s t e same)

-- Putting a source with the pid and priority of the old one into its slot keeps the invariant.
Inv-set :
    (st st' : State) (i : ℕ) (s t : Source)
    → Same st st'
    → get_elem? st.sources i ≡ some s
    → SameSource s t
    → Inv st
    → Inv (record st' { sources = set st'.sources i t })
Inv-set st st' i s t same e alike v = record {
  count = rw (length-set st'.sources i t, same.0) v.count;
  below =
      rw (same.0, same.1)
        (Below-set st.next_priority st.sources i t v.below
          (ground (arith, Below-get st.next_priority i st.sources v.below e)));
  positive = rw (same.1) v.positive;
  active =
      same.2
      ∙ v.active
      ∙ pick_best-Alike none none st.sources (set st.sources i t) tt
          (Alike-set st.sources i s t e alike)
      ∙ ap (λ l. pid_of (pick_best none (set l i t))) (sym same.0);
}

read_source-Inv :
    (alloc : Allocator) (rs : List Recv) (i : ℕ) (st : State)
    → Inv st
    → Inv (read_source alloc rs i st).1
unfolding read_source
read_source-Inv alloc rs i st v = elim (Option-cases (get_elem? st.sources i)) [
  | inl e ↦ rw (e, read_source) v
  | inr (s, e) ↦
      let (same, alike) = read_loop-Same alloc rs s st [] in
      let r = read_loop alloc rs s st [] in
      rw (e, read_source) (Inv-set st r.state i s r.source same e alike v)
]

-- A call leaves the next priority as it was.
abbrev NextSame : State → State → Type 0
NextSame st st' = st'.next_priority ≡ st.next_priority

read_source-next :
    (alloc : Allocator) (rs : List Recv) (i : ℕ) (st : State)
    → NextSame st (read_source alloc rs i st).1
unfolding read_source
read_source-next alloc rs i st = elim (Option-cases (get_elem? st.sources i)) [
  | inl e ↦ rw (e, read_source)
  | inr (s, e) ↦ rw (e, read_source) ((read_loop-Same alloc rs s st []).0.1)
]

remove_source-next : (i now : ℕ) (st : State) → NextSame st (remove_source i now st).0
unfolding remove_source update_active
remove_source-next i now st = ground arith

serve-Inv :
    (alloc : Allocator) (now : ℕ) (r : Option (List Recv)) (i : ℕ) (st : State)
    → Inv st
    → let st' = (serve alloc now r i st).0 in Inv st' × NextSame st st'
unfolding serve
serve-Inv alloc now none i st v = (v, refl)
serve-Inv alloc now (some rs) i st v =
    let st' = (read_source alloc rs i st).1 in
    let v' : Inv st' = read_source-Inv alloc rs i st v in
    let n' : NextSame st st' = read_source-next alloc rs i st in
    elim (Bool-cases (read_source alloc rs i st).0) [
      | inl e ↦ rw (e, serve) (v', n')
      | inr e ↦ rw (e, serve) (remove_source-Inv i now st' v', remove_source-next i now st' ∙ n')
    ]

serve_all-Inv :
    (alloc : Allocator) (now : ℕ) (ready : ℕ → Option (List Recv)) (i : ℕ) (st : State)
    → Inv st
    → let st' = (serve_all alloc now ready i st).0 in Inv st' × NextSame st st'
unfolding serve_all
serve_all-Inv alloc now ready zero st v = (v, refl)
serve_all-Inv alloc now ready (suc i) st v =
    let (v', n') = serve-Inv alloc now (ready i) i st v in
    let (v'', n'') = serve_all-Inv alloc now ready i (serve alloc now (ready i) i st).0 v' in
    (v'', n'' ∙ n')

-- A round of the thread, with whatever the sources have sent, however their bytes fall, and with
-- whatever connects, keeps the invariant of the sources list.
pub poll_round-Inv :
    (alloc : Allocator) (now : ℕ) (polled : Polled) (st : State)
    → HasRoom 1 st
    → Inv st
    → Inv (poll_round alloc now polled st).0
unfolding poll_round
poll_round-Inv alloc now polled st room v =
    let (v', n') = serve_all-Inv alloc now polled.ready (length st.sources) st v in
    elim (Option-cases polled.connection) [
      | inl e ↦ rw (e, poll_round) v'
      | inr ((fd, credentials), e) ↦
          rw (e, poll_round) (accept-Inv fd credentials now _ (rw n' room) v')
    ]
