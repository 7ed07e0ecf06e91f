-- ===== src/Gadget/Stays.antt =====
-- Which calls of libusbgx may be made, and the pieces of the gadget's functions that are only called
-- with a state.
use qdplay.Prelude.{Bool, true, false, ◌≡◌, refl, ◌∙◌, ap, Option, none, some, List, [], ◌∷◌, ◌++◌}
use qdplay.Gadget.{
  Identity, Code, success, minus, plus, Request, opens, Query, Event, called, cleaned, Usbg, Held,
  Usb, give, bind, ask, look, on_success, then_on, remove_stale, unbind_stale, rm_stale, unbind,
  build, present, identities, disables_stale, removes_stale, creates_gadget, creates_function,
  creates_config, adds_function, sets_vendor_id, sets_product_id, sets_manufacturer, sets_product,
  disables, enables, mode_initial, stale_gadget, stale_udc,
}

-- A call of the library, with whether there is a state before it and after it. Without one only
-- `usbg_init` may be called, and with one it may not. `none` is a call that may not be made.
unfoldable pub step : Bool → Event → Option Bool
step false (called opens success) = some true
step false (called opens c) = some false
step false e = none
step true (called opens c) = none
step true cleaned = some false
step true e = some true

unfoldable pub follows : Bool → List Event → Option Bool
follows there [] = some there
follows there (e ∷ es) = elim (step there e) [ none ↦ none | some there' ↦ follows there' es ]

pub follows-append :
    (there there' : Bool) (es fs : List Event)
    → follows there es ≡ some there'
    → follows there (es ++ fs) ≡ follows there' fs
unfolding follows
follows-append there there' [] fs h = ap (λ o. elim o [ none ↦ none | some t ↦ follows t fs ]) h
follows-append there there' (e ∷ es) fs h =
    go (step there e) (λ t h'. follows-append t there' es fs h') h
  where
    go :
        (o : Option Bool)
        → ((t : Bool) → follows t es ≡ some there' → follows t (es ++ fs) ≡ follows there' fs)
        → elim o [ none ↦ none | some t ↦ follows t es ] ≡ some there'
        → elim o [ none ↦ none | some t ↦ follows t (es ++ fs) ] ≡ follows there' fs
    go none ih h' = cc
    go (some t) ih h' = ih t h'

module _ (lib : Usbg) where
  -- From a state with or without one to such a state.
  abbrev pub Moves : Bool → Bool → Bool → {A : Type 0} → A × List Event × Held lib → Type 0
  Moves there state gadget (a, es, h) =
      (follows there es ≡ some state) × (h.has_state ≡ state) × (h.has_gadget ≡ gadget)

  -- A function that is called with a state, keeps it and the gadget.
  abbrev pub Stays : Bool → {A : Type 0} → Usb lib A → Type 0
  Stays g io = (h : Held lib) → h.has_state ≡ true → h.has_gadget ≡ g → Moves true true g (io h)

  bind-Moves :
      {A B : Type 0} (t s g s' g' : Bool) (io : Usb lib A) (next : A → Usb lib B) (h : Held lib)
      → Moves t s g (io h)
      → ((a : A) (h' : Held lib) → h'.has_state ≡ s → h'.has_gadget ≡ g → Moves s s' g' (next a h'))
      → Moves t s' g' (bind lib io next h)
  bind-Moves t s g s' g' io next h (followed, state, gadget) then_moves =
      let (a, es, h') = io h in
      let (followed', state', gadget') = then_moves a h' state gadget in
      (follows-append t s es (next a h').1 followed ∙ followed', state', gadget')

  give-Stays : (g : Bool) {A : Type 0} (a : A) → Stays g (give lib a)
  unfolding follows
  give-Stays g a h state gadget = (refl, state, gadget)

  ask-Stays :
      (g : Bool) (r : Request)
      → ((c : Code) → step true (called r c) ≡ some true)
      → Stays g (ask lib r)
  unfolding follows
  ask-Stays g r allowed h state gadget =
      (rw (allowed (lib.ask r h.world).0, follows) refl, state, gadget)

  pub look-Stays : (g : Bool) (q : Query) → Stays g (look lib q)
  unfolding follows step
  look-Stays g q h state gadget = (refl, state, gadget)

  pub bind-Stays :
      (g : Bool) {A B : Type 0} (io : Usb lib A) (next : A → Usb lib B)
      → Stays g io
      → ((a : A) → Stays g (next a))
      → Stays g (bind lib io next)
  bind-Stays g io next first then_stays h state gadget =
      bind-Moves true true g true g io next h (first h state gadget) then_stays

  then_on-Stays :
      (g : Bool) (io next : Usb lib Code)
      → Stays g io
      → Stays g next
      → Stays g (then_on lib io next)
  then_on-Stays g io next first then_stays = bind-Stays g io (on_success lib next) first after
    where
      after : (c : Code) → Stays g (on_success lib next c)
      after success = then_stays
      after (minus n) = give-Stays g (minus n)
      after (plus n) = give-Stays g (plus n)

  unbind_stale-Stays : (g b : Bool) → Stays g (unbind_stale lib b)
  unfolding step
  unbind_stale-Stays g true = ask-Stays g disables_stale (λ c. refl)
  unbind_stale-Stays g false = give-Stays g success

  pub unbind-Stays : (g b : Bool) → Stays g (unbind lib b)
  unfolding step
  unbind-Stays g true = ask-Stays g disables (λ c. refl)
  unbind-Stays g false = give-Stays g success

  remove_stale-Stays : (g b : Bool) → Stays g (remove_stale lib b)
  unfolding step
  remove_stale-Stays g false = give-Stays g success
  remove_stale-Stays g true =
      bind-Stays g (look lib stale_udc) (rm_stale lib) (look-Stays g stale_udc) (λ bound.
        bind-Stays g (unbind_stale lib bound) (λ _. ask lib removes_stale)
          (unbind_stale-Stays g bound) (λ _. ask-Stays g removes_stale (λ c. refl)))

  pub build-Stays : (g : Bool) → Stays g (build lib)
  unfolding step
  build-Stays g =
      then_on-Stays g _ _
        (bind-Stays g (look lib stale_gadget) (remove_stale lib) (look-Stays g stale_gadget)
          (remove_stale-Stays g))
        (then_on-Stays g _ _ (ask-Stays g (creates_gadget (identities mode_initial)) (λ c. refl)) (
          then_on-Stays g _ _ (ask-Stays g creates_function (λ c. refl)) (
            then_on-Stays g _ _ (ask-Stays g creates_config (λ c. refl))
              (ask-Stays g adds_function (λ c. refl)))))

  pub present-Stays : (g : Bool) (i : Identity) → Stays g (present lib i)
  unfolding step
  present-Stays g i = then_on-Stays g _ _ (ask-Stays g (sets_vendor_id i.vid) (λ c. refl)) (
      then_on-Stays g _ _ (ask-Stays g (sets_product_id i.pid) (λ c. refl)) (
        then_on-Stays g _ _ (ask-Stays g (sets_manufacturer i.manufacturer) (λ c. refl)) (
          then_on-Stays g _ _ (ask-Stays g (sets_product i.product) (λ c. refl))
            (ask-Stays g enables (λ c. refl)))))
