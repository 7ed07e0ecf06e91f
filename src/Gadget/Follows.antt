-- ===== src/Gadget/Follows.antt =====
-- The gadget's functions use a state of libusbgx only while it is there, and free it once.
use qdplay.Prelude.{
  Bool, true, false, not, ◌≡◌, refl, sym, ◌∙◌, ap, subst, some, List, [], ◌∷◌, if◌then◌else◌,
}
use qdplay.Gadget.{
  Mode, Identity, Code, success, minus, plus, opens, Event, called, Usbg, Held, Usb, bind, look,
  unbind, configure, build, finish, after_open, create, init, disable, look_again, find_udc,
  present, present_on, switch_to, set_mode, identities, gadget_udc, first_udc,
}
use qdplay.Gadget.Stays.{
  step, follows, follows-append, Moves, Stays, look-Stays, unbind-Stays, bind-Stays, build-Stays,
  present-Stays,
}

module _ (lib : Usbg) where
  -- The calls follow the rule, and then there is a gadget exactly when there is a state; after a
  -- success there is one.
  abbrev pub Opened : Code → Held lib → Type 0
  Opened success h = h.has_gadget ≡ true
  Opened c h = Unit {0}

  abbrev pub Kept : Bool → {A : Type 0} → A × List Event × Held lib → Type 0
  Kept there (a, es, h) = (follows there es ≡ some h.has_state) × (h.has_gadget ≡ h.has_state)

  Moves-Kept :
      {A : Type 0} (t s : Bool) (r : A × List Event × Held lib) → Moves lib t s s r → Kept t r
  Moves-Kept t s (a, es, h) (followed, state, gadget) =
      (followed ∙ ap some (sym state), gadget ∙ sym state)

  bind-Kept :
      {A B : Type 0} (t s : Bool) (io : Usb lib A) (next : A → Usb lib B) (h : Held lib)
      → follows t (io h).1 ≡ some s
      → Kept s (next (io h).0 (io h).2)
      → Kept t (bind lib io next h)
  bind-Kept t s io next h followed (followed', same') =
      let (a, es, h') = io h in (follows-append t s es (next a h').1 followed ∙ followed', same')

  finish-Kept :
      (c : Code) (h : Held lib)
      → h.has_state ≡ true
      → h.has_gadget ≡ false
      → Kept true (finish lib c h) × Opened (finish lib c h).0 (finish lib c h).2
  unfolding follows step
  finish-Kept success h state gadget = ((ap some (sym state), sym state), refl)
  finish-Kept (minus n) h state gadget = ((refl, gadget), tt)
  finish-Kept (plus n) h state gadget = ((refl, gadget), tt)

  after_open-Kept :
      (c : Code) (h : Held lib)
      → h.has_state ≡ false
      → h.has_gadget ≡ false
      → let (c', es, h') = after_open lib c h in
        Kept false (c', called opens c ∷ es, h') × Opened c' h'
  unfolding follows step
  after_open-Kept success h state gadget =
      let h₁ : Held lib = record h { has_state = true } in
      let (followed, state', gadget') = build-Stays lib false h₁ refl gadget in
      let (code, es, h₂) = build lib h₁ in
      let (kept, opened) = finish-Kept code h₂ state' gadget' in
      (bind-Kept true true (build lib) (finish lib) h₁ followed kept, opened)
  after_open-Kept (minus n) h state gadget = ((ap some (sym state), gadget ∙ sym state), tt)
  after_open-Kept (plus n) h state gadget = ((ap some (sym state), gadget ∙ sym state), tt)

  create-Kept :
      (h : Held lib)
      → h.has_state ≡ false
      → h.has_gadget ≡ false
      → Kept false (create lib h) × Opened (create lib h).0 (create lib h).2
  unfolding create
  create-Kept h state gadget =
      let (c, w) = lib.ask opens h.world in after_open-Kept c (record h { world = w }) state gadget

  init-Kept :
      (h : Held lib)
      → h.has_gadget ≡ h.has_state
      → Kept h.has_state (init lib h) × Opened (init lib h).0 (init lib h).2
  unfolding init follows
  init-Kept h same = go h.has_gadget refl
    where
      go :
          (b : Bool)
          → h.has_gadget ≡ b
          → let r = if b then (success, [], h) else create lib h in
            Kept h.has_state r × Opened r.0 r.2
      go true e = ((refl, same), e)
      go false e =
          let (kept, opened) = create-Kept h (sym same ∙ e) e in
          (subst (λ t. Kept t (create lib h)) (sym (sym same ∙ e)) kept, opened)

  disable-Stays : Stays lib true (disable lib)
  unfolding disable
  disable-Stays h state gadget = go h.has_gadget gadget
    where
      go :
          (b : Bool)
          → b ≡ true
          → Moves lib true true true
              (if b then bind lib (look lib gadget_udc) (unbind lib) h else (minus 19, [], h))
      go true e =
          bind-Stays lib true (look lib gadget_udc) (unbind lib) (look-Stays lib true gadget_udc)
            (unbind-Stays lib true) h state gadget
      go false e = cc

  disable-Kept : (h : Held lib) → h.has_gadget ≡ h.has_state → Kept h.has_state (disable lib h)
  unfolding disable follows
  disable-Kept h same = go h.has_gadget refl
    where
      go :
          (b : Bool)
          → h.has_gadget ≡ b
          → Kept h.has_state
              (if b then bind lib (look lib gadget_udc) (unbind lib) h else (minus 19, [], h))
      go true e =
          let state : h.has_state ≡ true = sym same ∙ e in
          let r = bind lib (look lib gadget_udc) (unbind lib) h in
          subst (λ t. Kept t r) (sym state)
            (Moves-Kept true true r (
              bind-Stays lib true (look lib gadget_udc) (unbind lib)
                (look-Stays lib true gadget_udc) (unbind-Stays lib true) h state e))
      go false e = (refl, same)

  look_again-Kept :
      (c : Code) (h : Held lib)
      → h.has_gadget ≡ h.has_state
      → Opened c h
      → Kept h.has_state (look_again lib c h)
  unfolding follows
  look_again-Kept success h same opened =
      let state : h.has_state ≡ true = sym same ∙ opened in
      let r = look lib first_udc h in
      subst (λ t. Kept t r) (sym state)
        (Moves-Kept true true r (look-Stays lib true first_udc h state opened))
  look_again-Kept (minus n) h same opened = (refl, same)
  look_again-Kept (plus n) h same opened = (refl, same)

  find_udc-Kept :
      (b : Bool) (h : Held lib)
      → h.has_state ≡ true
      → h.has_gadget ≡ true
      → Kept true (find_udc lib b h)
  unfolding follows step
  find_udc-Kept true h state gadget = (ap some (sym state), gadget ∙ sym state)
  find_udc-Kept false h state gadget =
      let h' : Held lib = record {
        has_state = false;
        has_gadget = false;
        world = lib.clean h.world;
      } in
      let (kept, opened) = create-Kept h' refl refl in
      let (c, es, h'') = create lib h' in
      bind-Kept false h''.has_state (create lib) (look_again lib) h' kept.0
        (look_again-Kept c h'' kept.1 opened)

  present_on-Kept :
      (i : Identity) (b : Bool) (h : Held lib)
      → h.has_gadget ≡ h.has_state
      → Kept h.has_state (present_on lib i b h)
  unfolding follows
  present_on-Kept i false h same = (refl, same)
  present_on-Kept i true h same = go h.has_gadget refl
    where
      go :
          (b : Bool)
          → h.has_gadget ≡ b
          → Kept h.has_state (if not b then (minus 11, [], h) else present lib i h)
      go true e =
          let state : h.has_state ≡ true = sym same ∙ e in
          subst (λ t. Kept t (present lib i h)) (sym state)
            (Moves-Kept true true (present lib i h) (present-Stays lib true i h state e))
      go false e = (refl, same)

  configure-Kept :
      (i : Identity) (h : Held lib)
      → h.has_state ≡ true
      → h.has_gadget ≡ true
      → Kept true (configure lib i h)
  configure-Kept i h state gadget =
      let (looked_up, state', gadget') = look-Stays lib true first_udc h state gadget in
      let (b, es, h₁) = look lib first_udc h in
      let kept : Kept true (bind lib (look lib first_udc) (find_udc lib) h) =
        bind-Kept true true (look lib first_udc) (find_udc lib) h looked_up
          (find_udc-Kept b h₁ state' gadget') in
      let (udc, fs, h₂) = bind lib (look lib first_udc) (find_udc lib) h in
      bind-Kept true h₂.has_state (bind lib (look lib first_udc) (find_udc lib)) (present_on lib i)
        h kept.0 (present_on-Kept i udc h₂ kept.1)

  switch_to-Kept :
      (i : Identity) (c : Code) (h : Held lib)
      → h.has_gadget ≡ h.has_state
      → Opened c h
      → Kept h.has_state (switch_to lib i c h)
  unfolding follows
  switch_to-Kept i success h same opened =
      let state : h.has_state ≡ true = sym same ∙ opened in
      let (followed, state', gadget') = disable-Stays h state opened in
      let (_, _, h') = disable lib h in
      subst (λ t. Kept t (switch_to lib i success h)) (sym state)
        (bind-Kept true true (disable lib) (λ _. configure lib i) h followed
          (configure-Kept i h' state' gadget'))
  switch_to-Kept i (minus n) h same opened = (refl, same)
  switch_to-Kept i (plus n) h same opened = (refl, same)

  -- Whatever libusbgx answers: the set-up, a change of the mode and the detaching open it only when it is
  -- not open, make every other call only while it is, and close it only then; and behind each of them
  -- there is a gadget exactly when it is open, if this was so before.
  pub operations-Kept :
      (mode : Mode) (h : Held lib)
      → h.has_gadget ≡ h.has_state
      → Kept h.has_state (init lib h)
        × Kept h.has_state (set_mode lib mode h)
        × Kept h.has_state (disable lib h)
  unfolding set_mode
  operations-Kept mode h same =
      let (kept, opened) = init-Kept h same in
      let (c, _, h') = init lib h in
      (
        kept,
        bind-Kept h.has_state h'.has_state (init lib) (switch_to lib (identities mode)) h kept.0
            (switch_to-Kept (identities mode) c h' kept.1 opened),
        disable-Kept h same,
      )
