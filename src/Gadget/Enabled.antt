-- ===== src/Gadget/Enabled.antt =====
-- What `usb_accessory_set_mode` has done when it returns success.
use qdplay.Prelude.{
  Bool, true, false, not, ◌||◌, ◌≡◌, sym, ◌∙◌, ap, List, [], ◌∷◌, ◌++◌, if◌then◌else◌,
}
use mathlib.Core.List.{append_assoc}
use qdplay.Gadget.{
  Mode, Identity, identities, Code, success, minus, plus, Request, Event, called, Usbg, Held, Usb,
  bind, ask, look, on_success, then_on, init, disable, find_udc, present, present_on, configure,
  switch_to, set_mode, sets_vendor_id, sets_product_id, sets_manufacturer, sets_product, enables,
  first_udc,
}

-- The identity is written, and the gadget is bound.
abbrev pub presented : Identity → List Event
presented i =
    called (sets_vendor_id i.vid) success
    ∷ called (sets_product_id i.pid) success
    ∷ called (sets_manufacturer i.manufacturer) success
    ∷ called (sets_product i.product) success
    ∷ called enables success
    ∷ []

module _ (lib : Usbg) where
  -- A success has these calls, and no others.
  abbrev Makes : List Event → Usb lib Code → Type 0
  Makes es io = (h : Held lib) → (io h).0 ≡ success → (io h).1 ≡ es

  ask-Makes : (r : Request) → Makes (called r success ∷ []) (ask lib r)
  ask-Makes r h e = ap (λ c. called r c ∷ []) e

  then_on-Makes :
      (r : Request) (next : Usb lib Code) (es : List Event)
      → Makes es next
      → Makes (called r success ∷ es) (then_on lib (ask lib r) next)
  then_on-Makes r next es made h = let (c, w) = lib.ask r h.world in go c (record h { world = w })
    where
      go :
          (c : Code) (h' : Held lib)
          → (on_success lib next c h').0 ≡ success
          → called r c ∷ (on_success lib next c h').1 ≡ called r success ∷ es
      go success h' = λ e. ap (◌∷◌ (called r success)) (made h' e)
      go (minus n) h' = λ e. cc
      go (plus n) h' = λ e. cc

  present-Makes : (i : Identity) → Makes (presented i) (present lib i)
  present-Makes i = then_on-Makes (sets_vendor_id i.vid) _ _ (
      then_on-Makes (sets_product_id i.pid) _ _ (
        then_on-Makes (sets_manufacturer i.manufacturer) _ _
          (then_on-Makes (sets_product i.product) _ _ (ask-Makes enables))))

  -- A success ends with these calls.
  abbrev Ends : List Event → Code × List Event × Held lib → Type 0
  Ends es (c, fs, h) = c ≡ success → (before : List Event) × (fs ≡ before ++ es)

  bind-Ends :
      {A : Type 0} (es : List Event) (io : Usb lib A) (next : A → Usb lib Code)
      → ((a : A) (h : Held lib) → Ends es (next a h))
      → (h : Held lib) → Ends es (bind lib io next h)
  bind-Ends es io next ends h e =
      let (a, fs, h') = io h in
      let (before, split) = ends a h' e in
      (fs ++ before, ap (λ gs. fs ++ gs) split ∙ sym (append_assoc fs before es))

  present_on-Ends :
      (i : Identity) (b : Bool) (h : Held lib) → Ends (presented i) (present_on lib i b h)
  present_on-Ends i b h = go (not b || not h.has_gadget)
    where
      go : (t : Bool) → Ends (presented i) (if t then (minus 11, [], h) else present lib i h)
      go true = λ e. cc
      go false = λ e. ([], present-Makes i h e)

  switch_to-Ends :
      (i : Identity) (c : Code) (h : Held lib) → Ends (presented i) (switch_to lib i c h)
  switch_to-Ends i success h =
      bind-Ends (presented i) (disable lib) (λ _. configure lib i)
        (λ _ h'.
          bind-Ends (presented i) (bind lib (look lib first_udc) (find_udc lib)) (present_on lib i)
            (present_on-Ends i) h')
        h
  switch_to-Ends i (minus n) h = λ e. cc
  switch_to-Ends i (plus n) h = λ e. cc

  -- When a change of the mode returns success, its last five calls of libusbgx have all succeeded: they
  -- have written the vendor, the product, the manufacturer and the name of that mode, in this order, and
  -- then bound the gadget. This holds whatever libusbgx answers and whatever was held before.
  pub set_mode-Ends :
      (mode : Mode) (h : Held lib)
      → (set_mode lib mode h).0 ≡ success
      → (before : List Event) × ((set_mode lib mode h).1 ≡ before ++ presented (identities mode))
  unfolding set_mode
  set_mode-Ends mode h =
      bind-Ends (presented (identities mode)) (init lib) (switch_to lib (identities mode))
        (switch_to-Ends (identities mode)) h
