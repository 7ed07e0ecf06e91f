-- ===== src/Gadget.antt =====
-- src/usb_accessory/usb_accessory.c: the USB gadget, with libusbgx as a parameter that keeps a state of
-- its own. The functions run under the mutex, so a call is one step. Waiting, logging, and the constant
-- attributes of the gadget and of its configuration are left out.
pub mod Stays
pub mod Follows
pub mod Enabled
pub mod Tests
use qdplay.Prelude.{ℕ, Bool, true, false, not, ◌||◌, List, [], ◌∷◌, ◌++◌, if◌then◌else◌}

-- `usb_accessory_data_t`
pub record Identity : Type 0 where
  pub vid : ℕ
  pub pid : ℕ
  pub serial : List ℕ
  pub manufacturer : List ℕ
  pub product : List ℕ

abbrev text_serial : List ℕ
text_serial = b'R' ∷ b'5' ∷ b'C' ∷ b'R' ∷ b'1' ∷ b'0' ∷ b'3' ∷ b'R' ∷ b'S' ∷ b'Q' ∷ b'E' ∷ []

abbrev text_product : List ℕ
text_product =
    b'S' ∷ b'A' ∷ b'M' ∷ b'S' ∷ b'U' ∷ b'N' ∷ b'G' ∷ b'_' ∷ b'A' ∷ b'n' ∷ b'd' ∷ b'r' ∷ b'o' ∷ b'i'
    ∷ b'd' ∷ []

-- `usb_accessory_mode_t`
pub data Mode : Type 0 where
  mode_initial mode_accessory : Mode

-- `usb_accessory_identities`
unfoldable pub identities : Mode → Identity
identities mode_initial = record {
  vid = 0x04E8;
  pid = 0x6860;
  serial = text_serial;
  manufacturer =
      b'S' ∷ b'a' ∷ b'm' ∷ b's' ∷ b'u' ∷ b'n' ∷ b'g' ∷ b' ' ∷ b'E' ∷ b'l' ∷ b'e' ∷ b'c' ∷ b't'
      ∷ b'r' ∷ b'o' ∷ b'n' ∷ b'i' ∷ b'c' ∷ b's' ∷ b' ' ∷ b'C' ∷ b'o' ∷ b'.' ∷ b',' ∷ b' ' ∷ b'L'
      ∷ b't' ∷ b'd' ∷ b'.' ∷ [];
  product = text_product;
}
identities mode_accessory = record {
  vid = 0x18D1;
  pid = 0x2D00;
  serial = text_serial;
  manufacturer = b'G' ∷ b'o' ∷ b'o' ∷ b'g' ∷ b'l' ∷ b'e' ∷ b' ' ∷ b'I' ∷ b'n' ∷ b'c' ∷ b'.' ∷ [];
  product = text_product;
}

-- The `int` of a call: USBG_SUCCESS, -n, or n.
pub data Code : Type 0 where
  success : Code
  minus : ℕ → Code
  plus : ℕ → Code

-- The calls of libusbgx that return a code; the first is `usbg_init`.
pub data Request : Type 0 where
  opens : Request
  disables_stale : Request
  removes_stale : Request
  creates_gadget : Identity → Request
  creates_function : Request
  creates_config : Request
  adds_function : Request
  sets_vendor_id : ℕ → Request
  sets_product_id : ℕ → Request
  sets_manufacturer : List ℕ → Request
  sets_product : List ℕ → Request
  disables : Request
  enables : Request

-- Those that return a pointer.
pub data Query : Type 0 where
  stale_gadget stale_udc gadget_udc first_udc : Query

-- What has been called, with the code, or with whether there is a pointer; `usbg_cleanup` is last.
pub data Event : Type 0 where
  called : Request → Code → Event
  looked : Query → Bool → Event
  cleaned : Event

-- libusbgx: what its calls return and do to its own state.
pub record Usbg : Type 1 where
  pub World : Type 0
  pub ask : Request → World → Code × World
  pub look : Query → World → Bool × World
  pub clean : World → World

module _ (lib : Usbg) where
  -- Whether `usb_accessory_state` and `usb_accessory_gadget` are not NULL, and the library's state.
  pub record Held : Type 0 where
    pub has_state : Bool
    pub has_gadget : Bool
    pub world : lib.World

  -- A function: its result, its calls, and what is held afterwards.
  abbrev pub Usb : Type 0 → Type 0
  Usb A = Held → A × List Event × Held

  abbrev pub give : {A : Type 0} → A → Usb A
  give a h = (a, [], h)

  abbrev pub bind : {A B : Type 0} → Usb A → (A → Usb B) → Usb B
  bind io next h = let (a, es, h') = io h in let (b, fs, h'') = next a h' in (b, es ++ fs, h'')

  abbrev pub ask : Request → Usb Code
  ask r h = let (c, w) = lib.ask r h.world in (c, called r c ∷ [], record h { world = w })

  abbrev pub look : Query → Usb Bool
  look q h = let (b, w) = lib.look q h.world in (b, looked q b ∷ [], record h { world = w })

  -- `usbg_cleanup(usb_accessory_state); usb_accessory_state = NULL`
  abbrev pub clean : Usb (Unit {0})
  clean h = (tt, cleaned ∷ [], record h { has_state = false; world = lib.clean h.world })

  -- `usb_accessory_gadget = NULL`
  abbrev pub drop_gadget : Usb (Unit {0})
  drop_gadget h = (tt, [], record h { has_gadget = false })

  -- What comes behind a call that succeeds; an error is returned.
  abbrev pub on_success : Usb Code → Code → Usb Code
  on_success next success = next
  on_success next c = give c

  abbrev pub then_on : Usb Code → Usb Code → Usb Code
  then_on io next = bind io (on_success next)

  -- A gadget that an earlier run has left is unbound and removed.
  abbrev pub unbind_stale : Bool → Usb Code
  unbind_stale true = ask disables_stale
  unbind_stale false = give success

  abbrev pub rm_stale : Bool → Usb Code
  rm_stale bound = bind (unbind_stale bound) (λ _. ask removes_stale)

  abbrev pub remove_stale : Bool → Usb Code
  remove_stale false = give success
  remove_stale true = bind (look stale_udc) rm_stale

  -- The calls between `usbg_init` and the end.
  abbrev pub build : Usb Code
  build = then_on (bind (look stale_gadget) remove_stale) (
      then_on (ask (creates_gadget (identities mode_initial)))
        (then_on (ask creates_function) (then_on (ask creates_config) (ask adds_function))))

  -- `usb_accessory_gadget = g`, or the label `cleanup`.
  abbrev pub finish : Code → Usb Code
  finish success h = (success, [], record h { has_gadget = true })
  finish c h = bind clean (λ _. give c) h

  -- With the code of `usbg_init`, which stores nothing when it fails.
  abbrev pub after_open : Code → Usb Code
  after_open success h = bind build finish (record h { has_state = true })
  after_open c h = (c, [], h)

  -- `usb_accessory_create_locked`
  unfoldable pub create : Usb Code
  create = bind (ask opens) after_open

  -- `usb_accessory_init`
  unfoldable pub init : Usb Code
  init h = if h.has_gadget then (success, [], h) else create h

  abbrev pub unbind : Bool → Usb Code
  unbind true = ask disables
  unbind false = give success

  -- `usb_accessory_disable_locked`, which `usb_accessory_disable` calls. 19 is ENODEV.
  unfoldable pub disable : Usb Code
  disable h = if h.has_gadget then bind (look gadget_udc) unbind h else (minus 19, [], h)

  -- Whether there is a controller behind a second creation.
  abbrev pub look_again : Code → Usb Bool
  look_again success = look first_udc
  look_again _ = give false

  -- The library reads the list of controllers when it is opened.
  abbrev pub find_udc : Bool → Usb Bool
  find_udc true = give true
  find_udc false = bind clean (λ _. bind drop_gadget (λ _. bind create look_again))

  -- The identity is written, and the gadget bound.
  abbrev pub present : Identity → Usb Code
  present i = then_on (ask (sets_vendor_id i.vid)) (
      then_on (ask (sets_product_id i.pid)) (
        then_on (ask (sets_manufacturer i.manufacturer))
          (then_on (ask (sets_product i.product)) (ask enables))))

  -- 11 is EAGAIN.
  abbrev pub present_on : Identity → Bool → Usb Code
  present_on i udc h = if not udc || not h.has_gadget then (minus 11, [], h) else present i h

  -- Behind the detaching.
  abbrev pub configure : Identity → Usb Code
  configure i = bind (bind (look first_udc) find_udc) (present_on i)

  -- `ret < 0 ? ret : -ENODEV` for a gadget that can not be created.
  abbrev pub switch_to : Identity → Code → Usb Code
  switch_to i success = bind disable (λ _. bind (bind (look first_udc) find_udc) (present_on i))
  switch_to i (minus n) = give (minus n)
  switch_to i (plus n) = give (minus 19)

  -- `usb_accessory_set_mode`
  unfoldable pub set_mode : Mode → Usb Code
  set_mode mode = bind init (switch_to (identities mode))
