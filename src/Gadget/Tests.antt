-- ===== src/Gadget/Tests.antt =====
-- The gadget with a library that succeeds, and one whose controller is there at the second look only.
use qdplay.Prelude.{ℕ, suc, Bool, false, ◌≡◌, refl, List, ◌++◌, ltb}
use qdplay.Gadget.{
  mode_accessory, success, Query, first_udc, Event, Usbg, Held, init, create, disable, set_mode,
  identities,
}
use qdplay.Gadget.Stays.{}
use qdplay.Gadget.Follows.{Kept, operations-Kept}
use qdplay.Gadget.Enabled.{presented, set_mode-Ends}

-- The world counts how often the library was closed; a controller is there once it has been.
abbrev there : Query → ℕ → Bool
there first_udc n = ltb 0 n
there _ n = false

abbrev late : Usbg
late = record {
  World = ℕ;
  ask = λ r n. (success, n);
  look = λ q n. (there q n, n);
  clean = λ n. suc n;
}

abbrev nothing_held : Held late
nothing_held = record { has_state = false; has_gadget = false; world = 0 }

operations-Kept_example :
    Kept late false (init late nothing_held)
    × Kept late false (set_mode late mode_accessory nothing_held)
    × Kept late false (disable late nothing_held)
operations-Kept_example = operations-Kept late mode_accessory nothing_held refl

succeeds : (set_mode late mode_accessory nothing_held).0 ≡ success
unfolding set_mode init create disable
succeeds = refl

set_mode-Ends_example :
    (before : List Event) × ((set_mode late mode_accessory nothing_held).1
      ≡ before ++ presented (identities mode_accessory))
set_mode-Ends_example = set_mode-Ends late mode_accessory nothing_held succeeds
