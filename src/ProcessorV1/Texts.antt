-- ===== src/ProcessorV1/Texts.antt =====
-- The text messages that the legacy protocol sends fit their fields.
use qdplay.Prelude.{refl, [], ◌∷◌, arith}
use qdplay.HuMessage.Codec.{c_string}
use qdplay.HuMessage.Codec.Layout.{IsEncodable}
use qdplay.ProcessorV1.{
  hu_message, phoneready_id, phoneinitok_id, needupgrade_id, bt_auto_connected_id, needupgrade_item,
  bt_auto_connected_item,
}

-- `hu_message_init` gives texts that can be encoded.
pub phoneready-IsEncodable : IsEncodable (hu_message phoneready_id [])
unfolding c_string
phoneready-IsEncodable = record {
  flow = omega arith;
  app = (refl, omega arith);
  logic = (refl, omega arith);
  items = tt;
  count = omega arith;
  total = omega arith;
}

pub phoneinitok-IsEncodable : IsEncodable (hu_message phoneinitok_id [])
unfolding c_string
phoneinitok-IsEncodable = record {
  flow = omega arith;
  app = (refl, omega arith);
  logic = (refl, omega arith);
  items = tt;
  count = omega arith;
  total = omega arith;
}

pub needupgrade-IsEncodable : IsEncodable (hu_message needupgrade_id (needupgrade_item ∷ []))
unfolding c_string
needupgrade-IsEncodable = record {
  flow = omega arith;
  app = (refl, omega arith);
  logic = (refl, omega arith);
  items = ((refl, omega arith), tt);
  count = omega arith;
  total = omega arith;
}

pub bt_auto_connected-IsEncodable :
    IsEncodable (hu_message bt_auto_connected_id (bt_auto_connected_item ∷ []))
unfolding c_string
bt_auto_connected-IsEncodable = record {
  flow = omega arith;
  app = (refl, omega arith);
  logic = (refl, omega arith);
  items = ((refl, omega arith), tt);
  count = omega arith;
  total = omega arith;
}
