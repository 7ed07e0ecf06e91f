-- ===== src/HuMessage/Tests.antt =====
-- The theorems about hu_message.c, common_utils.c and crc16.c applied to concrete messages.
use qdplay.Prelude.{◌*◌, ◌≡◌, refl, some, [], ◌∷◌, ◌++◌, get_or, arith}
use qdplay.Crc16.{crc16_tab}
use qdplay.Crc16.Table.{divide_bits, crc16_tab-divide_bits}
use qdplay.HuMessage.{Message}
use qdplay.HuMessage.Hex.{dec_to_hex, read_hex}
use qdplay.HuMessage.Hex.RoundTrip.{read_hex-dec_to_hex}
use qdplay.HuMessage.Codec.{c_string, encode, decode}
use qdplay.HuMessage.Codec.Layout.{IsEncodable}
use qdplay.HuMessage.Codec.RoundTrip.{decode-encode}

abbrev greeting : Message
greeting = record {
  flow_id = 0xA1;
  app_id = b'1' ∷ b'7' ∷ [];
  logic_id = b'h' ∷ b'u' ∷ [];
  items = (b'o' ∷ b'k' ∷ []) ∷ [] ∷ [];
}

greeting-IsEncodable : IsEncodable greeting
unfolding c_string
greeting-IsEncodable = record {
  flow = omega arith;
  app = (refl, omega arith);
  logic = (refl, omega arith);
  items = ((refl, omega arith), ((refl, omega arith), tt));
  count = omega arith;
  total = omega arith;
}

decode-encode_example : decode (encode greeting 0 ++ (0 ∷ 0 ∷ [])) ≡ some greeting
decode-encode_example = decode-encode greeting (0 ∷ 0 ∷ []) greeting-IsEncodable

read_hex-dec_to_hex_example :
    read_hex 8 (dec_to_hex 8 0xBEEF ++ (b'z' ∷ [])) ≡ some (0xBEEF, b'z' ∷ [])
read_hex-dec_to_hex_example =
    read_hex-dec_to_hex 8 0xBEEF (b'z' ∷ []) (omega arith) (omega arith) (omega arith) (omega arith)

crc16_tab-divide_bits_example : get_or crc16_tab 5 0 ≡ divide_bits 8 (5 * 256)
crc16_tab-divide_bits_example = crc16_tab-divide_bits 5 (omega arith)
