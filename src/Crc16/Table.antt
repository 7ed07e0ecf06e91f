-- ===== src/Crc16/Table.antt =====
-- The table against the polynomial division that it stands for.
use qdplay.Prelude.{
  ℕ, zero, suc, ◌*◌, ◌%◌, ◌<◌, ◌≡◌, refl, true, get_or, bit_xor, ◌==◌, ==_iff, if◌then◌else◌, ltb,
  passes_below, passes_below_lem,
}
use qdplay.Crc16.{crc16_tab}

-- One step of the division by x^16 + x^12 + x^5 + 1: shift left, and subtract if a bit falls out.
abbrev pub divide_bit : ℕ → ℕ
divide_bit r = if ltb r 32768 then r * 2 else bit_xor (r * 2 % 65536) 0x1021

pub divide_bits : ℕ → ℕ → ℕ
divide_bits zero r = r
divide_bits (suc n) r = divide_bits n (divide_bit r)

checked : passes_below (λ i. get_or crc16_tab i 0 == divide_bits 8 (i * 256)) 256 ≡ true
unfolding passes_below divide_bits
checked = refl

-- The entry for a byte is the remainder of the division of that byte, followed by sixteen zero bits,
-- by the polynomial 0x11021.
pub crc16_tab-divide_bits : (i : ℕ) → i < 256 → get_or crc16_tab i 0 ≡ divide_bits 8 (i * 256)
crc16_tab-divide_bits i h = (==_iff _ _).0 (passes_below_lem _ 256 h checked)
