-- ===== src/HuMessage/Codec.antt =====
-- src/hu_message.c: `hu_message_encode` and `hu_message_decode`. Memory is always to be had.
pub mod Layout
pub mod RoundTrip
use qdplay.Prelude.{
  ℕ, zero, suc, ◌+◌, ◌-◌, ◌*◌, ◌/◌, ◌%◌, ◌^◌, Bool, true, false, ◌&&◌, ◌||◌, Option, none, some,
  List, [], ◌∷◌, ◌++◌, length, take, drop, ltb, ◌==◌, if◌then◌else◌,
}
use qdplay.Crc16.{crc16_xmodem}
use qdplay.HuMessage.{Message}
use qdplay.HuMessage.Hex.{dec_to_hex, read_hex}

infixl 5 ◌>>=◌ ◌>>◌
abbrev ◌>>=◌ {ℓ κ} : {A : Type ℓ} {B : Type κ} → Option A → (A → Option B) → Option B
none >>= f = none
some a >>= f = f a

abbrev ◌>>◌ {ℓ} : {B : Type ℓ} → Option (Unit {0}) → Option B → Option B
m >> k = m >>= λ _. k

abbrev pub guard : Bool → Option (Unit {0})
guard true = some tt
guard false = none

-- "A6A6"
abbrev pub packet_mark : List ℕ
packet_mark = b'A' ∷ b'6' ∷ b'A' ∷ b'6' ∷ []

-- The characters of a C string: those before the first NUL.
unfoldable pub c_string : List ℕ → List ℕ
c_string [] = []
c_string (c ∷ cs) = if c == 0 then [] else c ∷ c_string cs

abbrev pub strlen : List ℕ → ℕ
strlen s = length (c_string s)

-- The lengths of the texts in `items`, each with eight digits for its length.
pub items_len : List (List ℕ) → ℕ
items_len [] = 0
items_len (x ∷ xs) = 8 + strlen x + items_len xs

-- `hu_message_calc_len`, in 32 bits.
pub calc_len : Message → ℕ
calc_len m =
    (4 + 2 + 8 + 2 + strlen m.app_id + 2 + strlen m.logic_id + 2 + items_len m.items + 4) % 2 ^ 32

-- The declared total: the length rounded up to a multiple of `chunk_len`, if there is one.
pub chunked_len : ℕ → ℕ → ℕ
chunked_len chunk_len total =
    let chunked = total / chunk_len * chunk_len in
    if ltb 0 chunk_len
    then (if ltb chunked total then (chunked + chunk_len) % 2 ^ 32 else chunked)
    else total

-- `HU_MESSAGE_PACKET_PUT_STR`, in front of what follows.
pub put_str : ℕ → List ℕ → List ℕ → List ℕ
put_str digits s rest = dec_to_hex digits (strlen s) ++ (c_string s ++ rest)

pub put_items : List (List ℕ) → List ℕ → List ℕ
put_items [] rest = rest
put_items (x ∷ xs) rest = put_str 8 x (put_items xs rest)

-- The texts and the data, with the count of the data in a byte.
pub put_fields : Message → List ℕ → List ℕ
put_fields m rest =
    put_str 2 m.app_id
      (put_str 2 m.logic_id (dec_to_hex 2 (length m.items) ++ put_items m.items rest))

-- Everything but the checksum, in front of what follows.
pub put_body : Message → ℕ → List ℕ → List ℕ
put_body m chunked rest =
    packet_mark ++ (dec_to_hex 2 m.flow_id ++ (dec_to_hex 8 chunked ++ put_fields m rest))

-- `hu_message_encode`: the bytes written to the buffer. With a `chunk_len` the buffer is longer, and
-- its last bytes are not initialised.
pub encode : Message → ℕ → List ℕ
encode m chunk_len =
    let chunked = chunked_len chunk_len (calc_len m) in
    put_body m chunked (dec_to_hex 4 (crc16_xmodem (take (calc_len m - 4) (put_body m chunked []))))

-- `hu_message_read_str`
pub read_str : ℕ → List ℕ → Option (List ℕ × List ℕ)
read_str len rest = if ltb (length rest) len then none else some (take len rest, drop len rest)

-- The loop over the data: `count` texts are to be read.
pub read_items : ℕ → List ℕ → Option (List (List ℕ))
read_items zero rest = some []
read_items (suc count) rest = do
  (len, rest) ← read_hex 8 rest
  (item, rest) ← read_str len rest
  items ← read_items count rest
  some (item ∷ items)

-- `memcmp(data, HU_MESSAGE_PACKET_MARK, HU_MESSAGE_PACKET_MARK_LEN) == 0`
pub starts_with_mark : List ℕ → Bool
starts_with_mark (a ∷ b ∷ c ∷ d ∷ _) = a == b'A' && b == b'6' && c == b'A' && d == b'6'
starts_with_mark _ = false

-- Where the fixed part ends: the mark, two digits and eight digits.
abbrev pub head_len : ℕ
head_len = 14

-- The part of `hu_message_decode` behind the head.
pub read_fields : ℕ → List ℕ → Option Message
read_fields flow_id rest = do
  (app_len, rest) ← read_hex 2 rest
  (app_id, rest) ← read_str app_len rest
  (logic_len, rest) ← read_hex 2 rest
  (logic_id, rest) ← read_str logic_len rest
  (count, rest) ← read_hex 2 rest
  items ← read_items count rest
  some (record { flow_id = flow_id % 256; app_id = app_id; logic_id = logic_id; items = items })

-- `hu_message_decode`. From the declared length on the bytes end at it; if it is shorter than what
-- is read already, no byte is left.
pub decode : List ℕ → Option Message
unfolding starts_with_mark read_fields
decode bytes = do
  guard (starts_with_mark bytes)
  (flow_id, rest) ← read_hex 2 (drop 4 bytes)
  (total_len, rest) ← read_hex 8 rest
  guard (if ltb (length bytes) total_len then false else true)
  read_fields flow_id (take (total_len - head_len) rest)
