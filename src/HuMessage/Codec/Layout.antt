-- ===== src/HuMessage/Codec/Layout.antt =====
-- How long the parts of an encoded message are, and what follows them.
use mathlib.Core.List.{append_assoc}
use qdplay.Prelude.{
  ℕ, ◌+◌, ◌-◌, ◌^◌, ◌≡◌, ◌<◌, refl, ◌∙◌, ap, List, [], ◌∷◌, ◌++◌, length, take, arith, All,
  length-append,
}
use qdplay.Crc16.{crc16_xmodem}
use qdplay.HuMessage.{Message}
use qdplay.HuMessage.Hex.{dec_to_hex}
use qdplay.HuMessage.Hex.RoundTrip.{length-dec_to_hex}
use qdplay.HuMessage.Codec.{
  packet_mark, c_string, strlen, items_len, calc_len, chunked_len, put_str, put_items, put_fields,
  put_body, encode,
}

-- A text without a NUL, with fewer than `n` bytes.
abbrev pub IsText : ℕ → List ℕ → Type 0
IsText n s = (c_string s ≡ s) × (length s < n)

abbrev pub sum_len : List (List ℕ) → ℕ
sum_len [] = 0
sum_len (x ∷ xs) = 8 + length x + sum_len xs

-- The length of the whole message.
abbrev pub full_length : Message → ℕ
full_length m = 24 + length m.app_id + length m.logic_id + sum_len m.items

-- A message whose numbers and lengths fit their fields.
pub record IsEncodable (m : Message) : Type 0 where
  pub flow : m.flow_id < 256
  pub app : IsText 256 m.app_id
  pub logic : IsText 256 m.logic_id
  pub items : All (IsText (2 ^ 32)) m.items
  pub count : length m.items < 256
  pub total : full_length m < 2 ^ 32

items_len-sum_len : (xs : List (List ℕ)) → All (IsText (2 ^ 32)) xs → items_len xs ≡ sum_len xs
unfolding items_len
items_len-sum_len [] all = refl
items_len-sum_len (x ∷ xs) all = rw (items_len-sum_len xs all.1, all.0.0) refl

pub calc_len-full_length : (m : Message) → IsEncodable m → calc_len m ≡ full_length m
unfolding calc_len
calc_len-full_length m v =
    let total = v.total in
    rw (items_len-sum_len m.items v.items, v.app.0, v.logic.0) (omega (arith, total))

put_str-append : (n : ℕ) (s xs ys : List ℕ) → put_str n s xs ++ ys ≡ put_str n s (xs ++ ys)
unfolding put_str
put_str-append n s xs ys =
    append_assoc (dec_to_hex n (strlen s)) (c_string s ++ xs) ys
    ∙ ap (◌++◌ (dec_to_hex n (strlen s))) (append_assoc (c_string s) xs ys)

put_items-append :
    (items : List (List ℕ)) (xs ys : List ℕ) → put_items items xs ++ ys ≡ put_items items (xs ++ ys)
unfolding put_items
put_items-append [] xs ys = refl
put_items-append (x ∷ items) xs ys =
    put_str-append 8 x (put_items items xs) ys ∙ ap (put_str 8 x) (put_items-append items xs ys)

pub put_fields-append :
    (m : Message) (xs ys : List ℕ) → put_fields m xs ++ ys ≡ put_fields m (xs ++ ys)
unfolding put_fields
put_fields-append m xs ys =
    put_str-append 2 m.app_id _ ys
    ∙ ap (put_str 2 m.app_id) (
        put_str-append 2 m.logic_id _ ys
        ∙ ap (put_str 2 m.logic_id) (
            append_assoc (dec_to_hex 2 (length m.items)) (put_items m.items xs) ys
            ∙ ap (◌++◌ (dec_to_hex 2 (length m.items))) (put_items-append m.items xs ys)))

pub put_body-append :
    (m : Message) (n : ℕ) (xs ys : List ℕ) → put_body m n xs ++ ys ≡ put_body m n (xs ++ ys)
unfolding put_body
put_body-append m n xs ys = ap (◌++◌ packet_mark) (
    append_assoc (dec_to_hex 2 m.flow_id) _ ys
    ∙ ap (◌++◌ (dec_to_hex 2 m.flow_id)) (
        append_assoc (dec_to_hex 8 n) (put_fields m xs) ys
        ∙ ap (◌++◌ (dec_to_hex 8 n)) (put_fields-append m xs ys)))

length-put_str : (n : ℕ) (s rest : List ℕ) → length (put_str n s rest) ≡ n + strlen s + length rest
unfolding put_str
length-put_str n s rest = omega (
  arith,
  length-append (dec_to_hex n (strlen s)) (c_string s ++ rest),
  length-append (c_string s) rest,
  length-dec_to_hex n (strlen s),
)

length-put_items :
    (xs : List (List ℕ)) (rest : List ℕ)
    → All (IsText (2 ^ 32)) xs
    → length (put_items xs rest) ≡ sum_len xs + length rest
unfolding put_items
length-put_items [] rest all = omega arith
length-put_items (x ∷ xs) rest all =
    let text : strlen x ≡ length x = ap length all.0.0 in
    omega (arith, length-put_str 8 x (put_items xs rest), length-put_items xs rest all.1, text)

pub length-put_fields :
    (m : Message) (rest : List ℕ)
    → IsEncodable m
    → length (put_fields m rest) + 18 ≡ full_length m + length rest
unfolding put_fields
length-put_fields m rest v =
    let app : strlen m.app_id ≡ length m.app_id = ap length v.app.0 in
    let logic : strlen m.logic_id ≡ length m.logic_id = ap length v.logic.0 in
    omega (
      arith,
      length-put_str 2 m.app_id
          (put_str 2 m.logic_id (dec_to_hex 2 (length m.items) ++ put_items m.items rest)),
      length-put_str 2 m.logic_id (dec_to_hex 2 (length m.items) ++ put_items m.items rest),
      length-append (dec_to_hex 2 (length m.items)) (put_items m.items rest),
      length-dec_to_hex 2 (length m.items),
      length-put_items m.items rest v.items,
      app,
      logic,
    )

-- The length of an encoded message is the length that it declares.
pub length-encode : (m : Message) → IsEncodable m → length (encode m 0) ≡ full_length m
unfolding encode chunked_len put_body
length-encode m v =
    let crc = dec_to_hex 4 (crc16_xmodem (take (calc_len m - 4) (put_body m (calc_len m) []))) in
    let fields = put_fields m crc in
    omega (
      arith,
      length-append (dec_to_hex 2 m.flow_id) (dec_to_hex 8 (calc_len m) ++ fields),
      length-append (dec_to_hex 8 (calc_len m)) fields,
      length-dec_to_hex 2 m.flow_id,
      length-dec_to_hex 8 (calc_len m),
      length-put_fields m crc v,
      length-dec_to_hex 4 (crc16_xmodem (take (calc_len m - 4) (put_body m (calc_len m) []))),
    )
