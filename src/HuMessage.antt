-- ===== src/HuMessage.antt =====
-- src/hu_message.c: the text messages between the head unit and the phone. A message is written as
-- the mark, hexadecimal numbers of fixed width, and texts with their lengths.
pub mod Hex
pub mod Codec
pub mod Tests
use qdplay.Prelude.{ℕ, List}

-- `hu_message_t`. A text is the list of its bytes without the final NUL, and `data_count` is the
-- length of `items`.
pub record Message : Type 0 where
  pub flow_id : ℕ
  pub app_id : List ℕ
  pub logic_id : List ℕ
  pub items : List (List ℕ)
