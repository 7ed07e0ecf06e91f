-- ===== src/Struct.antt =====
-- The packed structures of the messages: the bytes of a buffer, into which an initialiser writes the
-- fields at their offsets.
pub mod Bytes
use qdplay.Prelude.{
  ℕ, suc, ◌+◌, ◌-◌, Bool, true, ◌&&◌, List, [], ◌∷◌, length, get_or, set, ltb, leb, if◌then◌else◌,
}
use qdplay.Words.{put_be32}

-- `memcpy(memory + offset, bytes, ...)`. A write behind the end of `memory` changes nothing.
unfoldable pub put_bytes : ℕ → List ℕ → List ℕ → List ℕ
put_bytes offset [] memory = memory
put_bytes offset (b ∷ bs) memory = put_bytes (suc offset) bs (set memory offset b)

-- A field: its offset and its bytes.
abbrev pub Field : Type 0
Field = ℕ × List ℕ

-- A `uint32_t` that is stored through `ntohl` or `bswap_32`.
abbrev pub u32 : ℕ → ℕ → Field
u32 offset v = (offset, put_be32 v [])

-- The fields are stored in turn.
unfoldable pub fill : List Field → List ℕ → List ℕ
fill [] memory = memory
fill ((offset, bytes) ∷ fs) memory = fill fs (put_bytes offset bytes memory)

-- The byte at an offset that holds `old` before the fields are stored.
abbrev pub byte_of : List Field → ℕ → ℕ → ℕ
byte_of [] i old = old
byte_of ((offset, bytes) ∷ fs) i old =
    byte_of fs i
      (if leb offset i && ltb i (offset + length bytes) then get_or bytes (i - offset) 0 else old)

-- No field ends behind `size`.
abbrev pub fits : List Field → ℕ → Bool
fits [] size = true
fits ((offset, bytes) ∷ fs) size = leb (offset + length bytes) size && fits fs size
