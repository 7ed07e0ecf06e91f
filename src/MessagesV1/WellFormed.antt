-- ===== src/MessagesV1/WellFormed.antt =====
-- When the bytes that are sent are one message of the legacy protocol.
use qdplay.Prelude.{
  ℕ, ◌+◌, ◌*◌, ◌%◌, ◌≡◌, ◌≤◌, ◌<◌, refl, ◌∙◌, sym, true, ◌&&◌, List, length, get_or, ◌==◌, arith,
}
use qdplay.Words.{be32_at}
use qdplay.Struct.{put_bytes, Field, fill, byte_of}
use qdplay.Struct.Bytes.{length-put_bytes, get_or-put_bytes_before, length-fill, get_or-fill}
use qdplay.MessagesV1.{has_binary_mark}

-- The mark, a total size that is the number of the bytes, and whole blocks of 512 bytes.
abbrev pub IsWellFormed : List ℕ → Type 0
IsWellFormed bytes =
    (has_binary_mark bytes ≡ true) × (be32_at bytes 8 ≡ length bytes) × (length bytes % 512 ≡ 0)

-- A big-endian number after the fields are stored.
abbrev pub be32_of : List Field → ℕ → List ℕ → ℕ
be32_of fs i memory =
    ((byte_of fs i (get_or memory i 0) * 256 + byte_of fs (i + 1) (get_or memory (i + 1) 0)) * 256
        + byte_of fs (i + 2) (get_or memory (i + 2) 0))
      * 256
    + byte_of fs (i + 3) (get_or memory (i + 3) 0)

pub be32_at-fill :
    (fs : List Field) (memory : List ℕ) (i : ℕ)
    → i + 3 < length memory
    → be32_at (fill fs memory) i ≡ be32_of fs i memory
be32_at-fill fs memory i room =
    rw
      (
        get_or-fill fs memory i (omega arith),
        get_or-fill fs memory (i + 1) (omega arith),
        get_or-fill fs memory (i + 2) (omega arith),
        get_or-fill fs memory (i + 3) (omega arith),
      )
      refl

-- The mark as the fields store it.
abbrev pub IsMarked : List Field → List ℕ → Type 0
IsMarked fs memory =
    (byte_of fs 0 (get_or memory 0 0) == b'!'
      && byte_of fs 1 (get_or memory 1 0) == b'B'
      && byte_of fs 2 (get_or memory 2 0) == b'I'
      && byte_of fs 3 (get_or memory 3 0) == b'N')
    ≡ true

-- A structure is well-formed when its fields say so.
pub fill-IsWellFormed :
    (fs : List Field) (memory : List ℕ)
    → 12 ≤ length memory
    → IsMarked fs memory
    → be32_of fs 8 memory ≡ length memory
    → length memory % 512 ≡ 0
    → IsWellFormed (fill fs memory)
fill-IsWellFormed fs memory room is_marked sized blocks = (
  rw
      (
        get_or-fill fs memory 0 (omega arith),
        get_or-fill fs memory 1 (omega arith),
        get_or-fill fs memory 2 (omega arith),
        get_or-fill fs memory 3 (omega arith),
      )
      is_marked,
  be32_at-fill fs memory 8 (omega arith) ∙ sized ∙ sym (length-fill fs memory),
  rw (length-fill fs memory) blocks,
)

-- A number in front of the bytes that are stored.
pub be32_at-put_bytes :
    (offset : ℕ) (bytes memory : List ℕ) (i : ℕ)
    → i + 4 ≤ offset
    → be32_at (put_bytes offset bytes memory) i ≡ be32_at memory i
be32_at-put_bytes offset bytes memory i before =
    rw
      (
        get_or-put_bytes_before offset bytes memory i (omega arith),
        get_or-put_bytes_before offset bytes memory (i + 1) (omega arith),
        get_or-put_bytes_before offset bytes memory (i + 2) (omega arith),
        get_or-put_bytes_before offset bytes memory (i + 3) (omega arith),
      )
      refl

-- Bytes that are stored behind the headers leave a message well-formed.
pub put_bytes-IsWellFormed :
    (offset : ℕ) (bytes message : List ℕ)
    → 12 ≤ offset
    → IsWellFormed message
    → IsWellFormed (put_bytes offset bytes message)
put_bytes-IsWellFormed offset bytes message behind (is_marked, sized, blocks) = (
  rw
      (
        get_or-put_bytes_before offset bytes message 0 (omega arith),
        get_or-put_bytes_before offset bytes message 1 (omega arith),
        get_or-put_bytes_before offset bytes message 2 (omega arith),
        get_or-put_bytes_before offset bytes message 3 (omega arith),
      )
      is_marked,
  be32_at-put_bytes offset bytes message 8 (omega arith)
      ∙ sized
      ∙ sym (length-put_bytes offset bytes message),
  rw (length-put_bytes offset bytes message) blocks,
)
