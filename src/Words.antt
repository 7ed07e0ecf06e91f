-- ===== src/Words.antt =====
-- Machine words: C's unsigned arithmetic, and the big-endian fields of the packed structures.
use qdplay.Prelude.{ℕ, ◌+◌, ◌*◌, ◌/◌, ◌%◌, ◌^◌, ◌<◌, ◌≡◌, List, ◌∷◌, get_or, arith}

-- `uint64_t` addition.
abbrev pub add_u64 : ℕ → ℕ → ℕ
add_u64 a b = (a + b) % 2 ^ 64

-- The four bytes of a big-endian `uint32_t`, as `bswap_32` leaves it in memory.
abbrev pub put_be32 : ℕ → List ℕ → List ℕ
put_be32 v rest = (v / 2 ^ 24 % 256) ∷ (v / 2 ^ 16 % 256) ∷ (v / 2 ^ 8 % 256) ∷ (v % 256) ∷ rest

-- The two bytes of a big-endian `uint16_t`.
abbrev pub put_be16 : ℕ → List ℕ → List ℕ
put_be16 v rest = (v / 2 ^ 8 % 256) ∷ (v % 256) ∷ rest

-- The big-endian `uint32_t` at an offset of a packed structure.
abbrev pub be32_at : List ℕ → ℕ → ℕ
be32_at bs i =
    ((get_or bs i 0 * 256 + get_or bs (i + 1) 0) * 256 + get_or bs (i + 2) 0) * 256
    + get_or bs (i + 3) 0

-- The big-endian `uint16_t` at an offset of a packed structure.
abbrev pub be16_at : List ℕ → ℕ → ℕ
be16_at bs i = get_or bs i 0 * 256 + get_or bs (i + 1) 0

pub be32_bytes :
    (v : ℕ)
    → v < 2 ^ 32
    → ((v / 2 ^ 24 % 256 * 256 + v / 2 ^ 16 % 256) * 256 + v / 2 ^ 8 % 256) * 256 + v % 256 ≡ v
be32_bytes v h = omega arith
