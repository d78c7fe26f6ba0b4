-- ===== src/Wire.antt =====
-- Bytes on the wire and integers in memory: include/itch/parser.hpp (namespace utils). An unsigned
-- integer of `w` bytes is a number below 256 ^ w; what `memcpy` and `bit_cast` see of it depends
-- on the byte order of the host, which is a parameter.
pub mod BigEndian
pub mod At
use itchcpp.Prelude.{ℕ, zero, suc, ◌+◌, ◌*◌, ◌/◌, ◌%◌, ◌<◌, ◌≡◌, refl, List, [], ◌∷◌, reverse}

abbrev pub IsByte : ℕ → Type 0
IsByte b = b < 256

-- std::endian::native
pub data Endian : Type 0 where
  little big : Endian

-- The `w` bytes of an integer, the least significant first, and back.
unfoldable pub low_first : ℕ → ℕ → List ℕ
low_first zero v = []
low_first (suc w) v = v % 256 ∷ low_first w (v / 256)

unfoldable pub of_low_first : List ℕ → ℕ
of_low_first [] = 0
of_low_first (b ∷ bs) = b + 256 * of_low_first bs

-- std::bit_cast to an array of `w` bytes, or std::memcpy out of an integer of `w` bytes.
unfoldable pub to_memory : Endian → ℕ → ℕ → List ℕ
to_memory little w v = low_first w v
to_memory big w v = reverse (low_first w v)

-- std::bit_cast from an array, or std::memcpy into an integer.
unfoldable pub of_memory : Endian → List ℕ → ℕ
of_memory little bs = of_low_first bs
of_memory big bs = of_low_first (reverse bs)

-- An integer of one byte is returned as it is.
unfoldable pub swap_bytes : Endian → ℕ → ℕ → ℕ
swap_bytes e zero v = v
swap_bytes e (suc zero) v = v
swap_bytes e (suc (suc w)) v = of_memory e (reverse (to_memory e (suc (suc w)) v))

unfoldable pub from_big_endian : Endian → ℕ → ℕ → ℕ
from_big_endian little w v = swap_bytes little w v
from_big_endian big w v = v
