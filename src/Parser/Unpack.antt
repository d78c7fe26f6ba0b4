-- ===== src/Parser/Unpack.antt =====
-- The field readers of src/parser.cpp (namespace utils). A buffer with an offset into it is the
-- list of the bytes from the offset on; a read past the end of the data, which the C++ code must
-- never make, is `none`.
use itchcpp.Prelude.{
  ℕ, ◌+◌, ◌*◌, ◌^◌, List, [], ◌∷◌, Option, none, some, length, take, drop, ltb, if◌then◌else◌,
}
use itchcpp.Wire.{Endian, of_memory, from_big_endian}

abbrev pub Reader {ℓ} : Type ℓ → Type ℓ
Reader A = List ℕ → Option (A × List ℕ)

infixl 5 ◌>>=◌ ◌>>◌
unfoldable pub ◌>>=◌ {ℓ κ} : {A : Type ℓ} {B : Type κ} → Reader A → (A → Reader B) → Reader B
◌>>=◌ m f buffer = elim (m buffer) [ none ↦ none | some (a, rest) ↦ f a rest ]

abbrev pub ◌>>◌ {ℓ} : {B : Type ℓ} → Reader (Unit {0}) → Reader B → Reader B
m >> k = m >>= λ _. k

unfoldable pub pure {ℓ} : {A : Type ℓ} → A → Reader A
pure a buffer = some (a, buffer)

-- utils::unpack_string
unfoldable pub unpack_string : ℕ → Reader (List ℕ)
unpack_string size buffer =
    if ltb (length buffer) size then none else some (take size buffer, drop size buffer)

-- utils::unpack, at an unsigned integer of `w` bytes and at `char`
unfoldable pub unpack : Endian → ℕ → Reader ℕ
unpack e w = do bytes ← unpack_string w; pure (from_big_endian e w (of_memory e bytes))

unfoldable pub unpack_char : Reader ℕ
unpack_char [] = none
unpack_char (c ∷ rest) = some (c, rest)

-- The offset moves on, and nothing is read.
unfoldable pub skip : ℕ → Reader (Unit {0})
skip n = do unpacked ← unpack_string n; pure tt

-- utils::unpack_timestamp; the halves share no bit, so their `|` is their sum
unfoldable pub unpack_timestamp : Endian → Reader ℕ
unpack_timestamp e = do high ← unpack e 2; low ← unpack e 4; pure (high * 2 ^ 32 + low)
