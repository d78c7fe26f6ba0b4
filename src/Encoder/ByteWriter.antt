-- ===== src/Encoder/ByteWriter.antt =====
-- The class `ByteWriter` of src/encoder.cpp: a call takes the bytes written so far to those after it.
use itchcpp.Prelude.{ℕ, ◌/◌, ◌%◌, ◌^◌, List, [], ◌∷◌, ◌++◌, take}
use itchcpp.Wire.{Endian, to_memory, from_big_endian}

abbrev pub Writer : Type 0
Writer = List ℕ → List ℕ

-- One call after another.
infixl 5 ◌>>◌
unfoldable pub ◌>>◌ : Writer → Writer → Writer
◌>>◌ m k bytes = k (m bytes)

unfoldable pub put : Endian → ℕ → ℕ → Writer
put e w value bytes = bytes ++ to_memory e w (from_big_endian e w value)

unfoldable pub put_char : ℕ → Writer
put_char value bytes = bytes ++ value ∷ []

unfoldable pub put_chars : ℕ → List ℕ → Writer
put_chars size source bytes = bytes ++ take size source

-- `timestamp >> 32` as a 16-bit integer, and `timestamp & 0xFFFFFFFF`
unfoldable pub put_timestamp : Endian → ℕ → Writer
put_timestamp e timestamp = do put e 2 (timestamp / 2 ^ 32 % 2 ^ 16); put e 4 (timestamp % 2 ^ 32)
