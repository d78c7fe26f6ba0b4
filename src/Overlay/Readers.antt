-- ===== src/Overlay/Readers.antt =====
-- The field readers of src/parser.cpp at an offset into a frame, and those of
-- include/itch/overlay.hpp there: where the bytes are long enough, both give the same value.
use itchcpp.Prelude.{
  ℕ, zero, suc, ◌+◌, ◌*◌, ◌^◌, ◌≤◌, ◌<◌, ◌≡◌, refl, List, [], ◌∷◌, Option, some, length, take, drop,
  length-drop, drop-drop, le→ltb_false, arith,
}
use itchcpp.Wire.{Endian, of_memory, from_big_endian}
use itchcpp.Message.{Header, MessageType, default_message_type}
use itchcpp.Parser.Dispatch.{unpack_message, decode_typed}
use itchcpp.Parser.Unpack.{
  Reader, ◌>>=◌, pure, skip, unpack_string, unpack, unpack_char, unpack_timestamp,
}
use itchcpp.Overlay.{
  MessageView, read, stock_locate, tracking_number, timestamp, read_field, first_of, read_char,
  combine, read_timestamp, read_stock,
}

-- The number in the field of `w` bytes at an offset, and the character there.
abbrev pub value_of : Endian → ℕ → ℕ → List ℕ → ℕ
value_of e w offset bytes = from_big_endian e w (of_memory e (take w (drop offset bytes)))

pub char_of : ℕ → List ℕ → ℕ
char_of offset [] = 0
char_of zero (c ∷ bytes) = c
char_of (suc offset) (c ∷ bytes) = char_of offset bytes

module _ (offset n : ℕ) (bytes : List ℕ) (fits : n ≤ length bytes) where
  pub read_field_at :
      (e : Endian) (w : ℕ)
      → offset + w ≡ n
      → read_field e w bytes offset ≡ some (value_of e w offset bytes)
  unfolding read_field
  read_field_at e w ends = rw (le→ltb_false (length bytes) (offset + w) (omega arith))

  pub unpack_string_at :
      (w : ℕ)
      → offset + w ≡ n
      → unpack_string w (drop offset bytes) ≡ some (take w (drop offset bytes), drop n bytes)
  unfolding unpack_string
  unpack_string_at w ends = rw (
    le→ltb_false (length (drop offset bytes)) w (omega (arith, length-drop offset bytes)),
    drop-drop w offset bytes,
    ends,
  )

  pub unpack_at :
      (e : Endian) (w : ℕ)
      → offset + w ≡ n
      → unpack e w (drop offset bytes) ≡ some (value_of e w offset bytes, drop n bytes)
  unfolding unpack ◌>>=◌ pure
  unpack_at e w ends = rw (unpack_string_at w ends, unpack, ◌>>=◌)

  pub skip_at : (w : ℕ) → offset + w ≡ n → skip w (drop offset bytes) ≡ some (tt, drop n bytes)
  unfolding skip ◌>>=◌ pure
  skip_at w ends = rw (unpack_string_at w ends, skip, ◌>>=◌)

  pub read_stock_at : offset + 8 ≡ n → read_stock bytes offset ≡ some (take 8 (drop offset bytes))
  unfolding read_stock
  read_stock_at ends = rw (le→ltb_false (length bytes) (offset + 8) (omega arith))

pub unpack_char_at :
    (offset : ℕ) (bytes : List ℕ)
    → offset < length bytes
    → unpack_char (drop offset bytes) ≡ some (char_of offset bytes, drop (suc offset) bytes)
unfolding unpack_char char_of
unpack_char_at offset [] short = absurd (omega arith)
unpack_char_at zero (c ∷ bytes) short = refl
unpack_char_at (suc offset) (c ∷ bytes) short = unpack_char_at offset bytes (omega arith)

pub read_char_at :
    (offset : ℕ) (bytes : List ℕ)
    → offset < length bytes
    → read_char bytes offset ≡ some (char_of offset bytes)
unfolding read_char first_of char_of
read_char_at offset [] short = absurd (omega arith)
read_char_at zero (c ∷ bytes) short = refl
read_char_at (suc offset) (c ∷ bytes) short = read_char_at offset bytes (omega arith)

-- A decoder whose first reader succeeds goes on behind it.
pub step {ℓ κ} :
    {A : Type ℓ} {B : Type κ} {bytes rest : List ℕ} {a : A} {result : Option (B × List ℕ)}
    (r : Reader A) (f : A → Reader B)
    → r bytes ≡ some (a, rest)
    → f a rest ≡ result
    → (r >>= f) bytes ≡ result
unfolding ◌>>=◌
step r f first others = rw (first, ◌>>=◌) others

abbrev pub timestamp_of : Endian → ℕ → List ℕ → ℕ
timestamp_of e offset bytes = value_of e 2 offset bytes * 2 ^ 32 + value_of e 4 (offset + 2) bytes

pub read_timestamp_at :
    (e : Endian) (offset n : ℕ) (bytes : List ℕ)
    → n ≤ length bytes
    → offset + 6 ≡ n
    → read_timestamp e bytes offset ≡ some (timestamp_of e offset bytes)
unfolding read_timestamp combine
read_timestamp_at e offset n bytes fits ends = rw (
  read_field_at offset (offset + 2) bytes (omega arith) e 2 refl,
  read_field_at (offset + 2) n bytes fits e 4 (omega arith),
)

pub unpack_timestamp_at :
    (e : Endian) (offset n : ℕ) (bytes : List ℕ)
    → n ≤ length bytes
    → offset + 6 ≡ n
    → unpack_timestamp e (drop offset bytes) ≡ some (timestamp_of e offset bytes, drop n bytes)
unfolding unpack_timestamp ◌>>=◌ pure
unpack_timestamp_at e offset n bytes fits ends = rw (
  unpack_at offset (offset + 2) bytes (omega arith) e 2 refl,
  ◌>>=◌,
  unpack_at (offset + 2) n bytes fits e 4 (omega arith),
)

-- The header of a frame, from the offsets that every message shares.
abbrev pub header_at : Endian → ℕ → List ℕ → Header
header_at e letter bytes = record {
  message_type = letter;
  stock_locate = value_of e 2 1 bytes;
  tracking_number = value_of e 2 3 bytes;
  timestamp = timestamp_of e 5 bytes;
}

pub decode_typed-header :
    (e : Endian) (t : MessageType) (bytes : List ℕ)
    → 11 ≤ length bytes
    → decode_typed e t bytes
      ≡ unpack_message e t (header_at e (default_message_type t) bytes) (drop 11 bytes)
unfolding decode_typed
decode_typed-header e t bytes fits = step _ _ (skip_at 0 1 bytes (omega arith) 1 refl) (
    step _ _ (unpack_at 1 3 bytes (omega arith) e 2 refl) (
      step _ _ (unpack_at 3 5 bytes (omega arith) e 2 refl)
        (step _ _ (unpack_timestamp_at e 5 11 bytes fits refl) refl)))

-- The accessors of `MessageView`.
pub read_at :
    (e : Endian) (w : ℕ) (v : MessageView) (offset n : ℕ)
    → n ≤ length v.bytes
    → offset + w ≡ n
    → read e w v offset ≡ some (value_of e w offset v.bytes)
unfolding read
read_at e w v offset n fits ends = read_field_at offset n v.bytes fits e w ends

module _ (e : Endian) (v : MessageView) (letter : ℕ) (fits : 11 ≤ length v.bytes) where
  pub stock_locate-header_at : stock_locate e v ≡ some (header_at e letter v.bytes).stock_locate
  unfolding stock_locate
  stock_locate-header_at = read_field_at 1 3 v.bytes (omega arith) e 2 refl

  pub tracking_number-header_at :
      tracking_number e v ≡ some (header_at e letter v.bytes).tracking_number
  unfolding tracking_number
  tracking_number-header_at = read_field_at 3 5 v.bytes (omega arith) e 2 refl

  pub timestamp-header_at : timestamp e v ≡ some (header_at e letter v.bytes).timestamp
  unfolding timestamp
  timestamp-header_at = read_timestamp_at e 5 11 v.bytes fits refl
