-- ===== src/Overlay.antt =====
-- The lazy views of include/itch/overlay.hpp: the field readers of its namespace `detail`, and the
-- class `MessageView`. A view holds the bytes from its frame on, behind the pointer, and the size of
-- the frame; a read past the end of these bytes, which the C++ code must never make, is `none`.
mod Readers
mod Tests
pub mod AddOrderView
pub mod OrderExecutedView
pub mod OrderExecutedWithPriceView
pub mod OrderCancelView
pub mod OrderDeleteView
pub mod OrderReplaceView
pub mod NonCrossTradeView
pub mod Agreement
pub mod EachMessage
pub mod Equivalence
use itchcpp.Prelude.{
  ℕ, ◌+◌, ◌*◌, ◌^◌, List, [], ◌∷◌, Option, none, some, length, take, drop, ltb, if◌then◌else◌,
}
use itchcpp.Wire.{Endian, of_memory, from_big_endian}

pub record MessageView : Type 0 where
  pub bytes : List ℕ
  pub size : ℕ

-- detail::read_field at an unsigned integer of `w` bytes, and at `char`
unfoldable pub read_field : Endian → ℕ → List ℕ → ℕ → Option ℕ
read_field e w base offset =
    if ltb (length base) (offset + w)
    then none
    else some (from_big_endian e w (of_memory e (take w (drop offset base))))

unfoldable pub first_of : List ℕ → Option ℕ
first_of [] = none
first_of (c ∷ bytes) = some c

unfoldable pub read_char : List ℕ → ℕ → Option ℕ
unfolding first_of
read_char base offset = first_of (drop offset base)

-- The halves share no bit, so their `|` is their sum.
unfoldable pub combine : Option ℕ → Option ℕ → Option ℕ
combine (some high) (some low) = some (high * 2 ^ 32 + low)
combine (some high) none = none
combine none low = none

unfoldable pub read_timestamp : Endian → List ℕ → ℕ → Option ℕ
unfolding read_field combine
read_timestamp e base offset =
    combine (read_field e 2 base offset) (read_field e 4 base (offset + 2))

unfoldable pub read_stock : List ℕ → ℕ → Option (List ℕ)
read_stock base offset =
    if ltb (length base) (offset + 8) then none else some (take 8 (drop offset base))

abbrev pub stock_locate_offset : ℕ
stock_locate_offset = 1

abbrev pub tracking_number_offset : ℕ
tracking_number_offset = 3

abbrev pub timestamp_offset : ℕ
timestamp_offset = 5

unfoldable pub type : MessageView → Option ℕ
unfolding read_char
type v = read_char v.bytes 0

unfoldable pub stock_locate : Endian → MessageView → Option ℕ
unfolding read_field
stock_locate e v = read_field e 2 v.bytes stock_locate_offset

unfoldable pub tracking_number : Endian → MessageView → Option ℕ
unfolding read_field
tracking_number e v = read_field e 2 v.bytes tracking_number_offset

unfoldable pub timestamp : Endian → MessageView → Option ℕ
unfolding read_timestamp
timestamp e v = read_timestamp e v.bytes timestamp_offset

-- MessageView::read
unfoldable pub read : Endian → ℕ → MessageView → ℕ → Option ℕ
unfolding read_field
read e w v offset = read_field e w v.bytes offset
