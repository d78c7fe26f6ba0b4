-- ===== src/Overlay/EachMessage.antt =====
-- `build_size_table` and `for_each_message` of include/itch/overlay.hpp. What the callback is called
-- with, in order, is a list of views; the data still to be read stands for the pointer and the
-- offset, and each round takes two bytes at least, so as many rounds as bytes are enough.
use itchcpp.Prelude.{
  ℕ, zero, suc, ◌%◌, ◌^◌, List, [], ◌∷◌, ◌||◌, length, take, drop, ltb, ◌==◌, if◌then◌else◌,
}
use mathlib.Core.List.{foldl}
use itchcpp.Wire.{Endian, of_memory, from_big_endian}
use itchcpp.Message.{MessageType, wire_size, message_types}
use itchcpp.Overlay.{MessageView}

-- `table[letter] = WIRE_SIZE`, a 16-bit integer
unfoldable pub add_size : (ℕ → ℕ) → ℕ × MessageType → ℕ → ℕ
add_size table (letter, t) byte = if byte == letter then wire_size t % 2 ^ 16 else table byte

unfoldable pub build_size_table : ℕ → ℕ
unfolding add_size
build_size_table = foldl add_size (λ byte. 0) message_types

-- One round: the loop ends, goes on, or delivers a view and goes on. A type that is read past the
-- end of the data, which no round does, is a fault.
pub data Look : Type 0 where
  stop fault : Look
  skip : List ℕ → Look
  view : MessageView → List ℕ → Look

unfoldable pub look_at : ℕ → List ℕ → Look
unfolding build_size_table
look_at size [] = fault
look_at size (message_type ∷ more) =
    if build_size_table message_type == 0 || ltb size (build_size_table message_type)
    then skip (drop size (message_type ∷ more))
    else view (record { bytes = message_type ∷ more; size = size })
        (drop size (message_type ∷ more))

unfoldable pub look_frame : ℕ → List ℕ → Look
unfolding look_at
look_frame size rest =
    if size == 0 then skip rest else if ltb (length rest) size then stop else look_at size rest

unfoldable pub look : Endian → List ℕ → Look
unfolding look_frame
look e bytes =
    if ltb (length bytes) 2
    then stop
    else look_frame (from_big_endian e 2 (of_memory e (take 2 bytes))) (drop 2 bytes)

unfoldable pub each_message : Endian → ℕ → List ℕ → List MessageView
unfolding look
each_message e zero bytes = []
each_message e (suc fuel) bytes = elim (look e bytes) [
  | stop ↦ []
  | fault ↦ []
  | skip rest ↦ each_message e fuel rest
  | view v rest ↦ v ∷ each_message e fuel rest
]

-- The views that are delivered; their number is returned.
unfoldable pub for_each_message : Endian → List ℕ → List MessageView × ℕ
unfolding each_message
for_each_message e bytes = let views = each_message e (length bytes) bytes in (views, length views)
