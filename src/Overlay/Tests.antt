-- ===== src/Overlay/Tests.antt =====
-- The views of a short stream, and the theorems at it.
use itchcpp.Prelude.{ℕ, ◌≡◌, refl, List, [], ◌∷◌, ◌++◌, map, some, false, length, drop, arith}
use itchcpp.Wire.{little, big, from_big_endian, of_memory, of_low_first}
use itchcpp.Message.{Message, wire_size, header_of, default_message_type}
use itchcpp.Overlay.Readers.{char_of}
use itchcpp.Parser.Dispatch.{decode_typed}
use itchcpp.Parser.Loop.{Parser, parse_impl}
use itchcpp.Parser.Api.{messages_of}
use itchcpp.Overlay.{MessageView, type}
use itchcpp.Overlay.Agreement.{order_delete_view, message_type_of, Shows, decode_typed-Shows}
use itchcpp.Overlay.EachMessage.{for_each_message}
use itchcpp.Overlay.Equivalence.{eager, for_each_message-parse_impl}
use itchcpp.Overlay.OrderDeleteView

-- An order delete message.
abbrev frame : List ℕ
frame = b'D' ∷ 0 ∷ 1 ∷ 0 ∷ 2 ∷ 0 ∷ 0 ∷ 0 ∷ 0 ∷ 0 ∷ 9 ∷ 0 ∷ 0 ∷ 0 ∷ 0 ∷ 0 ∷ 0 ∷ 1 ∷ 44 ∷ []

abbrev frame_view : MessageView
frame_view = record { bytes = frame; size = 19 }

order_reference_number_run : OrderDeleteView.order_reference_number big frame_view ≡ some 300
unfolding OrderDeleteView.order_reference_number from_big_endian of_memory of_low_first
order_reference_number_run = refl

decode_typed-Shows_example :
    (m : Message) × (decode_typed little (message_type_of order_delete_view) frame
      ≡ some (m, drop (wire_size (message_type_of order_delete_view)) frame))
    × Shows little frame_view order_delete_view m
    × ((header_of m).message_type ≡ b'D')
    × (type frame_view ≡ some (char_of 0 frame))
unfolding wire_size message_type_of default_message_type
decode_typed-Shows_example = decode_typed-Shows little order_delete_view frame_view (omega arith)

abbrev quiet : Parser
quiet = record {
  has_error_callback = false;
  unknown_message_count = 0;
  malformed_message_count = 0;
}

-- A frame of padding, the message, and a frame that is cut.
abbrev stream : List ℕ
stream = 0 ∷ 0 ∷ 0 ∷ 19 ∷ (frame ++ 0 ∷ 5 ∷ b'S' ∷ [])

views_run : (for_each_message big stream).1 ≡ 1
unfolding for_each_message from_big_endian of_memory of_low_first wire_size
views_run = refl

for_each_message-parse_impl_example :
    (map (eager little) (for_each_message little stream).0
      ≡ map some (messages_of (parse_impl little quiet stream).events))
    × ((for_each_message little stream).1
        ≡ length (messages_of (parse_impl little quiet stream).events))
for_each_message-parse_impl_example = for_each_message-parse_impl little quiet stream
