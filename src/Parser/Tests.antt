-- ===== src/Parser/Tests.antt =====
-- Runs of src/parser.cpp and src/encoder.cpp on a short stream, and the theorems at it.
use itchcpp.Prelude.{ℕ, ◌≡◌, refl, List, [], ◌∷◌, ◌++◌, map, some, true, All, ◌⊎◌, length, arith}
use itchcpp.Wire.{
  little, big, IsByte, low_first, of_low_first, to_memory, of_memory, swap_bytes, from_big_endian,
}
use itchcpp.Wire.BigEndian.{
  big_endian, of_big_endian, from_big_endian-of_memory, to_memory-from_big_endian,
}
use itchcpp.Message.{
  Message, IsTyped, system_event, add_order, system_event_message, wire_size, type_of,
}
use itchcpp.Encoder.{encode_message}
use itchcpp.Parser.Loop.{
  truncated, unknown_type, Parser, message, error, returned, prepend, parse_impl,
}
use itchcpp.Parser.Frames.{DecodesTo, decode_typed-DecodesTo}
use itchcpp.Parser.Total.{Returns, parse_impl-Returns}
use itchcpp.Parser.Stream.{framing, handle_all, finish, parse_impl-Framing}
use itchcpp.Parser.RoundTrip.{length-encode_message}
use itchcpp.Parser.Encoded.{encode_all, parse_impl-encode_all}
use itchcpp.Parser.Api.{ok, thrown, value, unexpected, parse_messages, parse_filtered, try_parse}
use itchcpp.Parser.Delivered.{
  Selected, parse_messages-encode_all, parse_filtered-encode_all, try_parse-parse_messages,
}
use itchcpp.Parser.Diagnostics.{Tallies, IsWatched, parse_impl-Tallies}

abbrev fresh : Parser
fresh = record { has_error_callback = true; unknown_message_count = 0; malformed_message_count = 0 }

abbrev opening : Message
opening = system_event (record {
  header = record {
    message_type = b'S';
    stock_locate = 0;
    tracking_number = 7;
    timestamp = 34_200_000_000_000;
  };
  event_code = b'Q';
})

abbrev bid : Message
bid = add_order (record {
  header = record {
    message_type = b'A';
    stock_locate = 513;
    tracking_number = 2;
    timestamp = 34_200_000_000_001;
  };
  order_reference_number = 99;
  buy_sell_indicator = b'B';
  shares = 300;
  stock = b'A' ∷ b'A' ∷ b'P' ∷ b'L' ∷ b' ' ∷ b' ' ∷ b' ' ∷ b' ' ∷ [];
  price = 1_500_000;
})

abbrev session : List Message
session = opening ∷ bid ∷ []

session-IsTyped : All IsTyped session
session-IsTyped = omega arith

-- An unknown type, a padding frame, and a frame that is cut.
abbrev noise : List ℕ
noise = 0 ∷ 2 ∷ b'z' ∷ 1 ∷ 0 ∷ 0 ∷ 0 ∷ 12 ∷ b'S' ∷ []

noise-IsByte : All IsByte noise
noise-IsByte = omega arith

fresh-IsWatched : IsWatched fresh
fresh-IsWatched = record { callback = refl; unknown = omega arith; malformed = omega arith }

noise_run : parse_impl little fresh noise ≡ record {
  outcome = returned (some truncated);
  parser = record fresh { unknown_message_count = 1; malformed_message_count = 1 };
  events = error unknown_type b'z' ∷ error truncated 0 ∷ [];
}
unfolding parse_impl swap_bytes of_memory to_memory of_low_first low_first from_big_endian
noise_run = refl

parse_impl-encode_all_example :
    parse_impl little fresh (encode_all little session ++ noise)
    ≡ prepend (map message session) (parse_impl little fresh noise)
parse_impl-encode_all_example = parse_impl-encode_all little fresh session noise session-IsTyped

parse_impl-Framing_example :
    parse_impl big fresh noise
    ≡ prepend (handle_all big fresh (framing noise noise-IsByte).payloads).1 (
        finish
          (handle_all big fresh (framing noise noise-IsByte).payloads).0
          (framing noise noise-IsByte).tail)
parse_impl-Framing_example = parse_impl-Framing big fresh noise (framing noise noise-IsByte)

decode_typed-DecodesTo_example :
    (m : Message) × DecodesTo little system_event_message
      (b'S' ∷ 0 ∷ 1 ∷ 0 ∷ 2 ∷ 0 ∷ 0 ∷ 0 ∷ 0 ∷ 0 ∷ 9 ∷ b'O' ∷ 5 ∷ [])
      m
unfolding wire_size
decode_typed-DecodesTo_example =
    decode_typed-DecodesTo little system_event_message
      (b'S' ∷ 0 ∷ 1 ∷ 0 ∷ 2 ∷ 0 ∷ 0 ∷ 0 ∷ 0 ∷ 0 ∷ 9 ∷ b'O' ∷ 5 ∷ []) (omega arith)

parse_impl-Returns_example : Returns (parse_impl little fresh noise)
parse_impl-Returns_example = parse_impl-Returns little fresh noise

parse_impl-Tallies_example :
    Tallies fresh (parse_impl little fresh noise).parser (parse_impl little fresh noise).events
parse_impl-Tallies_example = parse_impl-Tallies little fresh noise noise-IsByte fresh-IsWatched

parse_messages-encode_all_example :
    ((parse_messages little fresh (encode_all little session)).1 ≡ ok session)
    × ((parse_messages little fresh (encode_all little session)).0.parser ≡ fresh)
parse_messages-encode_all_example = parse_messages-encode_all little fresh session session-IsTyped

parse_filtered-encode_all_example :
    (chosen : List Message) × ((parse_filtered big fresh (encode_all big session) (b'A' ∷ [])).1
      ≡ ok chosen)
    × Selected (b'A' ∷ []) session chosen
parse_filtered-encode_all_example =
    parse_filtered-encode_all big fresh session b'A' [] session-IsTyped

try_parse-parse_messages_example :
    ((ms : List Message) × ((parse_messages little fresh noise).1 ≡ ok ms)
      × ((try_parse little fresh noise).1 ≡ value ms))
    ⊎ (((parse_messages little fresh noise).1 ≡ thrown)
        × ((try_parse little fresh noise).1 ≡ unexpected truncated))
try_parse-parse_messages_example = try_parse-parse_messages little fresh noise noise-IsByte

length-encode_message_example : length (encode_message little bid) ≡ 36
unfolding wire_size type_of
length-encode_message_example = length-encode_message little bid session-IsTyped.1.0

from_big_endian-of_memory_example :
    from_big_endian little 4 (of_memory little (1 ∷ 2 ∷ 3 ∷ 4 ∷ []))
    ≡ of_big_endian (1 ∷ 2 ∷ 3 ∷ 4 ∷ [])
from_big_endian-of_memory_example =
    from_big_endian-of_memory little 4 (1 ∷ 2 ∷ 3 ∷ 4 ∷ []) (omega arith) refl

to_memory-from_big_endian_example :
    to_memory little 2 (from_big_endian little 2 513) ≡ big_endian 2 513
to_memory-from_big_endian_example = to_memory-from_big_endian little 2 513
