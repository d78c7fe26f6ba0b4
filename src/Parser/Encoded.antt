-- ===== src/Parser/Encoded.antt =====
-- Parsing the frames that src/encoder.cpp writes.
use itchcpp.Prelude.{
  ℕ, ◌%◌, ◌^◌, ◌≤◌, ◌≡◌, refl, ap, ◌∙◌, List, [], ◌∷◌, ◌++◌, map, append-nil, length, All, arith,
}
use itchcpp.Wire.{Endian}
use itchcpp.Wire.BigEndian.{big_endian}
use itchcpp.Message.{Message, MessageType, IsTyped, type_of, wire_size, system_event_message}
use itchcpp.Encoder.{encode_message, encode_frame}
use itchcpp.Parser.Fields.{put-append}
use itchcpp.Parser.RoundTrip.{
  decode_typed-encode_message, length-encode_message, encode_message-letter,
}
use itchcpp.Parser.Frames.{frame, handle, handle_letter}
use itchcpp.Parser.Stream.{Fits, frames, handle_all, parse_impl-frames}
use itchcpp.Parser.Loop.{Parser, message, prepend, parse_impl}

pub wire_size_bound : (t : MessageType) → wire_size t ≤ 50
unfolding wire_size
wire_size_bound system_event_message = omega arith
wire_size_bound _ = omega arith

-- `encode_frame` writes the message as a frame.
pub encode_frame-frame :
    (e : Endian) (m : Message) → IsTyped m → encode_frame e m ≡ frame (encode_message e m)
unfolding encode_frame
encode_frame-frame e m h =
    rw put-append (ap (λ (n : ℕ). big_endian 2 n ++ encode_message e m) small)
  where
    small : length (encode_message e m) % 2 ^ 16 ≡ length (encode_message e m)
    small = omega (arith, length-encode_message e m h, wire_size_bound (type_of m))

-- The payload of an encoded message has one effect: the message is delivered.
handle-encode_message :
    (e : Endian) (p : Parser) (m : Message)
    → IsTyped m
    → handle e p (encode_message e m) ≡ (p, message m ∷ [])
handle-encode_message e p m h =
    let (body, starts) = encode_message-letter e m h in
    rw starts (
      handle_letter e p (type_of m) m body []
        (omega (arith, ap length starts, length-encode_message e m h))
        (rw (append-nil, starts) at (decode_typed-encode_message e m [] h)))

-- A sequence of messages as one stream.
unfoldable pub encode_all : Endian → List Message → List ℕ
encode_all e [] = []
encode_all e (m ∷ ms) = encode_frame e m ++ encode_all e ms

encode_all-frames :
    (e : Endian) (ms : List Message)
    → All IsTyped ms
    → encode_all e ms ≡ frames (map (encode_message e) ms)
unfolding encode_all frames
encode_all-frames e [] h = refl
encode_all-frames e (m ∷ ms) (h, hs) =
    rw (encode_frame-frame e m h)
      (ap (◌++◌ (frame (encode_message e m))) (encode_all-frames e ms hs))

handle_all-encoded :
    (e : Endian) (p : Parser) (ms : List Message)
    → All IsTyped ms
    → handle_all e p (map (encode_message e) ms) ≡ (p, map message ms)
unfolding handle_all
handle_all-encoded e p [] h = refl
handle_all-encoded e p (m ∷ ms) (h, hs) =
    rw (handle-encode_message e p m h, handle_all-encoded e p ms hs)

encoded-Fits :
    (e : Endian) (ms : List Message) → All IsTyped ms → All Fits (map (encode_message e) ms)
encoded-Fits e [] h = tt
encoded-Fits e (m ∷ ms) (h, hs) =
    (omega (arith, length-encode_message e m h, wire_size_bound (type_of m)), encoded-Fits e ms hs)

-- Parsing the encoded frames of any messages whose fields fit their types, written and read on
-- either host: exactly these messages are delivered, in order, no error is reported, no diagnostic
-- changes, and what follows the frames is parsed as if they were not there.
pub parse_impl-encode_all :
    (e : Endian) (p : Parser) (ms : List Message) (tail : List ℕ)
    → All IsTyped ms
    → parse_impl e p (encode_all e ms ++ tail) ≡ prepend (map message ms) (parse_impl e p tail)
parse_impl-encode_all e p ms tail h = rw (encode_all-frames e ms h) (
    parse_impl-frames e p (map (encode_message e) ms) tail (encoded-Fits e ms h)
    ∙ rw (handle_all-encoded e p ms h))
