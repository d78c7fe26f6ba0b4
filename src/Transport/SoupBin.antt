-- ===== src/Transport/SoupBin.antt =====
-- The class `SoupBinDecoder`: include/itch/transport/soupbintcp.hpp and src/transport/soupbintcp.cpp.
-- What a call leads to, in order, is a list of effects. A packet type is its character, as the enum
-- has it; each round of `feed` takes two bytes at least, so as many rounds as bytes are enough.
pub mod Chunks
pub mod Sequenced
use itchcpp.Prelude.{
  ℕ, zero, suc, ◌+◌, ◌*◌, ◌-◌, ◌%◌, ◌^◌, List, [], ◌∷◌, ◌++◌, map, Bool, ◌||◌, ◌&&◌, length, take,
  drop, ltb, leb, ◌==◌, if◌then◌else◌,
}
use itchcpp.Wire.{Endian, of_memory, to_memory, from_big_endian}
use itchcpp.Message.{Message}
use itchcpp.Parser.Loop.{Parser}
use itchcpp.Parser.Api.{parse, messages_of}
use itchcpp.Text.{trim_end, drop_while, is_space}
use itchcpp.Transport.Sequencing.{SequenceTracker, Notice, observe}

-- SoupBinPacketType
abbrev pub login_accepted : ℕ
login_accepted = b'A'

abbrev pub sequenced_data : ℕ
sequenced_data = b'S'

abbrev pub unsequenced_data : ℕ
unsequenced_data = b'U'

unfoldable pub trim_field : List ℕ → List ℕ
trim_field field = trim_end is_space field

unfoldable pub is_digit : ℕ → Bool
is_digit c = leb b'0' c && leb c b'9'

unfoldable pub digits_value : ℕ → List ℕ → ℕ
unfolding is_digit
digits_value value [] = value
digits_value value (c ∷ cs) =
    let rest = digits_value (value * 10 + (c - b'0')) cs in if is_digit c then rest else value

-- std::from_chars into a 64-bit integer that is 0 before: the leading digits, and no change where
-- there is none or the number does not fit.
unfoldable pub from_chars : List ℕ → ℕ
unfolding digits_value
from_chars text = let value = digits_value 0 text in if ltb value (2 ^ 64) then value else 0

unfoldable pub parse_sequence_field : List ℕ → ℕ
unfolding from_chars trim_field
parse_sequence_field field = from_chars (drop_while is_space (trim_field field))

-- `has_callback` and `has_event_callback` say whether the callbacks are set.
pub record SoupBinState : Type 0 where
  pub parser : Parser
  pub has_callback : Bool
  pub has_event_callback : Bool
  pub tracker : SequenceTracker
  pub session : List ℕ
  pub next_sequence : ℕ
  pub messages_decoded : ℕ

-- `buffer` is `m_buffer`, which only `feed` reads and writes.
pub record SoupBinDecoder : Type 0 where
  pub state : SoupBinState
  pub buffer : List ℕ

pub data Effect : Type 0 where
  noticed : Notice → Effect
  delivered : Message → Effect
  packet_event : ℕ → List ℕ → Effect

abbrev pub Step : Type 0
Step = SoupBinState × List Effect

unfoldable pub decode_application_message : Endian → SoupBinState → List ℕ → Step
decode_application_message e d payload =
    if length payload == 0 || ltb 0xFFFF (length payload)
    then (d, [])
    else (let framed = to_memory e 2 (from_big_endian e 2 (length payload % 2 ^ 16)) ++ payload in
        let (r, result) = parse e d.parser framed in
        (
          record d {
            parser = r.parser;
            messages_decoded = (d.messages_decoded + length (messages_of r.events)) % 2 ^ 64;
          },
          if d.has_callback then map delivered (messages_of r.events) else [],
        ))

unfoldable pub accept_login : SoupBinState → List ℕ → SoupBinState
unfolding trim_field parse_sequence_field
accept_login d payload =
    let sequence = parse_sequence_field (take 20 (drop 10 payload)) in
    if ltb (length payload) 30 then d else record d {
      session = trim_field (take 10 payload);
      next_sequence = if sequence == 0 then 1 else sequence;
    }

unfoldable pub sequenced : Endian → SoupBinState → List ℕ → Step
unfolding decode_application_message
sequenced e d payload =
    let (tracker, notices, gap) = observe d.tracker d.session d.next_sequence 1 in
    let (d', effects) =
      decode_application_message e
        (record d { tracker = tracker; next_sequence = (d.next_sequence + 1) % 2 ^ 64 }) payload in
    (d', map noticed notices ++ effects)

unfoldable pub report : SoupBinState → ℕ → List ℕ → Step
report d type payload = (d, if d.has_event_callback then packet_event type payload ∷ [] else [])

unfoldable pub process_packet : Endian → SoupBinState → ℕ → List ℕ → Step
unfolding accept_login sequenced report
process_packet e d type payload =
    if type == sequenced_data
    then sequenced e d payload
    else if type == unsequenced_data
    then decode_application_message e d payload
    else if type == login_accepted
    then report (accept_login d payload) type payload
    else report d type payload

-- What the front of the buffer is: nothing to be done yet, an empty frame, or a packet; with the
-- bytes behind it.
pub data Front : Type 0 where
  wait : Front
  empty : List ℕ → Front
  packet : ℕ → List ℕ → List ℕ → Front

unfoldable pub split_packet : ℕ → List ℕ → Front
split_packet packet_length [] = wait
split_packet packet_length (type ∷ more) =
    packet type (take (packet_length - 1) more) (drop (packet_length - 1) more)

unfoldable pub front_of : ℕ → List ℕ → Front
unfolding split_packet
front_of packet_length rest =
    if packet_length == 0
    then empty rest
    else if ltb (length rest) packet_length
    then wait
    else split_packet packet_length rest

unfoldable pub front : Endian → List ℕ → Front
unfolding front_of
front e bytes =
    if ltb (length bytes) 2
    then wait
    else front_of (from_big_endian e 2 (of_memory e (take 2 bytes))) (drop 2 bytes)

pub record Fed : Type 0 where
  pub state : SoupBinState
  pub effects : List Effect
  pub rest : List ℕ

unfoldable pub behind : List Effect → Fed → Fed
behind effects f = record f { effects = effects ++ f.effects }

-- The loop of `feed` over the bytes from the offset on; what it leaves is the partial packet.
unfoldable pub consume : Endian → ℕ → SoupBinState → List ℕ → Fed
unfolding front behind process_packet
consume e zero d bytes = record { state = d; effects = []; rest = bytes }
consume e (suc fuel) d bytes = elim (front e bytes) [
  | wait ↦ record { state = d; effects = []; rest = bytes }
  | empty rest ↦ consume e fuel d rest
  | packet type payload rest ↦
      let (d', effects) = process_packet e d type payload in behind effects (consume e fuel d' rest)
]

unfoldable pub feed : Endian → SoupBinDecoder → List ℕ → SoupBinDecoder × List Effect
unfolding consume
feed e d bytes =
    let f = consume e (length (d.buffer ++ bytes)) d.state (d.buffer ++ bytes) in
    (record { state = f.state; buffer = f.rest }, f.effects)
