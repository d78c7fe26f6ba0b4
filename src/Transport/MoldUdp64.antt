-- ===== src/Transport/MoldUdp64.antt =====
-- The class `MoldUdp64Decoder`: include/itch/transport/moldudp64.hpp and
-- src/transport/moldudp64.cpp. What a datagram leads to is a value: the notices of the tracker, and
-- the messages that the callback is called with.
pub mod Packets
use itchcpp.Prelude.{
  ℕ, ◌+◌, ◌%◌, ◌^◌, List, [], ◌∷◌, Option, none, some, Bool, length, take, drop, ltb, ◌==◌,
  if◌then◌else◌,
}
use itchcpp.Wire.{Endian, of_memory, from_big_endian}
use itchcpp.Message.{Message}
use itchcpp.Parser.Loop.{Parser}
use itchcpp.Parser.Api.{parse, messages_of}
use itchcpp.Text.{trim_end, is_blank}
use itchcpp.Transport.Sequencing.{SequenceTracker, Notice, observe}

pub record MoldUdp64Header : Type 0 where
  pub session : List ℕ
  pub sequence_number : ℕ
  pub message_count : ℕ

unfoldable pub session_view : MoldUdp64Header → List ℕ
session_view h = trim_end is_blank h.session

unfoldable pub is_heartbeat : MoldUdp64Header → Bool
is_heartbeat h = h.message_count == 0

abbrev pub end_of_session : ℕ
end_of_session = 0xFFFF

unfoldable pub is_end_of_session : MoldUdp64Header → Bool
is_end_of_session h = h.message_count == end_of_session

abbrev pub header_size : ℕ
header_size = 20

-- `has_callback` says whether `m_callback` is set.
pub record MoldUdp64Decoder : Type 0 where
  pub parser : Parser
  pub has_callback : Bool
  pub tracker : SequenceTracker
  pub packets_decoded : ℕ
  pub messages_decoded : ℕ

pub record Decoded : Type 0 where
  pub decoder : MoldUdp64Decoder
  pub notices : List Notice
  pub messages : List Message
  pub header : Option MoldUdp64Header

unfoldable pub read_big_endian : Endian → ℕ → List ℕ → ℕ → ℕ
read_big_endian e w bytes offset = from_big_endian e w (of_memory e (take w (drop offset bytes)))

unfoldable pub read_header : Endian → List ℕ → MoldUdp64Header
unfolding read_big_endian
read_header e packet = record {
  session = take 10 packet;
  sequence_number = read_big_endian e 8 packet 10;
  message_count = read_big_endian e 2 packet 18;
}

-- The parser runs over the message blocks; what it throws is dropped.
unfoldable pub decode_blocks : Endian → MoldUdp64Decoder → List ℕ → MoldUdp64Decoder × List Message
decode_blocks e d blocks =
    let (r, result) = parse e d.parser blocks in
    (
      record d {
        parser = r.parser;
        messages_decoded = (d.messages_decoded + length (messages_of r.events)) % 2 ^ 64;
      },
      if d.has_callback then messages_of r.events else [],
    )

unfoldable pub decode_data :
    Endian → MoldUdp64Decoder → MoldUdp64Header → List ℕ → List Notice → Decoded
unfolding decode_blocks is_heartbeat
decode_data e d header packet notices =
    if is_heartbeat header
    then record { decoder = d; notices = notices; messages = []; header = some header }
    else (let (d', messages) = decode_blocks e d (drop header_size packet) in
        record { decoder = d'; notices = notices; messages = messages; header = some header })

unfoldable pub decode_header : Endian → MoldUdp64Decoder → MoldUdp64Header → List ℕ → Decoded
unfolding decode_data is_end_of_session session_view
decode_header e d header packet =
    if is_end_of_session header
    then record { decoder = d; notices = []; messages = []; header = some header }
    else (let (tracker, notices, gap) =
          observe d.tracker (session_view header) header.sequence_number header.message_count in
        decode_data e (record d { tracker = tracker }) header packet notices)

unfoldable pub decode_packet : Endian → MoldUdp64Decoder → List ℕ → Decoded
unfolding decode_header read_header
decode_packet e d packet =
    if ltb (length packet) header_size
    then record { decoder = d; notices = []; messages = []; header = none }
    else decode_header e (record d { packets_decoded = (d.packets_decoded + 1) % 2 ^ 64 })
        (read_header e packet) packet
