-- ===== src/Transport/Tests.antt =====
-- Runs of the transport layer on short streams, and the theorems at them.
use itchcpp.Prelude.{
  ℕ, ◌≡◌, refl, List, [], ◌∷◌, ◌++◌, map, some, true, false, All, inr, if◌then◌else◌, arith,
}
use itchcpp.Wire.{little, big}
use itchcpp.Message.{Message, IsTyped, system_event}
use itchcpp.Parser.Loop.{Parser, parse_impl}
use itchcpp.Parser.Api.{messages_of}
use itchcpp.Parser.Encoded.{encode_all}
use itchcpp.Text.{text_eq, drop_while, trim_end, is_blank}
use itchcpp.Transport.Sequencing.{SequenceTracker, gap_notice, find, assign, observe, expected_next}
use itchcpp.Transport.Sequencing.Laws.{moved, expected_next-observe, observe-observe}
use itchcpp.Transport.Sequencing.Accounts.{Accounts, observe_all, observe_all-Accounts}
use itchcpp.Transport.MoldUdp64.{MoldUdp64Header, MoldUdp64Decoder, decode_packet}
use itchcpp.Transport.MoldUdp64.Packets.{FitsHeader, datagram, after, decode_packet-datagram}
use itchcpp.Transport.SoupBin.{SoupBinState, delivered, feed, parse_sequence_field}
use itchcpp.Transport.SoupBin.Chunks.{feed-append}
use itchcpp.Transport.SoupBin.Sequenced.{InStep, stream, feed-stream}

abbrev feed_a : List ℕ
feed_a = b'F' ∷ b'A' ∷ []

-- Two messages from number 5 on were seen.
abbrev anchored : SequenceTracker
anchored = record {
  expected_by_session = (feed_a, 7) ∷ [];
  has_gap_callback = true;
  has_requester = false;
  gap_count = 0;
  messages_seen = 2;
}

gap_run : observe anchored feed_a 9 2 ≡ (
  record anchored { expected_by_session = (feed_a, 11) ∷ []; gap_count = 2; messages_seen = 4 },
  gap_notice feed_a 7 9 ∷ [],
  2,
)
unfolding observe find text_eq assign
gap_run = refl

expected_next-observe_example : expected_next (observe anchored feed_a 9 2).0 feed_a ≡ (
    if text_eq feed_a feed_a
    then some (moved (expected_next anchored feed_a) 11)
    else expected_next anchored feed_a)
expected_next-observe_example = expected_next-observe anchored feed_a feed_a 9 2 (omega arith)

observe-observe_example :
    observe (observe anchored feed_a 9 2).0 feed_a 9 2 ≡ ((observe anchored feed_a 9 2).0, [], 0)
observe-observe_example = observe-observe anchored feed_a 9 2 (omega arith)

anchored-Accounts : Accounts 5 feed_a anchored
anchored-Accounts =
    unfold expected_next find text_eq in
    record { expected = 7; known = refl; bound = omega arith; balance = refl }

observe_all-Accounts_example :
    Accounts 5 feed_a (observe_all anchored feed_a ((9, 2) ∷ (6, 3) ∷ (9, 2) ∷ []))
observe_all-Accounts_example =
    observe_all-Accounts anchored feed_a 5 ((9, 2) ∷ (6, 3) ∷ (9, 2) ∷ []) (omega arith)
      anchored-Accounts

abbrev parser : Parser
parser = record {
  has_error_callback = false;
  unknown_message_count = 0;
  malformed_message_count = 0;
}

abbrev close : Message
close = system_event (record {
  header = record {
    message_type = b'S';
    stock_locate = 0;
    tracking_number = 7;
    timestamp = 57_600_000_000_000;
  };
  event_code = b'M';
})

abbrev messages : List Message
messages = close ∷ close ∷ []

messages-IsTyped : All IsTyped messages
messages-IsTyped = omega arith

abbrev mold : MoldUdp64Decoder
mold = record {
  parser = parser;
  has_callback = true;
  tracker = anchored;
  packets_decoded = 1;
  messages_decoded = 2;
}

abbrev header : MoldUdp64Header
header = record {
  session = b'F' ∷ b'A' ∷ b' ' ∷ b' ' ∷ b' ' ∷ b' ' ∷ b' ' ∷ b' ' ∷ b' ' ∷ b' ' ∷ [];
  sequence_number = 9;
  message_count = 3;
}

header-FitsHeader : FitsHeader header
header-FitsHeader = record {
  session_size = refl;
  sequence_fits = omega arith;
  count_fits = omega arith;
}

-- The third message block is cut.
decode_packet-datagram_example :
    decode_packet little mold (datagram header (encode_all little messages ++ 0 ∷ 12 ∷ b'S' ∷ []))
    ≡ (let (tracker, notices, gap) = observe anchored (trim_end is_blank header.session) 9 3 in
        let r = parse_impl little parser (0 ∷ 12 ∷ b'S' ∷ []) in
        record {
          decoder = after mold tracker r (messages ++ messages_of r.events);
          notices = notices;
          messages = if true then messages ++ messages_of r.events else [];
          header = some header;
        })
decode_packet-datagram_example =
    decode_packet-datagram little mold header messages (0 ∷ 12 ∷ b'S' ∷ []) header-FitsHeader
      (omega arith) (omega arith) messages-IsTyped

abbrev logged_in : SoupBinState
logged_in = record {
  parser = parser;
  has_callback = true;
  has_event_callback = true;
  tracker = anchored;
  session = feed_a;
  next_sequence = 7;
  messages_decoded = 2;
}

sequence_field_run : parse_sequence_field (b' ' ∷ b' ' ∷ b'4' ∷ b'2' ∷ b' ' ∷ []) ≡ 42
unfolding parse_sequence_field drop_while trim_end
sequence_field_run = refl

feed-append_example :
    feed big (record { state = logged_in; buffer = [] }) ((0 ∷ 3 ∷ b'H' ∷ []) ++ 1 ∷ 2 ∷ []) ≡ (
      let (d', effects) =
        feed big (record { state = logged_in; buffer = [] }) (0 ∷ 3 ∷ b'H' ∷ []) in
      let (d'', effects') = feed big d' (1 ∷ 2 ∷ []) in (d'', effects ++ effects'))
feed-append_example =
    feed-append big (record { state = logged_in; buffer = [] }) (0 ∷ 3 ∷ b'H' ∷ []) (1 ∷ 2 ∷ [])

logged_in-InStep : InStep logged_in
logged_in-InStep = inr (unfold expected_next find text_eq in refl)

feed-stream_example :
    (let (d, effects) =
        feed little (record { state = logged_in; buffer = [] }) (stream little messages) in
      (effects ≡ map delivered messages)
      × (d.buffer ≡ [])
      × (d.state.next_sequence ≡ 9)
      × (d.state.tracker.gap_count ≡ 0))
feed-stream_example =
    feed-stream little logged_in messages messages-IsTyped refl logged_in-InStep (omega arith)
