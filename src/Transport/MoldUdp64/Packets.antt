-- ===== src/Transport/MoldUdp64/Packets.antt =====
-- `decode_packet` of src/transport/moldudp64.cpp on the datagrams of the protocol.
use itchcpp.Prelude.{
  ℕ, ◌+◌, ◌%◌, ◌^◌, ◌<◌, ◌≡◌, ◌≢◌, sym, ap, ◌∙◌, List, [], ◌++◌, some, false, append_assoc, length,
  length-append, take, drop, ◌==◌, le→ltb_false, if◌then◌else◌, arith, All,
}
use itchcpp.Wire.{Endian, of_memory, from_big_endian}
use itchcpp.Wire.BigEndian.{big_endian, length-big_endian}
use itchcpp.Wire.At.{take-field, drop-field, value_at}
use itchcpp.Message.{Message, IsTyped}
use itchcpp.Parser.Loop.{prepend, parse_impl, Run}
use itchcpp.Parser.Api.{messages_of, parse}
use itchcpp.Parser.Encoded.{encode_all, parse_impl-encode_all}
use itchcpp.Parser.Delivered.{messages_of-append}
use itchcpp.Text.{trim_end, is_blank}
use itchcpp.Transport.Sequencing.{SequenceTracker, observe}
use itchcpp.Transport.MoldUdp64.{
  MoldUdp64Header, session_view, is_heartbeat, is_end_of_session, MoldUdp64Decoder, read_header,
  read_big_endian, decode_blocks, decode_data, decode_header, decode_packet,
}

-- A header, and the message blocks behind it.
abbrev pub datagram : MoldUdp64Header → List ℕ → List ℕ
datagram h blocks =
    h.session ++ (big_endian 8 h.sequence_number ++ (big_endian 2 h.message_count ++ blocks))

pub record FitsHeader (h : MoldUdp64Header) : Type 0 where
  pub session_size : length h.session ≡ 10
  pub sequence_fits : h.sequence_number < 2 ^ 64
  pub count_fits : h.message_count < 2 ^ 16

length-datagram :
    (h : MoldUdp64Header) (blocks : List ℕ)
    → FitsHeader h
    → length (datagram h blocks) ≡ 20 + length blocks
length-datagram h blocks f = omega (
  arith,
  f.session_size,
  length-append h.session
      (big_endian 8 h.sequence_number ++ (big_endian 2 h.message_count ++ blocks)),
  length-append (big_endian 8 h.sequence_number) (big_endian 2 h.message_count ++ blocks),
  length-append (big_endian 2 h.message_count) blocks,
  length-big_endian 8 h.sequence_number,
  length-big_endian 2 h.message_count,
)

drop-datagram :
    (h : MoldUdp64Header) (blocks : List ℕ) → FitsHeader h → drop 20 (datagram h blocks) ≡ blocks
drop-datagram h blocks f =
    ap (drop 20) (
      sym (append_assoc h.session (big_endian 8 h.sequence_number) _)
      ∙ sym (append_assoc _ (big_endian 2 h.message_count) blocks))
    ∙ drop-field 20 ((h.session ++ big_endian 8 h.sequence_number) ++ big_endian 2 h.message_count)
        blocks
        (omega (
          arith,
          f.session_size,
          length-append (h.session ++ big_endian 8 h.sequence_number)
              (big_endian 2 h.message_count),
          length-append h.session (big_endian 8 h.sequence_number),
          length-big_endian 8 h.sequence_number,
          length-big_endian 2 h.message_count,
        ))

read_header-datagram :
    (e : Endian) (h : MoldUdp64Header) (blocks : List ℕ)
    → FitsHeader h
    → read_header e (datagram h blocks) ≡ h
unfolding read_header read_big_endian
read_header-datagram e h blocks f = rw (
  take-field 10 h.session
      (big_endian 8 h.sequence_number ++ (big_endian 2 h.message_count ++ blocks)) f.session_size,
  sequence,
  count,
)
  where
    sequence :
        from_big_endian e 8 (of_memory e (take 8 (drop 10 (datagram h blocks)))) ≡ h.sequence_number
    sequence =
        value_at e 10 8 h.sequence_number h.session (big_endian 2 h.message_count ++ blocks)
          f.session_size
        ∙ omega (arith, f.sequence_fits)

    count :
        from_big_endian e 2 (of_memory e (take 2 (drop 18 (datagram h blocks)))) ≡ h.message_count
    count =
        rw
          (← append_assoc h.session (big_endian 8 h.sequence_number)
            (big_endian 2 h.message_count ++ blocks))
          (value_at e 18 2 h.message_count (h.session ++ big_endian 8 h.sequence_number) blocks (
              omega (
                arith,
                f.session_size,
                length-append h.session (big_endian 8 h.sequence_number),
                length-big_endian 8 h.sequence_number,
              ))
            ∙ omega (arith, f.count_fits))

-- The decoder after a data packet, where the tracker observed it and the parser ran over its blocks.
abbrev pub after : MoldUdp64Decoder → SequenceTracker → Run → List Message → MoldUdp64Decoder
after d tracker r ms = record d {
  parser = r.parser;
  tracker = tracker;
  packets_decoded = (d.packets_decoded + 1) % 2 ^ 64;
  messages_decoded = (d.messages_decoded + length ms) % 2 ^ 64;
}

decode_blocks-encode_all :
    (e : Endian) (d : MoldUdp64Decoder) (ms : List Message) (tail : List ℕ)
    → All IsTyped ms
    → decode_blocks e d (encode_all e ms ++ tail) ≡ (
      record d {
        parser = (parse_impl e d.parser tail).parser;
        messages_decoded =
            (d.messages_decoded + length (ms ++ messages_of (parse_impl e d.parser tail).events))
            % 2 ^ 64;
      },
      if d.has_callback then ms ++ messages_of (parse_impl e d.parser tail).events else [],
    )
unfolding decode_blocks parse prepend
decode_blocks-encode_all e d ms tail h = rw (
  parse_impl-encode_all e d.parser ms tail h,
  messages_of-append ms (parse_impl e d.parser tail).events,
)

decode_header-data :
    (e : Endian) (d : MoldUdp64Decoder) (h : MoldUdp64Header) (packet : List ℕ)
    → 0 < h.message_count
    → h.message_count < 0xFFFF
    → decode_header e d h packet ≡ (
        let (tracker, notices, gap) =
          observe d.tracker (trim_end is_blank h.session) h.sequence_number h.message_count in
        let (d', messages) = decode_blocks e (record d { tracker = tracker }) (drop 20 packet) in
        record { decoder = d'; notices = notices; messages = messages; header = some h })
unfolding decode_header decode_data session_view is_heartbeat is_end_of_session
decode_header-data e d h packet positive small =
    rw (differs h.message_count 0xFFFF (omega arith), differs h.message_count 0 (omega arith))
  where
    differs : (m n : ℕ) → m ≢ n → (m == n) ≡ false
    differs m n ne = ground arith

decode_packet-data :
    (e : Endian) (d : MoldUdp64Decoder) (h : MoldUdp64Header) (blocks : List ℕ)
    → FitsHeader h
    → decode_packet e d (datagram h blocks)
      ≡ decode_header e
          (record d { packets_decoded = (d.packets_decoded + 1) % 2 ^ 64 })
          h
          (datagram h blocks)
unfolding decode_packet
decode_packet-data e d h blocks f =
    rw (le→ltb_false (length (datagram h blocks)) 20 (omega (arith, length-datagram h blocks f))) (
      ap
        (λ (read : MoldUdp64Header).
          decode_header e (record d { packets_decoded = (d.packets_decoded + 1) % 2 ^ 64 }) read
            (datagram h blocks))
        (read_header-datagram e h blocks f))

-- A datagram with a header that fits and counts at least one message block, whose blocks begin with
-- encoded messages and go on with any bytes: the tracker observes the trimmed session, the number
-- and the count of the header; the callback, where it is set, gets the encoded messages in order and
-- then what the parser makes of the other bytes; and the packet and all these messages are counted,
-- also where the parser ends with an error.
pub decode_packet-datagram :
    (e : Endian) (d : MoldUdp64Decoder) (h : MoldUdp64Header) (ms : List Message) (tail : List ℕ)
    → FitsHeader h
    → 0 < h.message_count
    → h.message_count < 0xFFFF
    → All IsTyped ms
    → decode_packet e d (datagram h (encode_all e ms ++ tail)) ≡ (
        let (tracker, notices, gap) =
          observe d.tracker (trim_end is_blank h.session) h.sequence_number h.message_count in
        let r = parse_impl e d.parser tail in
        record {
          decoder = after d tracker r (ms ++ messages_of r.events);
          notices = notices;
          messages = if d.has_callback then ms ++ messages_of r.events else [];
          header = some h;
        })
decode_packet-datagram e d h ms tail f positive small typed =
    decode_packet-data e d h (encode_all e ms ++ tail) f
    ∙ decode_header-data e _ h _ positive small
    ∙ rw (drop-datagram h (encode_all e ms ++ tail) f, decode_blocks-encode_all e _ ms tail typed)
