-- ===== src/Transport/SoupBin/Sequenced.antt =====
-- `feed` of src/transport/soupbintcp.cpp on a stream of sequenced data packets, each with one
-- encoded message.
use itchcpp.Prelude.{
  ℕ, zero, suc, ◌+◌, ◌-◌, ◌%◌, ◌^◌, ◌≤◌, ◌<◌, ◌≡◌, refl, ap, ◌∙◌, List, [], ◌∷◌, ◌++◌, map, Option,
  none, some, ◌⊎◌, inl, inr, true, false, append_assoc, length, length-append, ltb, ◌==◌, ◌||◌,
  le→ltb_false, arith, All,
}
use itchcpp.Wire.{Endian}
use itchcpp.Wire.BigEndian.{big_endian, length-big_endian}
use itchcpp.Wire.At.{take-field, drop-field}
use itchcpp.Message.{Message, IsTyped, type_of}
use itchcpp.Encoder.{encode_message, encode_frame}
use itchcpp.Encoder.ByteWriter.{put}
use itchcpp.Parser.Api.{messages_of, parse}
use itchcpp.Parser.RoundTrip.{length-encode_message, encode_message-letter}
use itchcpp.Parser.Encoded.{wire_size_bound}
use itchcpp.Parser.Frames.{suc-ne-zero, prefix_value, take-prefix, drop-prefix}
use itchcpp.Parser.Delivered.{parse_impl-encode_frame}
use itchcpp.Transport.Sequencing.{
  SequenceTracker, observe, observe_found, observe_known, note_gap, anchor, advance, expected_next,
}
use itchcpp.Transport.Sequencing.Laws.{expected_next-observe_same}
use itchcpp.Transport.SoupBin.{
  SoupBinState, Effect, delivered, packet, split_packet, front_of, front, Fed, behind,
  sequenced_data, decode_application_message, sequenced, process_packet, consume, feed,
}

decode_application_message-encoded :
    (e : Endian) (s : SoupBinState) (m : Message)
    → IsTyped m
    → s.has_callback ≡ true
    → decode_application_message e s (encode_message e m)
      ≡ (record s { messages_decoded = (s.messages_decoded + 1) % 2 ^ 64 }, delivered m ∷ [])
unfolding decode_application_message encode_frame put parse messages_of
decode_application_message-encoded e s m h callback =
    let (body, starts) = encode_message-letter e m h in
    rw (
      small (length (encode_message e m)) (omega (arith, ap length starts))
          (omega (arith, length-encode_message e m h, wire_size_bound (type_of m))),
      parse_impl-encode_frame e s.parser m h,
      callback,
    )
  where
    small : (n : ℕ) → 0 < n → n ≤ 50 → (n == 0 || ltb 0xFFFF n) ≡ false
    small n h k = ground arith

-- The tracker expects what the stream says comes next, or knows nothing of the session.
abbrev pub InStep : SoupBinState → Type 0
InStep s =
    (expected_next s.tracker s.session ≡ none)
    ⊎ (expected_next s.tracker s.session ≡ some s.next_sequence)

observe_found-quiet :
    (t : SequenceTracker) (session : List ℕ) (next : ℕ) (o : Option ℕ)
    → (o ≡ none) ⊎ (o ≡ some next)
    → ((observe_found t session next 1 o).1 ≡ [])
      × ((observe_found t session next 1 o).0.gap_count ≡ t.gap_count)
unfolding observe_found observe_known note_gap anchor advance
observe_found-quiet t session next none h = (refl, refl)
observe_found-quiet t session next (some x) (inl h) = cc
observe_found-quiet t session next (some x) (inr h) = (ground arith, ground arith)

-- A packet that comes next is no gap.
observe-quiet :
    (s : SoupBinState)
    → InStep s
    → ((observe s.tracker s.session s.next_sequence 1).1 ≡ [])
      × ((observe s.tracker s.session s.next_sequence 1).0.gap_count ≡ s.tracker.gap_count)
unfolding observe expected_next
observe-quiet s h = observe_found-quiet s.tracker s.session s.next_sequence _ h

observe-next :
    (s : SoupBinState)
    → InStep s
    → s.next_sequence + 1 < 2 ^ 64
    → expected_next (observe s.tracker s.session s.next_sequence 1).0 s.session
      ≡ some (s.next_sequence + 1)
observe-next s (inl h) fits =
    expected_next-observe_same s.tracker s.session s.next_sequence 1 none fits h
observe-next s (inr h) fits =
    expected_next-observe_same s.tracker s.session s.next_sequence 1 (some s.next_sequence) fits h
    ∙ ap some (omega arith)

-- The decoder behind a sequenced packet.
abbrev after : SoupBinState → SoupBinState
after s = record s {
  tracker = (observe s.tracker s.session s.next_sequence 1).0;
  next_sequence = (s.next_sequence + 1) % 2 ^ 64;
  messages_decoded = (s.messages_decoded + 1) % 2 ^ 64;
}

after-InStep : (s : SoupBinState) → InStep s → s.next_sequence + 1 < 2 ^ 64 → InStep (after s)
after-InStep s h fits = inr (observe-next s h fits ∙ ap some (omega arith))

process_packet-sequenced :
    (e : Endian) (s : SoupBinState) (m : Message)
    → IsTyped m
    → s.has_callback ≡ true
    → InStep s
    → process_packet e s sequenced_data (encode_message e m) ≡ (after s, delivered m ∷ [])
unfolding process_packet sequenced
process_packet-sequenced e s m typed callback h = rw (
  (observe-quiet s h).0,
  decode_application_message-encoded e
      (record s {
        tracker = (observe s.tracker s.session s.next_sequence 1).0;
        next_sequence = (s.next_sequence + 1) % 2 ^ 64;
      })
      m typed callback,
)

-- A packet on the wire: the length of what follows, the type, the payload.
abbrev pub soup : ℕ → List ℕ → List ℕ
soup type payload = big_endian 2 (suc (length payload)) ++ (type ∷ payload)

front_of-whole :
    (type : ℕ) (payload rest : List ℕ)
    → front_of (suc (length payload)) (type ∷ (payload ++ rest)) ≡ packet type payload rest
unfolding front_of split_packet
front_of-whole type payload rest = rw (
  suc-ne-zero (length payload),
  le→ltb_false (suc (length (payload ++ rest))) (suc (length payload))
      (omega (arith, length-append payload rest)),
  take-field (suc (length payload) - 1) payload rest (omega arith),
  drop-field (suc (length payload) - 1) payload rest (omega arith),
)

front-soup :
    (e : Endian) (type : ℕ) (payload rest : List ℕ)
    → suc (length payload) < 2 ^ 16
    → front e (soup type payload ++ rest) ≡ packet type payload rest
unfolding front
front-soup e type payload rest fits =
    rw
      (
        append_assoc (big_endian 2 (suc (length payload))) (type ∷ payload) rest,
        le→ltb_false (length (big_endian 2 (suc (length payload)) ++ (type ∷ (payload ++ rest)))) 2
            (omega (
              arith,
              length-append (big_endian 2 (suc (length payload))) (type ∷ (payload ++ rest)),
              length-big_endian 2 (suc (length payload)),
            )),
        take-prefix (suc (length payload)) (type ∷ (payload ++ rest)),
        drop-prefix (suc (length payload)) (type ∷ (payload ++ rest)),
        prefix_value e (suc (length payload)) fits,
      )
      (front_of-whole type payload rest)

-- The sequenced packets of the messages.
unfoldable pub stream : Endian → List Message → List ℕ
stream e [] = []
stream e (m ∷ ms) = soup sequenced_data (encode_message e m) ++ stream e ms

-- What the stream of some messages does, from a state that is in step.
record Delivers (e : Endian) (s : SoupBinState) (ms : List Message) (f : Fed) : Type 0 where
  in_order : f.effects ≡ map delivered ms
  whole : f.rest ≡ []
  numbered : f.state.next_sequence ≡ s.next_sequence + length ms
  no_gap : f.state.tracker.gap_count ≡ s.tracker.gap_count

encoded_bound : (e : Endian) (m : Message) → IsTyped m → length (encode_message e m) ≤ 50
encoded_bound e m h = omega (arith, length-encode_message e m h, wire_size_bound (type_of m))

length-stream :
    (e : Endian) (m : Message) (ms : List Message)
    → length (stream e ms) < length (soup sequenced_data (encode_message e m) ++ stream e ms)
length-stream e m ms = omega (
  arith,
  length-append (soup sequenced_data (encode_message e m)) (stream e ms),
  length-append (big_endian 2 (suc (length (encode_message e m))))
      (sequenced_data ∷ encode_message e m),
)

first_Delivers :
    (e : Endian) (s : SoupBinState) (m : Message) (ms : List Message) (f : Fed)
    → Delivers e (after s) ms f
    → (after s).tracker.gap_count ≡ s.tracker.gap_count
    → s.next_sequence + 1 < 2 ^ 64
    → Delivers e s (m ∷ ms) (behind (delivered m ∷ []) f)
unfolding behind
first_Delivers e s m ms f d gap fits = record {
  in_order = ap (◌∷◌ (delivered m)) d.in_order;
  whole = d.whole;
  numbered = omega (arith, d.numbered);
  no_gap = d.no_gap ∙ gap;
}

consume-packet :
    (e : Endian) (fuel : ℕ) (s s' : SoupBinState) (bytes payload rest : List ℕ) (type : ℕ)
    (effects : List Effect)
    → front e bytes ≡ packet type payload rest
    → process_packet e s type payload ≡ (s', effects)
    → consume e (suc fuel) s bytes ≡ behind effects (consume e fuel s' rest)
unfolding consume
consume-packet e fuel s s' bytes payload rest type effects found processed =
    rw (found, consume, processed)

consume-Delivers :
    (e : Endian) (fuel : ℕ) (s : SoupBinState) (ms : List Message)
    → length (stream e ms) ≤ fuel
    → All IsTyped ms
    → s.has_callback ≡ true
    → InStep s
    → s.next_sequence + length ms < 2 ^ 64
    → Delivers e s ms (consume e fuel s (stream e ms))
unfolding stream consume
consume-Delivers e zero s [] long typed callback h fits = record {
  in_order = refl;
  whole = refl;
  numbered = omega arith;
  no_gap = refl;
}
consume-Delivers e (suc fuel) s [] long typed callback h fits =
    unfold front in record { in_order = refl; whole = refl; numbered = omega arith; no_gap = refl }
consume-Delivers e zero s (m ∷ ms) long typed callback h fits =
    absurd (omega (arith, length-stream e m ms))
consume-Delivers e (suc fuel) s (m ∷ ms) long typed callback h fits =
    rw
      (consume-packet e fuel s (after s) (stream e (m ∷ ms)) (encode_message e m) (stream e ms)
        sequenced_data (delivered m ∷ [])
        (front-soup e sequenced_data (encode_message e m) (stream e ms)
          (omega (arith, encoded_bound e m typed.0)))
        (process_packet-sequenced e s m typed.0 callback h))
      (first_Delivers e s m ms _
        (consume-Delivers e fuel (after s) ms (omega (arith, length-stream e m ms)) typed.1 callback
          (after-InStep s h (omega arith)) (omega arith))
        (observe-quiet s h).1 (omega arith))

-- Feeding the sequenced packets of any messages whose fields fit their types, where the buffer is
-- empty, the callback is set, the tracker is in step, and no sequence number wraps: exactly these
-- messages are delivered, in order, with no notice between them; nothing is left in the buffer; the
-- next sequence number grows by one for each message; and no gap is counted.
pub feed-stream :
    (e : Endian) (s : SoupBinState) (ms : List Message)
    → All IsTyped ms
    → s.has_callback ≡ true
    → InStep s
    → s.next_sequence + length ms < 2 ^ 64
    → (let (d, effects) = feed e (record { state = s; buffer = [] }) (stream e ms) in
        (effects ≡ map delivered ms)
        × (d.buffer ≡ [])
        × (d.state.next_sequence ≡ s.next_sequence + length ms)
        × (d.state.tracker.gap_count ≡ s.tracker.gap_count))
unfolding feed
feed-stream e s ms typed callback h fits =
    let d = consume-Delivers e (length (stream e ms)) s ms (omega arith) typed callback h fits in
    (d.in_order, d.whole, d.numbered, d.no_gap)
