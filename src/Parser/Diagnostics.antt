-- ===== src/Parser/Diagnostics.antt =====
-- The counters `m_unknown_message_count` and `m_malformed_message_count` of src/parser.cpp against
-- the calls of the error callback.
use itchcpp.Prelude.{
  ℕ, suc, ◌+◌, ◌%◌, ◌^◌, ◌<◌, ◌≡◌, List, [], ◌∷◌, ◌++◌, Option, none, some, true, All, ltb, length,
  arith, Bool-cases, inl, inr,
}
use itchcpp.Wire.{Endian, IsByte}
use itchcpp.Message.{Message}
use itchcpp.Parser.Dispatch.{DispatchEntry, build_dispatch_table}
use itchcpp.Parser.Loop.{
  ParseError, truncated, unknown_type, size_mismatch, Parser, Event, message, error, prepend,
  report_error, parse_impl,
}
use itchcpp.Parser.Frames.{received, judge, handle}
use itchcpp.Parser.Stream.{handle_all, finish, framing, parse_impl-Framing}

-- How often the error callback was called for an unknown type, and for the other errors.
unfoldable pub unknown_reports : List Event → ℕ
unknown_reports [] = 0
unknown_reports (message m ∷ events) = unknown_reports events
unknown_reports (error unknown_type letter ∷ events) = suc (unknown_reports events)
unknown_reports (error size_mismatch letter ∷ events) = unknown_reports events
unknown_reports (error truncated letter ∷ events) = unknown_reports events

unfoldable pub malformed_reports : List Event → ℕ
malformed_reports [] = 0
malformed_reports (message m ∷ events) = malformed_reports events
malformed_reports (error unknown_type letter ∷ events) = malformed_reports events
malformed_reports (error size_mismatch letter ∷ events) = suc (malformed_reports events)
malformed_reports (error truncated letter ∷ events) = suc (malformed_reports events)

-- The counters of `q` are those of `p`, advanced by the reports among the events; both are 64-bit.
pub record Tallies (p q : Parser) (events : List Event) : Type 0 where
  pub callback : q.has_error_callback ≡ true
  pub unknown :
      q.unknown_message_count ≡ (p.unknown_message_count + unknown_reports events) % 2 ^ 64
  pub malformed :
      q.malformed_message_count ≡ (p.malformed_message_count + malformed_reports events) % 2 ^ 64

-- A parser with an error callback, whose counters are 64-bit.
pub record IsWatched (p : Parser) : Type 0 where
  pub callback : p.has_error_callback ≡ true
  pub unknown : p.unknown_message_count < 2 ^ 64
  pub malformed : p.malformed_message_count < 2 ^ 64

Tallies-report_error :
    (p : Parser) (e : ParseError) (letter : ℕ)
    → IsWatched p
    → Tallies p (report_error p e letter).0 (report_error p e letter).1
unfolding report_error unknown_reports malformed_reports
Tallies-report_error p unknown_type letter h = rw h.callback (ground arith)
Tallies-report_error p _ letter h = rw h.callback (ground arith)

Tallies-none : (p : Parser) → IsWatched p → Tallies p p []
unfolding unknown_reports malformed_reports
Tallies-none p h = ground (arith, h.callback)

Tallies-message : (p : Parser) (m : Message) → IsWatched p → Tallies p p (message m ∷ [])
unfolding unknown_reports malformed_reports
Tallies-message p m h = ground (arith, h.callback)

Tallies-received :
    (p : Parser) (o : Option (Message × List ℕ))
    → IsWatched p
    → Tallies p (received p o).0 (received p o).1
unfolding received
Tallies-received p none h = Tallies-none p h
Tallies-received p (some (m, rest)) h = Tallies-message p m h

Tallies-judge :
    (p : Parser) (letter : ℕ) (payload : List ℕ) (o : Option DispatchEntry)
    → IsWatched p
    → Tallies p (judge p letter payload o).0 (judge p letter payload o).1
unfolding judge
Tallies-judge p letter payload none h = Tallies-report_error p unknown_type letter h
Tallies-judge p letter payload (some found) h =
    elim (Bool-cases (ltb (length payload) found.wire_size)) [
      | inl short ↦ rw short (Tallies-report_error p size_mismatch letter h)
      | inr long ↦ rw long (Tallies-received p (found.decode payload) h)
    ]

Tallies-handle :
    (e : Endian) (p : Parser) (payload : List ℕ)
    → IsWatched p
    → Tallies p (handle e p payload).0 (handle e p payload).1
unfolding handle
Tallies-handle e p [] h = Tallies-none p h
Tallies-handle e p (letter ∷ body) h =
    Tallies-judge p letter (letter ∷ body) (build_dispatch_table e letter) h

reports-append :
    (xs ys : List Event)
    → (unknown_reports (xs ++ ys) ≡ unknown_reports xs + unknown_reports ys)
      × (malformed_reports (xs ++ ys) ≡ malformed_reports xs + malformed_reports ys)
unfolding unknown_reports malformed_reports
reports-append [] ys = omega arith
reports-append (message m ∷ xs) ys = reports-append xs ys
reports-append (error unknown_type letter ∷ xs) ys = omega (arith, reports-append xs ys)
reports-append (error size_mismatch letter ∷ xs) ys = omega (arith, reports-append xs ys)
reports-append (error truncated letter ∷ xs) ys = omega (arith, reports-append xs ys)

Tallies-IsWatched : {p q : Parser} {events : List Event} → Tallies p q events → IsWatched q
Tallies-IsWatched t = record {
  callback = t.callback;
  unknown = omega arith;
  malformed = omega arith;
}

Tallies-append :
    (p q r : Parser) (xs ys : List Event) → Tallies p q xs → Tallies q r ys → Tallies p r (xs ++ ys)
Tallies-append p q r xs ys s t = record {
  callback = t.callback;
  unknown = omega (arith, reports-append xs ys);
  malformed = omega (arith, reports-append xs ys);
}

Tallies-handle_all :
    (e : Endian) (p : Parser) (payloads : List (List ℕ))
    → IsWatched p
    → Tallies p (handle_all e p payloads).0 (handle_all e p payloads).1
unfolding handle_all
Tallies-handle_all e p [] h = Tallies-none p h
Tallies-handle_all e p (payload ∷ payloads) h =
    let t = Tallies-handle e p payload h in
    Tallies-append p (handle e p payload).0 _ _ _ t
      (Tallies-handle_all e (handle e p payload).0 payloads (Tallies-IsWatched t))

Tallies-finish :
    (p : Parser) (tail : List ℕ)
    → IsWatched p
    → Tallies p (finish p tail).parser (finish p tail).events
unfolding finish
Tallies-finish p [] h = Tallies-none p h
Tallies-finish p (b ∷ bytes) h = Tallies-report_error p truncated 0 h

-- On every stream of bytes, with an error callback set and counters below 2 ^ 64, each of the two
-- counters grows by the number of calls of the error callback for its errors, modulo 2 ^ 64: unknown types on the one side, short frames and a cut
-- stream on the other.
pub parse_impl-Tallies :
    (e : Endian) (p : Parser) (bytes : List ℕ)
    → All IsByte bytes
    → IsWatched p
    → Tallies p (parse_impl e p bytes).parser (parse_impl e p bytes).events
unfolding prepend
parse_impl-Tallies e p bytes b h =
    let f = framing bytes b in
    let t = Tallies-handle_all e p f.payloads h in
    rw (parse_impl-Framing e p bytes f) (
      Tallies-append p (handle_all e p f.payloads).0 _ _ _ t
        (Tallies-finish (handle_all e p f.payloads).0 f.tail (Tallies-IsWatched t)))
