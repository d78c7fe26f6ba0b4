-- ===== src/Parser/Api.antt =====
-- The public entry points of the class `Parser` in src/parser.cpp over a buffer: with a callback,
-- into a vector, into a vector filtered by type, and `try_parse`.
use itchcpp.Prelude.{ℕ, List, [], ◌∷◌, none, some, Bool, false, ◌==◌, ◌||◌, if◌then◌else◌}
use itchcpp.Wire.{Endian}
use itchcpp.Message.{Message, header_of}
use itchcpp.Parser.Loop.{
  ParseError, Parser, Event, message, error, Outcome, returned, over_read, out_of_fuel, Run,
  parse_impl,
}

-- A value, or the exception "Incomplete message at end of buffer.", or one of the two faults that
-- no call has.
pub data Result {ℓ} (A : Type ℓ) : Type ℓ where
  ok : A → Result A
  thrown : Result A
  fault : Result A

-- The messages that the callback was called with.
unfoldable pub messages_of : List Event → List Message
messages_of [] = []
messages_of (message m ∷ events) = m ∷ messages_of events
messages_of (error e letter ∷ events) = messages_of events

unfoldable pub throws : {A : Type 0} → Outcome → A → Result A
throws (returned none) a = ok a
throws (returned (some e)) a = thrown
throws over_read a = fault
throws out_of_fuel a = fault

-- parse(data, size, callback): what was called until it returned or threw.
unfoldable pub parse : Endian → Parser → List ℕ → Run × Result (Unit {0})
parse e p bytes = let r = parse_impl e p bytes in (r, throws r.outcome tt)

-- parse(data, size)
unfoldable pub parse_messages : Endian → Parser → List ℕ → Run × Result (List Message)
parse_messages e p bytes =
    let r = parse_impl e p bytes in (r, throws r.outcome (messages_of r.events))

unfoldable pub contains : List ℕ → ℕ → Bool
contains [] c = false
contains (x ∷ xs) c = x == c || contains xs c

-- The callback of the filtering overload, called with each message in turn.
unfoldable pub keep : List ℕ → List Message → List Message
unfolding contains
keep letters [] = []
keep letters (m ∷ ms) =
    let rest = keep letters ms in
    if contains letters (header_of m).message_type then m ∷ rest else rest

-- parse(data, size, messages): an empty filter returns before any parsing.
unfoldable pub parse_filtered : Endian → Parser → List ℕ → List ℕ → Run × Result (List Message)
parse_filtered e p bytes [] = (record { outcome = returned none; parser = p; events = [] }, ok [])
parse_filtered e p bytes (letter ∷ letters) =
    let r = parse_impl e p bytes in
    (r, throws r.outcome (keep (letter ∷ letters) (messages_of r.events)))

-- The value or the error of try_parse(data).
pub data Expected {ℓ} (A : Type ℓ) : Type ℓ where
  value : A → Expected A
  unexpected : ParseError → Expected A
  broken : Expected A

unfoldable pub expect : {A : Type 0} → Outcome → A → Expected A
expect (returned none) a = value a
expect (returned (some e)) a = unexpected e
expect over_read a = broken
expect out_of_fuel a = broken

unfoldable pub try_parse : Endian → Parser → List ℕ → Run × Expected (List Message)
try_parse e p bytes = let r = parse_impl e p bytes in (r, expect r.outcome (messages_of r.events))

-- reset_diagnostics
unfoldable pub reset_diagnostics : Parser → Parser
reset_diagnostics p = record p { unknown_message_count = 0; malformed_message_count = 0 }
