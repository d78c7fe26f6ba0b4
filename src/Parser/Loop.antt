-- ===== src/Parser/Loop.antt =====
-- The framing loop of src/parser.cpp: `report_error` and `parse_impl`. What the callbacks are
-- called with, in order, is a list of events. The data still to be read stands for the pointer and
-- the offset; each round reads two bytes at least, so as many rounds as bytes are enough.
use itchcpp.Prelude.{
  ℕ, zero, suc, ◌+◌, ◌%◌, ◌^◌, List, [], ◌∷◌, ◌++◌, Option, none, some, Bool, length, take, drop,
  ltb, ◌==◌, if◌then◌else◌,
}
use itchcpp.Wire.{Endian, of_memory, from_big_endian}
use itchcpp.Message.{Message}
use itchcpp.Parser.Dispatch.{DispatchEntry, build_dispatch_table}

pub data ParseError : Type 0 where
  truncated unknown_type size_mismatch : ParseError

-- `has_error_callback` says whether `m_error_callback` is set.
pub record Parser : Type 0 where
  pub has_error_callback : Bool
  pub unknown_message_count : ℕ
  pub malformed_message_count : ℕ

-- A call of the message callback, and one of the error callback.
pub data Event : Type 0 where
  message : Message → Event
  error : ParseError → ℕ → Event

unfoldable pub count_error : Parser → ParseError → Parser
count_error p unknown_type = record p {
  unknown_message_count = (p.unknown_message_count + 1) % 2 ^ 64;
}
count_error p size_mismatch = record p {
  malformed_message_count = (p.malformed_message_count + 1) % 2 ^ 64;
}
count_error p truncated = record p {
  malformed_message_count = (p.malformed_message_count + 1) % 2 ^ 64;
}

unfoldable pub report_error : Parser → ParseError → ℕ → Parser × List Event
unfolding count_error
report_error p e message_type =
    (count_error p e, if p.has_error_callback then error e message_type ∷ [] else [])

-- How `parse_impl` ends. The last two are no results of the C++ function: a decoder read past the
-- end of the data, and the rounds that the model allows were used up.
pub data Outcome : Type 0 where
  returned : Option ParseError → Outcome
  over_read out_of_fuel : Outcome

pub record Run : Type 0 where
  pub outcome : Outcome
  pub parser : Parser
  pub events : List Event

-- One round of the loop ends the call, or goes on behind a frame.
pub data Round : Type 0 where
  stop : Run → Round
  next : Parser → List Event → List ℕ → Round

unfoldable pub fail : Parser × List Event → ParseError → Round
fail (p, events) e = stop (record { outcome = returned (some e); parser = p; events = events })

unfoldable pub resume : Parser × List Event → List ℕ → Round
resume (p, events) rest = next p events rest

-- `callback(entry.decode(message))`; `frame` is the data from the message on.
unfoldable pub deliver : Parser → ℕ → List ℕ → Option (Message × List ℕ) → Round
deliver p size frame none = stop (record { outcome = over_read; parser = p; events = [] })
deliver p size frame (some (m, _)) = next p (message m ∷ []) (drop size frame)

unfoldable pub dispatch : Parser → ℕ → ℕ → List ℕ → Option DispatchEntry → Round
unfolding report_error resume deliver
dispatch p size message_type frame none =
    resume (report_error p unknown_type message_type) (drop size frame)
dispatch p size message_type frame (some entry) =
    if ltb size entry.wire_size
    then resume (report_error p size_mismatch message_type) (drop size frame)
    else deliver p size frame (entry.decode frame)

-- `message[0]`, where the frame is not empty.
unfoldable pub read_type : Endian → Parser → ℕ → List ℕ → Round
unfolding dispatch build_dispatch_table
read_type e p size [] = stop (record { outcome = over_read; parser = p; events = [] })
read_type e p size (message_type ∷ more) =
    dispatch p size message_type (message_type ∷ more) (build_dispatch_table e message_type)

unfoldable pub read_frame : Endian → Parser → ℕ → List ℕ → Round
unfolding report_error fail read_type
read_frame e p size rest =
    if size == 0
    then next p [] rest
    else if ltb (length rest) size
    then fail (report_error p truncated 0) truncated
    else read_type e p size rest

unfoldable pub parse_round : Endian → Parser → List ℕ → Round
unfolding report_error fail read_frame
parse_round e p bytes =
    if ltb (length bytes) 2
    then fail (report_error p truncated 0) truncated
    else read_frame e p (from_big_endian e 2 (of_memory e (take 2 bytes))) (drop 2 bytes)

unfoldable pub prepend : List Event → Run → Run
prepend events r = record r { events = events ++ r.events }

unfoldable pub parse_loop : Endian → ℕ → Parser → List ℕ → Run
unfolding parse_round prepend
parse_loop e fuel p [] = record { outcome = returned none; parser = p; events = [] }
parse_loop e zero p (b ∷ bytes) = record { outcome = out_of_fuel; parser = p; events = [] }
parse_loop e (suc fuel) p (b ∷ bytes) = elim (parse_round e p (b ∷ bytes)) [
  | stop r ↦ r
  | next p' events rest ↦ prepend events (parse_loop e fuel p' rest)
]

unfoldable pub parse_impl : Endian → Parser → List ℕ → Run
unfolding parse_loop
parse_impl e p bytes = parse_loop e (length bytes) p bytes
