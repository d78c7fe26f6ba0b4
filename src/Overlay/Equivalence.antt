-- ===== src/Overlay/Equivalence.antt =====
-- `for_each_message` of include/itch/overlay.hpp against `parse_impl` of src/parser.cpp: the lazy
-- and the eager reader find the same messages in the same data.
use itchcpp.Prelude.{
  ℕ, zero, suc, ◌≤◌, ◌<◌, ◌≡◌, refl, sym, ap, List, [], ◌∷◌, ◌++◌, map, Option, none, some, ◌⊎◌,
  inl, inr, append-nil, length-map, map-append, true, false, Bool-cases, ◌||◌, length, take, drop,
  ltb, ◌==◌, arith,
}
use mathlib.Core.List.{foldl}
use itchcpp.Wire.{Endian, of_memory, from_big_endian}
use itchcpp.Message.{Message, MessageType, wire_size, message_types, system_event_message}
use itchcpp.Parser.Dispatch.{DispatchEntry, DispatchTable, add, build_dispatch_table, decode_typed}
use itchcpp.Parser.Table.{entry}
use itchcpp.Parser.Frames.{decode_typed-DecodesTo}
use itchcpp.Parser.Loop.{
  Parser, ParseError, truncated, error, unknown_type, size_mismatch, Event, message, Round, stop,
  next, Run, report_error, resume, fail, deliver, dispatch, read_type, read_frame, parse_round,
  prepend, parse_loop, parse_impl,
}
use itchcpp.Parser.Encoded.{wire_size_bound}
use itchcpp.Parser.Api.{messages_of}
use itchcpp.Overlay.{MessageView}
use itchcpp.Overlay.EachMessage.{
  add_size, build_size_table, Look, fault, skip, view, look_at, look_frame, look, each_message,
  for_each_message,
}
use itchcpp.Overlay.EachMessage

-- The two tables have the same entries.
abbrev SameEntry : Endian → Option DispatchEntry → ℕ → Type 0
SameEntry e found size =
    ((found ≡ none) × (size ≡ 0))
    ⊎ ((t : MessageType) × (found ≡ some (entry e t)) × (size ≡ wire_size t))

wire_size_positive : (t : MessageType) → 0 < wire_size t
unfolding wire_size
wire_size_positive system_event_message = omega arith
wire_size_positive _ = omega arith

add-SameEntry :
    (e : Endian) (letter : ℕ) (t : MessageType) (table : DispatchTable) (sizes : ℕ → ℕ)
    → ((byte : ℕ) → SameEntry e (table byte) (sizes byte))
    → (byte : ℕ) → SameEntry e (add e table (letter, t) byte) (add_size sizes (letter, t) byte)
unfolding add add_size
add-SameEntry e letter t table sizes h byte = elim (Bool-cases (byte == letter)) [
  | inl same ↦ rw same (inr (t, refl, omega (arith, wire_size_bound t)))
  | inr other ↦ rw other (h byte)
]

foldl-SameEntry :
    (e : Endian) (types : List (ℕ × MessageType)) (table : DispatchTable) (sizes : ℕ → ℕ)
    → ((byte : ℕ) → SameEntry e (table byte) (sizes byte))
    → (byte : ℕ) → SameEntry e (foldl (add e) table types byte) (foldl add_size sizes types byte)
foldl-SameEntry e [] table sizes h = h
foldl-SameEntry e ((letter, t) ∷ types) table sizes h =
    foldl-SameEntry e types (add e table (letter, t)) (add_size sizes (letter, t))
      (add-SameEntry e letter t table sizes h)

build_size_table-SameEntry :
    (e : Endian) (byte : ℕ) → SameEntry e (build_dispatch_table e byte) (build_size_table byte)
unfolding build_dispatch_table build_size_table
build_size_table-SameEntry e byte =
    foldl-SameEntry e message_types (λ byte. none) (λ byte. 0) (λ byte. inl (refl, refl)) byte

-- What the eager decoder of the type of its frame makes of a view.
eager_found : List ℕ → Option DispatchEntry → Option Message
eager_found bytes none = none
eager_found bytes (some found) = elim (found.decode bytes) [ none ↦ none | some (m, rest) ↦ some m ]

eager_at : Endian → List ℕ → Option Message
unfolding eager_found
eager_at e [] = none
eager_at e (letter ∷ more) = eager_found (letter ∷ more) (build_dispatch_table e letter)

pub eager : Endian → MessageView → Option Message
unfolding eager_at
eager e v = eager_at e v.bytes

-- A round of both loops: they end or go on together, and deliver the same message.
abbrev SameRound : Endian → Round → Look → Type 0
SameRound e (stop r) EachMessage.stop = messages_of r.events ≡ []
SameRound e (stop r) fault = ⊥
SameRound e (stop r) (skip rest) = ⊥
SameRound e (stop r) (view v rest) = ⊥
SameRound e (next p events rest) EachMessage.stop = ⊥
SameRound e (next p events rest) fault = ⊥
SameRound e (next p events rest) (skip rest') = (rest ≡ rest') × (messages_of events ≡ [])
SameRound e (next p events rest) (view v rest') =
    (rest ≡ rest') × (map some (messages_of events) ≡ eager e v ∷ [])

report_error-messages_of :
    (p : Parser) (err : ParseError) (letter : ℕ) → messages_of (report_error p err letter).1 ≡ []
unfolding report_error messages_of
report_error-messages_of p err letter = ground arith

pass_over :
    (e : Endian) (p : Parser) (err : ParseError) (letter : ℕ) (rest : List ℕ)
    → SameRound e (resume (report_error p err letter) rest) (skip rest)
unfolding resume
pass_over e p err letter rest = (refl, report_error-messages_of p err letter)

decodes :
    (e : Endian) (t : MessageType) (bytes : List ℕ)
    → wire_size t ≤ length bytes
    → (m : Message) × (rest : List ℕ) × (decode_typed e t bytes ≡ some (m, rest))
decodes e t bytes fits =
    let (m, d) = decode_typed-DecodesTo e t bytes fits in
    (m, _, rw (append-nil bytes) at (d.decoded []))

deliver-SameRound :
    (e : Endian) (p : Parser) (size letter : ℕ) (more : List ℕ) (t : MessageType)
    → build_dispatch_table e letter ≡ some (entry e t)
    → wire_size t ≤ length (letter ∷ more)
    → SameRound e
        (deliver p size (letter ∷ more) (decode_typed e t (letter ∷ more)))
        (view (record { bytes = letter ∷ more; size = size }) (drop size (letter ∷ more)))
unfolding deliver eager eager_at eager_found messages_of
deliver-SameRound e p size letter more t found fits =
    let (m, rest, decoded) = decodes e t (letter ∷ more) fits in
    rw (decoded, found, eager_found) (refl, rw decoded)

found-SameRound :
    (e : Endian) (p : Parser) (size letter : ℕ) (more : List ℕ) (t : MessageType)
    → build_dispatch_table e letter ≡ some (entry e t)
    → build_size_table letter ≡ wire_size t
    → size ≤ length (letter ∷ more)
    → SameRound e
        (dispatch p size letter (letter ∷ more) (some (entry e t)))
        (look_at size (letter ∷ more))
unfolding dispatch look_at
found-SameRound e p size letter more t found sized fits =
    elim (Bool-cases (ltb size (wire_size t))) [
      | inl short ↦
          rw (short, sized, passed short)
            (pass_over e p size_mismatch letter (drop size (letter ∷ more)))
      | inr long ↦
          rw (long, sized, kept long)
            (deliver-SameRound e p size letter more t found (ground arith))
    ]
  where
    passed : ltb size (wire_size t) ≡ true → (wire_size t == 0 || ltb size (wire_size t)) ≡ true
    passed h = ground arith

    kept : ltb size (wire_size t) ≡ false → (wire_size t == 0 || ltb size (wire_size t)) ≡ false
    kept h = ground (arith, wire_size_positive t)

read_type-SameRound :
    (e : Endian) (p : Parser) (size : ℕ) (rest : List ℕ)
    → (size == 0) ≡ false
    → size ≤ length rest
    → SameRound e (read_type e p size rest) (look_at size rest)
unfolding read_type look_at
read_type-SameRound e p size [] positive fits = absurd (ground arith)
read_type-SameRound e p size (letter ∷ more) positive fits =
    elim (build_size_table-SameEntry e letter) [
      | inl (absent, zero_size) ↦
          rw (absent, dispatch, look_at, zero_size)
            (pass_over e p unknown_type letter (drop size (letter ∷ more)))
      | inr (t, found, sized) ↦ rw found (found-SameRound e p size letter more t found sized fits)
    ]

read_frame-SameRound :
    (e : Endian) (p : Parser) (size : ℕ) (rest : List ℕ)
    → SameRound e (read_frame e p size rest) (look_frame size rest)
unfolding read_frame look_frame fail
read_frame-SameRound e p size rest = elim (Bool-cases (size == 0)) [
  | inl padding ↦ rw padding (refl, unfold messages_of in refl)
  | inr positive ↦ rw positive (elim (Bool-cases (ltb (length rest) size)) [
    | inl partial ↦ rw partial (report_error-messages_of p truncated 0)
    | inr whole ↦ rw whole (read_type-SameRound e p size rest positive (ground arith))
  ])
]

parse_round-SameRound :
    (e : Endian) (p : Parser) (bytes : List ℕ) → SameRound e (parse_round e p bytes) (look e bytes)
unfolding parse_round look fail
parse_round-SameRound e p bytes = elim (Bool-cases (ltb (length bytes) 2)) [
  | inl partial ↦ rw partial (report_error-messages_of p truncated 0)
  | inr whole ↦
      rw whole
        (read_frame-SameRound e p (from_big_endian e 2 (of_memory e (take 2 bytes))) (drop 2 bytes))
]

messages_of-append :
    (xs ys : List Event) → messages_of (xs ++ ys) ≡ messages_of xs ++ messages_of ys
unfolding messages_of
messages_of-append [] ys = refl
messages_of-append (message m ∷ xs) ys = ap (◌∷◌ m) (messages_of-append xs ys)
messages_of-append (error err letter ∷ xs) ys = messages_of-append xs ys

abbrev SameFound : Endian → Run → List MessageView → Type 0
SameFound e r views = map some (messages_of r.events) ≡ map (eager e) views

each_message-SameFound :
    (e : Endian) (fuel : ℕ) (p : Parser) (bytes : List ℕ)
    → SameFound e (parse_loop e fuel p bytes) (each_message e fuel bytes)
unfolding parse_loop each_message
each_message-SameFound e zero p [] = unfold messages_of in refl
each_message-SameFound e zero p (b ∷ bytes) = unfold messages_of in refl
each_message-SameFound e (suc fuel) p [] = unfold messages_of look in refl
each_message-SameFound e (suc fuel) p (b ∷ bytes) =
    go (parse_round e p (b ∷ bytes)) (look e (b ∷ bytes)) (parse_round-SameRound e p (b ∷ bytes))
      (λ q rest. each_message-SameFound e fuel q rest)
  where
    go :
        (r : Round) (l : Look)
        → SameRound e r l
        → ((q : Parser) (rest : List ℕ)
            → SameFound e (parse_loop e fuel q rest) (each_message e fuel rest))
        → SameFound e
            (elim r [ stop s ↦ s | next q events rest ↦ prepend events (parse_loop e fuel q rest) ])
            (elim l [
              | EachMessage.stop ↦ []
              | fault ↦ []
              | skip rest ↦ each_message e fuel rest
              | view v rest ↦ v ∷ each_message e fuel rest
            ])
    go (stop r) EachMessage.stop same later = rw same
    go (stop r) fault same later = absurd same
    go (stop r) (skip rest) same later = absurd same
    go (stop r) (view v rest) same later = absurd same
    go (next q events rest) EachMessage.stop same later = absurd same
    go (next q events rest) fault same later = absurd same
    go (next q events rest) (skip rest') same later =
        unfold prepend in rw (messages_of-append, same.1, ← same.0) (later q rest)
    go (next q events rest) (view v rest') same later =
        unfold prepend in
        rw (messages_of-append, map-append, same.1, ← same.0) (ap (◌∷◌ (eager e v)) (later q rest))

-- On any bytes, decoding the views of `for_each_message` with the eager decoders gives exactly the
-- messages that `parse_impl` delivers on the same bytes, in order, and the number that is returned
-- is theirs.
pub for_each_message-parse_impl :
    (e : Endian) (p : Parser) (bytes : List ℕ)
    → (map (eager e) (for_each_message e bytes).0
        ≡ map some (messages_of (parse_impl e p bytes).events))
      × ((for_each_message e bytes).1 ≡ length (messages_of (parse_impl e p bytes).events))
unfolding for_each_message parse_impl
for_each_message-parse_impl e p bytes =
    let same = each_message-SameFound e (length bytes) p bytes in
    (
      sym same,
      omega (
        arith,
        ap length same,
        length-map some (messages_of (parse_loop e (length bytes) p bytes).events),
        length-map (eager e) (each_message e (length bytes) bytes),
      ),
    )
