-- ===== src/Parser/Table.antt =====
-- The dispatch table of src/parser.cpp: every message type is found under its letter, and nothing
-- else is found.
use itchcpp.Prelude.{ℕ, ◌≡◌, refl, List, [], ◌∷◌, none, some, ◌⊎◌, inl, inr, ◌==◌, Bool-cases}
use mathlib.Core.List.{foldl}
use itchcpp.Wire.{Endian}
use itchcpp.Message.{
  MessageType, default_message_type, wire_size, message_types, system_event_message,
}
use itchcpp.Parser.Dispatch.{DispatchEntry, DispatchTable, add, decode_typed, build_dispatch_table}

abbrev pub entry : Endian → MessageType → DispatchEntry
entry e t = record { wire_size = wire_size t; decode = decode_typed e t }

pub build_dispatch_table-letter :
    (e : Endian) (t : MessageType)
    → build_dispatch_table e (default_message_type t) ≡ some (entry e t)
unfolding build_dispatch_table default_message_type
build_dispatch_table-letter e system_event_message = refl
build_dispatch_table-letter e _ = refl

abbrev Cases : Endian → DispatchTable → Type 0
Cases e table =
    (byte : ℕ) → (table byte ≡ none) ⊎ ((t : MessageType) × (table byte ≡ some (entry e t)))

add-Cases :
    (e : Endian) (table : DispatchTable) (letter : ℕ) (t : MessageType)
    → Cases e table
    → Cases e (add e table (letter, t))
unfolding add
add-Cases e table letter t h byte = elim (Bool-cases (byte == letter)) [
  | inl same ↦ inr (t, rw same)
  | inr other ↦ rw other (h byte)
]

foldl-Cases :
    (e : Endian) (types : List (ℕ × MessageType)) (table : DispatchTable)
    → Cases e table
    → Cases e (foldl (add e) table types)
foldl-Cases e [] table h = h
foldl-Cases e ((letter, t) ∷ types) table h =
    foldl-Cases e types (add e table (letter, t)) (add-Cases e table letter t h)

pub build_dispatch_table-Cases : (e : Endian) → Cases e (build_dispatch_table e)
build_dispatch_table-Cases e =
    unfold build_dispatch_table in foldl-Cases e message_types (λ byte. none) (λ byte. inl refl)
