-- ===== src/Parser/Frames.antt =====
-- One frame of the stream at a time: what a round of `parse_impl` in src/parser.cpp does with a
-- frame is fixed by the bytes of that frame alone.
use itchcpp.Prelude.{
  ℕ, suc, ◌^◌, ◌≤◌, ◌<◌, ◌≡◌, refl, ap, ◌∙◌, subst, List, [], ◌∷◌, ◌++◌, Option, none, some, false,
  append_assoc, append-nil, length, take, drop, length-append, length-take, take-append-drop,
  take-length_append, drop-length_append, ltb, ◌==◌, if◌then◌else◌, le→ltb_false, inl, inr,
  Bool-cases, arith,
}
use itchcpp.Wire.{Endian, of_memory, from_big_endian}
use itchcpp.Wire.BigEndian.{
  big_endian, length-big_endian, big_endian-IsByte, from_big_endian-of_memory,
  of_big_endian-big_endian,
}
use itchcpp.Message.{Message, MessageType, default_message_type, wire_size}
use itchcpp.Parser.Dispatch.{DispatchEntry, build_dispatch_table, decode_typed}
use itchcpp.Parser.Table.{entry, build_dispatch_table-Cases, build_dispatch_table-letter}
use itchcpp.Parser.Takes.{Reads}
use itchcpp.Parser.FrameSize.{Takes-decode_typed}
use itchcpp.Parser.Loop.{
  Parser, Event, message, unknown_type, size_mismatch, next, report_error, resume, dispatch,
  read_type, read_frame, parse_round,
}

-- The payload behind its two-byte length.
abbrev pub frame : List ℕ → List ℕ
frame payload = big_endian 2 (length payload) ++ payload

-- What decoding a payload gives, whatever bytes follow it.
pub record DecodesTo (e : Endian) (t : MessageType) (payload : List ℕ) (m : Message) : Type 0 where
  pub decoded :
      (rest : List ℕ)
      → decode_typed e t (payload ++ rest) ≡ some (m, drop (wire_size t) payload ++ rest)

-- A frame that is as long as its type wants, or longer, is decoded to one message, and no byte
-- behind it is read: the message is the same for every continuation of the data.
pub decode_typed-DecodesTo :
    (e : Endian) (t : MessageType) (payload : List ℕ)
    → wire_size t ≤ length payload
    → (m : Message) × DecodesTo e t payload m
decode_typed-DecodesTo e t payload h = (
  head.value,
  record {
    decoded = λ rest.
        subst
          (λ (bytes : List ℕ).
            decode_typed e t (bytes ++ rest)
            ≡ some (head.value, drop (wire_size t) payload ++ rest))
          (take-append-drop (wire_size t) payload)
          (rw append_assoc (head.returns (drop (wire_size t) payload ++ rest)));
  },
)
  where
    head : Reads (decode_typed e t) (take (wire_size t) payload)
    head =
        Takes-decode_typed e t (take (wire_size t) payload)
          (omega (arith, length-take (wire_size t) payload))

unfoldable pub received : Parser → Option (Message × List ℕ) → Parser × List Event
received p none = (p, [])
received p (some (m, _)) = (p, message m ∷ [])

unfoldable pub judge : Parser → ℕ → List ℕ → Option DispatchEntry → Parser × List Event
judge p letter payload none = report_error p unknown_type letter
judge p letter payload (some found) =
    if ltb (length payload) found.wire_size
    then report_error p size_mismatch letter
    else received p (found.decode payload)

-- What becomes of one payload; an empty one is padding.
unfoldable pub handle : Endian → Parser → List ℕ → Parser × List Event
handle e p [] = (p, [])
handle e p (letter ∷ body) = judge p letter (letter ∷ body) (build_dispatch_table e letter)

dispatch-judge_found :
    (e : Endian) (p : Parser) (letter : ℕ) (payload rest : List ℕ) (t : MessageType)
    → dispatch p (length payload) letter (payload ++ rest) (some (entry e t))
      ≡ resume (judge p letter payload (some (entry e t))) rest
unfolding dispatch judge received resume
dispatch-judge_found e p letter payload rest t =
    elim (Bool-cases (ltb (length payload) (wire_size t))) [
      | inl short ↦ rw (short, drop-length_append payload rest)
      | inr long ↦
          let (m, d) = decode_typed-DecodesTo e t payload (ground arith) in
          rw (long, d.decoded rest, same m d)
            (ap (next p (message m ∷ [])) (drop-length_append payload rest))
    ]
  where
    same :
        (m : Message)
        → DecodesTo e t payload m
        → received p (decode_typed e t payload) ≡ (p, message m ∷ [])
    same m d = rw (rw (append-nil payload) at (d.decoded []), received)

dispatch-judge :
    (e : Endian) (p : Parser) (letter : ℕ) (payload rest : List ℕ)
    → dispatch p (length payload) letter (payload ++ rest) (build_dispatch_table e letter)
      ≡ resume (judge p letter payload (build_dispatch_table e letter)) rest
dispatch-judge e p letter payload rest = elim (build_dispatch_table-Cases e letter) [
  | inl absent ↦ rw absent (
      unfold dispatch judge in
      ap (resume (report_error p unknown_type letter)) (drop-length_append payload rest))
  | inr (t, found) ↦ rw found (dispatch-judge_found e p letter payload rest t)
]

pub suc-ne-zero : (n : ℕ) → (suc n == 0) ≡ false
suc-ne-zero n = ground arith

read_frame-handle :
    (e : Endian) (p : Parser) (payload rest : List ℕ)
    → read_frame e p (length payload) (payload ++ rest) ≡ resume (handle e p payload) rest
unfolding read_frame handle read_type
read_frame-handle e p [] rest = unfold resume in refl
read_frame-handle e p (letter ∷ body) rest =
    rw
      (
        suc-ne-zero (length body),
        le→ltb_false (length (letter ∷ (body ++ rest))) (length (letter ∷ body))
            (omega (arith, length-append body rest)),
      )
      (dispatch-judge e p letter (letter ∷ body) rest)

pub prefix_value :
    (e : Endian) (n : ℕ) → n < 2 ^ 16 → from_big_endian e 2 (of_memory e (big_endian 2 n)) ≡ n
prefix_value e n h =
    from_big_endian-of_memory e 2 (big_endian 2 n) (big_endian-IsByte 2 n) (length-big_endian 2 n)
    ∙ of_big_endian-big_endian 2 n
    ∙ omega arith

pub take-prefix : (n : ℕ) (bytes : List ℕ) → take 2 (big_endian 2 n ++ bytes) ≡ big_endian 2 n
take-prefix n bytes = rw (length-big_endian 2 n) at (take-length_append (big_endian 2 n) bytes)

pub drop-prefix : (n : ℕ) (bytes : List ℕ) → drop 2 (big_endian 2 n ++ bytes) ≡ bytes
drop-prefix n bytes = rw (length-big_endian 2 n) at (drop-length_append (big_endian 2 n) bytes)

-- A round of the loop on a whole frame: its length prefix is read on either host, and its payload
-- decides what is reported, delivered and counted.
pub parse_round-frame :
    (e : Endian) (p : Parser) (payload rest : List ℕ)
    → length payload < 2 ^ 16
    → parse_round e p (frame payload ++ rest) ≡ resume (handle e p payload) rest
unfolding parse_round
parse_round-frame e p payload rest h =
    rw
      (
        append_assoc (big_endian 2 (length payload)) payload rest,
        le→ltb_false (length (big_endian 2 (length payload) ++ (payload ++ rest))) 2 (
            omega (
              arith,
              length-append (big_endian 2 (length payload)) (payload ++ rest),
              length-big_endian 2 (length payload),
            )),
        take-prefix (length payload) (payload ++ rest),
        drop-prefix (length payload) (payload ++ rest),
        prefix_value e (length payload) h,
      )
      (read_frame-handle e p payload rest)

-- The effect of a payload that its type can decode.
pub handle_letter :
    (e : Endian) (p : Parser) (t : MessageType) (m : Message) (body rest : List ℕ)
    → wire_size t ≤ length (default_message_type t ∷ body)
    → decode_typed e t (default_message_type t ∷ body) ≡ some (m, rest)
    → handle e p (default_message_type t ∷ body) ≡ (p, message m ∷ [])
unfolding handle judge received
handle_letter e p t m body rest long decoded = rw (
  build_dispatch_table-letter,
  le→ltb_false (length (default_message_type t ∷ body)) (wire_size t) long,
  decoded,
)
