-- ===== src/Parser/Delivered.antt =====
-- What the entry points of the class `Parser` in src/parser.cpp return.
use itchcpp.Prelude.{
  ℕ, ◌≡◌, refl, ap, List, [], ◌∷◌, ◌++◌, map, none, some, ◌⊎◌, inl, inr, append-nil, All,
  Bool-cases, true, ◌==◌, arith,
}
use itchcpp.Wire.{Endian, IsByte}
use itchcpp.Message.{Message, IsTyped, header_of}
use itchcpp.Encoder.{encode_frame}
use itchcpp.Parser.Loop.{truncated, Parser, Event, message, returned, prepend, parse_impl}
use itchcpp.Parser.Stream.{framing, handle_all, finish, parse_impl-Framing}
use itchcpp.Parser.Encoded.{encode_all, parse_impl-encode_all}
use itchcpp.Parser.Api.{
  ok, thrown, value, unexpected, messages_of, throws, expect, contains, keep, parse_messages,
  parse_filtered, try_parse,
}

messages_of-map : (ms : List Message) → messages_of (map message ms) ≡ ms
unfolding messages_of
messages_of-map [] = refl
messages_of-map (m ∷ ms) = ap (◌∷◌ m) (messages_of-map ms)

pub messages_of-append :
    (ms : List Message) (events : List Event)
    → messages_of (map message ms ++ events) ≡ ms ++ messages_of events
unfolding messages_of
messages_of-append [] events = refl
messages_of-append (m ∷ ms) events = ap (◌∷◌ m) (messages_of-append ms events)

parse_impl-encoded :
    (e : Endian) (p : Parser) (ms : List Message)
    → All IsTyped ms
    → parse_impl e p (encode_all e ms)
      ≡ record { outcome = returned none; parser = p; events = map message ms }
unfolding parse_impl prepend
parse_impl-encoded e p ms h =
    rw (append-nil (encode_all e ms)) at
      (rw (append-nil (map message ms), parse_impl, prepend) at (parse_impl-encode_all e p ms [] h))

-- One frame.
pub parse_impl-encode_frame :
    (e : Endian) (p : Parser) (m : Message)
    → IsTyped m
    → parse_impl e p (encode_frame e m)
      ≡ record { outcome = returned none; parser = p; events = message m ∷ [] }
unfolding encode_all
parse_impl-encode_frame e p m h =
    rw (append-nil (encode_frame e m)) at (parse_impl-encoded e p (m ∷ []) (h, tt))

-- From the encoding of messages whose fields fit their types a vector is filled with exactly these
-- messages, in order, and the diagnostics stay as they were.
pub parse_messages-encode_all :
    (e : Endian) (p : Parser) (ms : List Message)
    → All IsTyped ms
    → ((parse_messages e p (encode_all e ms)).1 ≡ ok ms)
      × ((parse_messages e p (encode_all e ms)).0.parser ≡ p)
unfolding parse_messages throws
parse_messages-encode_all e p ms h = (
  rw (parse_impl-encoded e p ms h) (ap ok (messages_of-map ms)),
  rw (parse_impl-encoded e p ms h),
)

-- A number is one of the list.
abbrev pub Among : ℕ → List ℕ → Type 0
Among c [] = ⊥
Among c (x ∷ xs) = (x ≡ c) ⊎ Among c xs

-- The second list is the first without the messages whose letter is not among the letters.
pub data Selected (letters : List ℕ) : List Message → List Message → Type 0 where
  no_messages : Selected letters [] []
  selected :
      (m : Message) (ms chosen : List Message)
      → Among (header_of m).message_type letters
      → Selected letters ms chosen
      → Selected letters (m ∷ ms) (m ∷ chosen)
  passed_over :
      (m : Message) (ms chosen : List Message)
      → (Among (header_of m).message_type letters → ⊥)
      → Selected letters ms chosen
      → Selected letters (m ∷ ms) chosen

contains-Among : (letters : List ℕ) (c : ℕ) → contains letters c ≡ true → Among c letters
unfolding contains
contains-Among [] c h = cc
contains-Among (x ∷ xs) c h = elim (Bool-cases (x == c)) [
  | inl same ↦ inl (ground arith)
  | inr other ↦ inr (contains-Among xs c (ground arith))
]

Among-contains : (letters : List ℕ) (c : ℕ) → Among c letters → contains letters c ≡ true
unfolding contains
Among-contains [] c h = absurd h
Among-contains (x ∷ xs) c (inl same) = ground arith
Among-contains (x ∷ xs) c (inr later) = ground (arith, Among-contains xs c later)

keep-Selected : (letters : List ℕ) (ms : List Message) → Selected letters ms (keep letters ms)
unfolding keep
keep-Selected letters [] = no_messages
keep-Selected letters (m ∷ ms) = elim (Bool-cases (contains letters (header_of m).message_type)) [
  | inl inside ↦
      rw inside (
        selected m ms (keep letters ms) (contains-Among letters _ inside)
          (keep-Selected letters ms))
  | inr outside ↦ rw outside (
      passed_over m ms (keep letters ms)
        (λ among.
          let inside : contains letters (header_of m).message_type ≡ true =
            Among-contains letters _ among in
          cc)
        (keep-Selected letters ms))
]

-- From the encoding of well-typed messages, with a filter that is not empty, exactly those messages are
-- returned, in order, whose letter is one of the filter.
pub parse_filtered-encode_all :
    (e : Endian) (p : Parser) (ms : List Message) (letter : ℕ) (letters : List ℕ)
    → All IsTyped ms
    → (chosen : List Message) × ((parse_filtered e p (encode_all e ms) (letter ∷ letters)).1
        ≡ ok chosen)
      × Selected (letter ∷ letters) ms chosen
unfolding parse_filtered throws
parse_filtered-encode_all e p ms letter letters h = (
  keep (letter ∷ letters) ms,
  rw (parse_impl-encoded e p ms h)
      (ap (λ (l : List Message). ok (keep (letter ∷ letters) l)) (messages_of-map ms)),
  keep-Selected (letter ∷ letters) ms,
)

finish-outcome :
    (p : Parser) (tail : List ℕ)
    → ((finish p tail).outcome ≡ returned none)
      ⊎ ((finish p tail).outcome ≡ returned (some truncated))
unfolding finish
finish-outcome p [] = inl refl
finish-outcome p (b ∷ bytes) = inr refl

parse_impl-outcome :
    (e : Endian) (p : Parser) (bytes : List ℕ)
    → All IsByte bytes
    → ((parse_impl e p bytes).outcome ≡ returned none)
      ⊎ ((parse_impl e p bytes).outcome ≡ returned (some truncated))
unfolding prepend
parse_impl-outcome e p bytes h =
    let f = framing bytes h in
    rw (parse_impl-Framing e p bytes f) (finish-outcome (handle_all e p f.payloads).0 f.tail)

-- On every stream of bytes `parse` and `try_parse` agree: the same vector of messages, or the
-- exception on the one side and the error `truncated`, and no other, on the other side.
pub try_parse-parse_messages :
    (e : Endian) (p : Parser) (bytes : List ℕ)
    → All IsByte bytes
    → ((ms : List Message) × ((parse_messages e p bytes).1 ≡ ok ms)
        × ((try_parse e p bytes).1 ≡ value ms))
      ⊎ (((parse_messages e p bytes).1 ≡ thrown) × ((try_parse e p bytes).1 ≡ unexpected truncated))
unfolding parse_messages try_parse throws expect
try_parse-parse_messages e p bytes h = elim (parse_impl-outcome e p bytes h) [
  | inl done ↦ inl (messages_of (parse_impl e p bytes).events, rw (done, throws), rw (done, expect))
  | inr cut ↦ inr (rw (cut, throws), rw (cut, expect))
]
