-- ===== src/Parser/Total.antt =====
-- The loop of `parse_impl` in src/parser.cpp ends on every input, and no decoder reads past the
-- end of the data.
use itchcpp.Prelude.{
  ℕ, zero, suc, ◌≤◌, ◌<◌, ◌≡◌, refl, ap, List, [], ◌∷◌, Option, none, some, Bool, true, false,
  append-nil, length, drop, length-drop, ltb, ◌==◌, if◌then◌else◌, inl, inr, Bool-cases, arith,
}
use itchcpp.Wire.{Endian}
use itchcpp.Message.{wire_size, MessageType}
use itchcpp.Parser.Dispatch.{build_dispatch_table}
use itchcpp.Parser.Table.{entry, build_dispatch_table-Cases}
use itchcpp.Parser.Frames.{decode_typed-DecodesTo}
use itchcpp.Parser.Loop.{
  ParseError, truncated, Parser, Event, returned, Run, Round, stop, next, fail, resume, deliver,
  dispatch, read_type, read_frame, parse_round, prepend, parse_loop, parse_impl,
}

-- A round that ends the call returns from it, and one that goes on leaves at most `n` bytes.
abbrev pub EndsWithin : ℕ → Round → Type 0
EndsWithin n (stop r) = (o : Option ParseError) × (r.outcome ≡ returned o)
EndsWithin n (next p events rest) = length rest ≤ n

dispatch-EndsWithin :
    (e : Endian) (p : Parser) (size letter : ℕ) (frame : List ℕ)
    → size ≤ length frame
    → EndsWithin (length frame) (dispatch p size letter frame (build_dispatch_table e letter))
unfolding dispatch resume deliver
dispatch-EndsWithin e p size letter frame h = elim (build_dispatch_table-Cases e letter) [
  | inl absent ↦ rw absent dropped
  | inr (t, found) ↦ rw found (known t)
]
  where
    dropped : length (drop size frame) ≤ length frame
    dropped = omega (arith, length-drop size frame)

    known :
        (t : MessageType)
        → EndsWithin (length frame) (dispatch p size letter frame (some (entry e t)))
    known t = elim (Bool-cases (ltb size (wire_size t))) [
      | inl short ↦ rw (short, dispatch) dropped
      | inr long ↦
          let (m, d) = decode_typed-DecodesTo e t frame (ground arith) in
          rw (long, dispatch, rw (append-nil frame) at (d.decoded [])) dropped
    ]

read_type-EndsWithin :
    (e : Endian) (p : Parser) (size : ℕ) (rest : List ℕ)
    → (size == 0) ≡ false
    → size ≤ length rest
    → EndsWithin (length rest) (read_type e p size rest)
unfolding read_type
read_type-EndsWithin e p size [] positive h = absurd (ground arith)
read_type-EndsWithin e p size (letter ∷ more) positive h =
    dispatch-EndsWithin e p size letter (letter ∷ more) h

EndsWithin-if :
    (n : ℕ) (test : Bool) (x y : Round)
    → EndsWithin n x
    → (test ≡ false → EndsWithin n y)
    → EndsWithin n (if test then x else y)
EndsWithin-if n true x y hx hy = hx
EndsWithin-if n false x y hx hy = hy refl

read_frame-EndsWithin :
    (e : Endian) (p : Parser) (size : ℕ) (rest : List ℕ)
    → EndsWithin (length rest) (read_frame e p size rest)
unfolding read_frame fail
read_frame-EndsWithin e p size rest =
    EndsWithin-if (length rest) (size == 0) _ _ (omega arith) λ positive.
      EndsWithin-if (length rest) (ltb (length rest) size) _ _ (some truncated, refl)
        λ long. read_type-EndsWithin e p size rest positive (ground arith)

EndsWithin-le : {m n : ℕ} (r : Round) → m ≤ n → EndsWithin m r → EndsWithin n r
EndsWithin-le (stop r) h ends = ends
EndsWithin-le (next p events rest) h ends = omega arith

-- Each round takes a byte at least.
pub parse_round-EndsWithin :
    (e : Endian) (p : Parser) (b : ℕ) (bytes : List ℕ)
    → EndsWithin (length bytes) (parse_round e p (b ∷ bytes))
unfolding parse_round fail
parse_round-EndsWithin e p b bytes =
    EndsWithin-if (length bytes) (ltb (length (b ∷ bytes)) 2) _ _ (some truncated, refl)
      λ _.
        EndsWithin-le (read_frame e p _ (drop 1 bytes)) (omega (arith, length-drop 1 bytes))
          (read_frame-EndsWithin e p _ (drop 1 bytes))

-- With a round for each byte the loop returns.
abbrev pub Returns : Run → Type 0
Returns r = (o : Option ParseError) × (r.outcome ≡ returned o)

parse_loop-Returns :
    (e : Endian) (fuel : ℕ) (p : Parser) (bytes : List ℕ)
    → length bytes ≤ fuel
    → Returns (parse_loop e fuel p bytes)
unfolding parse_loop prepend
parse_loop-Returns e fuel p [] h = (none, refl)
parse_loop-Returns e zero p (b ∷ bytes) h = absurd (omega arith)
parse_loop-Returns e (suc fuel) p (b ∷ bytes) h =
    go (parse_round e p (b ∷ bytes)) (parse_round-EndsWithin e p b bytes)
      (λ q rest. parse_loop-Returns e fuel q rest)
  where
    go :
        (r : Round)
        → EndsWithin (length bytes) r
        → ((q : Parser) (rest : List ℕ) → length rest ≤ fuel → Returns (parse_loop e fuel q rest))
        → Returns
            (elim r [ stop s ↦ s | next q events rest ↦ prepend events (parse_loop e fuel q rest) ])
    go (stop s) ends later = ends
    go (next q events rest) ends later = later q rest (omega arith)

-- `parse_impl` returns on every input, with or without an error: the loop does not outlast the
-- data, and no decoder reads past their end.
pub parse_impl-Returns : (e : Endian) (p : Parser) (bytes : List ℕ) → Returns (parse_impl e p bytes)
unfolding parse_impl
parse_impl-Returns e p bytes = parse_loop-Returns e (length bytes) p bytes (omega arith)

-- More fuel than bytes changes nothing.
parse_loop-fuel :
    (e : Endian) (f g : ℕ) (p : Parser) (bytes : List ℕ)
    → length bytes ≤ f
    → length bytes ≤ g
    → parse_loop e f p bytes ≡ parse_loop e g p bytes
unfolding parse_loop
parse_loop-fuel e f g p [] hf hg = refl
parse_loop-fuel e zero g p (b ∷ bytes) hf hg = absurd (omega arith)
parse_loop-fuel e (suc f) zero p (b ∷ bytes) hf hg = absurd (omega arith)
parse_loop-fuel e (suc f) (suc g) p (b ∷ bytes) hf hg =
    go (parse_round e p (b ∷ bytes)) (parse_round-EndsWithin e p b bytes)
      (λ q rest. parse_loop-fuel e f g q rest)
  where
    go :
        (r : Round)
        → EndsWithin (length bytes) r
        → ((q : Parser) (rest : List ℕ)
            → length rest ≤ f
            → length rest ≤ g
            → parse_loop e f q rest ≡ parse_loop e g q rest)
        → ◌≡◌ {A = Run}
            (elim r [ stop s ↦ s | next q events rest ↦ prepend events (parse_loop e f q rest) ])
            (elim r [ stop s ↦ s | next q events rest ↦ prepend events (parse_loop e g q rest) ])
    go (stop s) ends later = refl
    go (next q events rest) ends later =
        ap (prepend events) (later q rest (omega arith) (omega arith))

-- The loop without its fuel.
pub parse_impl-next :
    (e : Endian) (p q : Parser) (bytes : List ℕ) (events : List Event) (rest : List ℕ)
    → 0 < length bytes
    → parse_round e p bytes ≡ next q events rest
    → parse_impl e p bytes ≡ prepend events (parse_impl e q rest)
unfolding parse_impl parse_loop
parse_impl-next e p q [] events rest h round = absurd (omega arith)
parse_impl-next e p q (b ∷ bytes) events rest h round =
    rw (round, parse_loop)
      (ap (prepend events)
        (parse_loop-fuel e (length bytes) (length rest) q rest shorter (omega arith)))
  where
    shorter : length rest ≤ length bytes
    shorter = rw round at (parse_round-EndsWithin e p b bytes)

pub parse_impl-stop :
    (e : Endian) (p : Parser) (bytes : List ℕ) (r : Run)
    → 0 < length bytes
    → parse_round e p bytes ≡ stop r
    → parse_impl e p bytes ≡ r
unfolding parse_impl parse_loop
parse_impl-stop e p [] r h round = absurd (omega arith)
parse_impl-stop e p (b ∷ bytes) r h round = rw (round, parse_loop)
