-- ===== src/Parser/Stream.antt =====
-- `parse_impl` of src/parser.cpp on a whole stream: a sequence of frames, then what is left when
-- the data end inside a frame.
use itchcpp.Prelude.{
  ℕ, zero, suc, ◌+◌, ◌^◌, ◌≤◌, ◌<◌, ◌≡◌, refl, sym, ap, ◌∙◌, List, [], ◌∷◌, ◌++◌, none, some, false,
  ◌==◌, append_assoc, length, length-append, All, le→ltb_false, lt→ltb, arith, subst, take, drop,
  length-take, length-drop, All-drop, take-append-drop, inl, inr, ◌⊎◌,
}
use itchcpp.Wire.{Endian, IsByte}
use itchcpp.Wire.BigEndian.{
  big_endian, length-big_endian, of_big_endian, of_big_endian_bound, big_endian-of_big_endian,
}
use native.Mathlib.Decide.{dec_lt}
use itchcpp.Parser.Frames.{frame, handle, parse_round-frame, drop-prefix, take-prefix, prefix_value}
use itchcpp.Parser.Total.{parse_impl-next, parse_impl-stop}
use itchcpp.Parser.Loop.{
  Parser, Event, Run, returned, truncated, resume, fail, report_error, read_frame, parse_round,
  prepend, parse_impl,
}

-- The payloads one after the other, each behind its length.
unfoldable pub frames : List (List ℕ) → List ℕ
frames [] = []
frames (payload ∷ payloads) = frame payload ++ frames payloads

abbrev pub Fits : List ℕ → Type 0
Fits payload = length payload < 2 ^ 16

-- What becomes of the payloads, in order, by what becomes of each.
unfoldable pub handle_all : Endian → Parser → List (List ℕ) → Parser × List Event
handle_all e p [] = (p, [])
handle_all e p (payload ∷ payloads) =
    let (q, events) = handle e p payload in
    let (q', more) = handle_all e q payloads in (q', events ++ more)

prepend-prepend : (xs ys : List Event) (r : Run) → prepend xs (prepend ys r) ≡ prepend (xs ++ ys) r
unfolding prepend
prepend-prepend xs ys r =
    ap (λ (l : List Event). record r { events = l }) (sym (append_assoc xs ys r.events))

frame-positive : (payload rest : List ℕ) → 0 < length (frame payload ++ rest)
frame-positive payload rest = omega (
  arith,
  length-append (frame payload) rest,
  length-append (big_endian 2 (length payload)) payload,
  length-big_endian 2 (length payload),
)

-- Whole frames are handled one after the other, each by its own payload alone, and parsing goes on
-- behind them with the diagnostics that they left.
pub parse_impl-frames :
    (e : Endian) (p : Parser) (payloads : List (List ℕ)) (tail : List ℕ)
    → All Fits payloads
    → parse_impl e p (frames payloads ++ tail)
      ≡ prepend (handle_all e p payloads).1 (parse_impl e (handle_all e p payloads).0 tail)
unfolding frames handle_all
parse_impl-frames e p [] tail h = unfold prepend in refl
parse_impl-frames e p (payload ∷ payloads) tail (fits, h) =
    rw (append_assoc (frame payload) (frames payloads) tail) (
      parse_impl-next e p (handle e p payload).0 (frame payload ++ (frames payloads ++ tail))
        (handle e p payload).1 (frames payloads ++ tail)
        (frame-positive payload (frames payloads ++ tail))
        (rw (parse_round-frame e p payload (frames payloads ++ tail) fits) (unfold resume in refl))
      ∙ ap (prepend (handle e p payload).1)
          (parse_impl-frames e (handle e p payload).0 payloads tail h)
      ∙ prepend-prepend _ _ _)

-- What is left of a stream that was cut inside a frame.
pub data IsCut : List ℕ → Type 0 where
  in_length : (b : ℕ) → IsCut (b ∷ [])
  in_payload :
      (n : ℕ) (bytes : List ℕ) → length bytes < n → n < 2 ^ 16 → IsCut (big_endian 2 n ++ bytes)

-- A frame that is cut is reported as truncated, counted as malformed, and ends the call.
pub parse_impl-cut :
    (e : Endian) (p : Parser) (tail : List ℕ)
    → IsCut tail
    → parse_impl e p tail ≡ record {
      outcome = returned (some truncated);
      parser = (report_error p truncated 0).0;
      events = (report_error p truncated 0).1;
    }
unfolding parse_round read_frame fail
parse_impl-cut e p _ (in_length b) = parse_impl-stop e p (b ∷ []) _ (omega arith) refl
parse_impl-cut e p _ (in_payload n bytes h fits) =
    parse_impl-stop e p (big_endian 2 n ++ bytes) _ (omega (arith, long)) (
      rw (
        le→ltb_false (length (big_endian 2 n ++ bytes)) 2 (omega (arith, long)),
        take-prefix n bytes,
        drop-prefix n bytes,
        prefix_value e n fits,
        positive,
        lt→ltb (length bytes) n h,
      ))
  where
    positive : (n == 0) ≡ false
    positive = ground arith

    long : length (big_endian 2 n ++ bytes) ≡ 2 + length bytes
    long = omega (arith, length-append (big_endian 2 n) bytes, length-big_endian 2 n)

-- Every stream of bytes is a sequence of whole frames, with a cut frame behind them or nothing.
pub record Framing (bytes : List ℕ) : Type 0 where
  pub payloads : List (List ℕ)
  pub tail : List ℕ
  pub split : bytes ≡ frames payloads ++ tail
  pub fit : All Fits payloads
  pub ends : (tail ≡ []) ⊎ IsCut tail

Framing-cons :
    (bytes payload rest : List ℕ)
    → bytes ≡ frame payload ++ rest
    → Fits payload
    → Framing rest
    → Framing bytes
unfolding frames
Framing-cons bytes payload rest e fits f = record {
  payloads = payload ∷ f.payloads;
  tail = f.tail;
  split =
      e
      ∙ ap (◌++◌ (frame payload)) f.split
      ∙ sym (append_assoc (frame payload) (frames f.payloads) f.tail);
  fit = (fits, f.fit);
  ends = f.ends;
}

prefix_bytes :
    (b0 b1 : ℕ) → IsByte b0 → IsByte b1 → big_endian 2 (of_big_endian (b0 ∷ b1 ∷ [])) ≡ b0 ∷ b1 ∷ []
prefix_bytes b0 b1 h0 h1 = big_endian-of_big_endian 2 (b0 ∷ b1 ∷ []) (h0, (h1, tt)) refl

framing_fuel : (fuel : ℕ) (bytes : List ℕ) → length bytes ≤ fuel → All IsByte bytes → Framing bytes
unfolding frames
framing_fuel fuel [] h b = record {
  payloads = [];
  tail = [];
  split = refl;
  fit = tt;
  ends = inl refl;
}
framing_fuel fuel (b0 ∷ []) h b = record {
  payloads = [];
  tail = b0 ∷ [];
  split = refl;
  fit = tt;
  ends = inr (in_length b0);
}
framing_fuel zero (b0 ∷ b1 ∷ rest) h b = absurd (omega arith)
framing_fuel (suc fuel) (b0 ∷ b1 ∷ rest) h (h0, (h1, b)) = elim (dec_lt (length rest) n) [
  | yes short ↦ record {
    payloads = [];
    tail = b0 ∷ b1 ∷ rest;
    split = refl;
    fit = tt;
    ends = inr (subst (λ (l : List ℕ). IsCut (l ++ rest)) start (in_payload n rest short small));
  }
  | no long ↦
      Framing-cons (b0 ∷ b1 ∷ rest) (take n rest) (drop n rest)
        (whole (omega (arith, length-take n rest))) (omega (arith, length-take n rest, small))
        (framing_fuel fuel (drop n rest) (omega (arith, length-drop n rest))
          (All-drop IsByte n rest b))
]
  where
    n : ℕ
    n = of_big_endian (b0 ∷ b1 ∷ [])

    start : big_endian 2 n ≡ b0 ∷ b1 ∷ []
    start = prefix_bytes b0 b1 h0 h1

    small : n < 2 ^ 16
    small = of_big_endian_bound (b0 ∷ b1 ∷ []) (h0, (h1, tt))

    whole : length (take n rest) ≡ n → b0 ∷ b1 ∷ rest ≡ frame (take n rest) ++ drop n rest
    whole e = rw (e, start) (ap (λ (l : List ℕ). b0 ∷ b1 ∷ l) (sym (take-append-drop n rest)))

pub framing : (bytes : List ℕ) → All IsByte bytes → Framing bytes
framing bytes = framing_fuel (length bytes) bytes (omega arith)

-- How the call ends when `tail` is what no whole frame covers.
unfoldable pub finish : Parser → List ℕ → Run
finish p [] = record { outcome = returned none; parser = p; events = [] }
finish p (b ∷ bytes) = record {
  outcome = returned (some truncated);
  parser = (report_error p truncated 0).0;
  events = (report_error p truncated 0).1;
}

IsCut-positive : (tail : List ℕ) → IsCut tail → 0 < length tail
IsCut-positive _ (in_length b) = omega arith
IsCut-positive _ (in_payload n bytes h fits) =
    omega (arith, length-append (big_endian 2 n) bytes, length-big_endian 2 n)

IsCut-finish :
    (e : Endian) (p : Parser) (tail : List ℕ) → IsCut tail → parse_impl e p tail ≡ finish p tail
unfolding finish
IsCut-finish e p [] cut = absurd (omega (arith, IsCut-positive [] cut))
IsCut-finish e p (b ∷ bytes) cut = parse_impl-cut e p (b ∷ bytes) cut

-- `parse_impl` on any stream of bytes is: split off the whole frames, let each payload have its
-- effect in turn, and report a cut frame at the end if there is one.
pub parse_impl-Framing :
    (e : Endian) (p : Parser) (bytes : List ℕ) (f : Framing bytes)
    → parse_impl e p bytes
      ≡ prepend (handle_all e p f.payloads).1 (finish (handle_all e p f.payloads).0 f.tail)
parse_impl-Framing e p bytes f =
    ap (parse_impl e p) f.split
    ∙ parse_impl-frames e p f.payloads f.tail f.fit
    ∙ ap (prepend (handle_all e p f.payloads).1) (elim f.ends [
      | inl e0 ↦ rw e0 (unfold finish parse_impl in refl)
      | inr cut ↦ IsCut-finish e (handle_all e p f.payloads).0 f.tail cut
    ])
