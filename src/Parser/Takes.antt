-- ===== src/Parser/Takes.antt =====
-- Readers that take a fixed number of bytes: given that many, they succeed whatever follows, and
-- what they return does not depend on what follows. For src/parser.cpp this is memory safety: a
-- decoder that is handed a frame of its wire size reads nothing behind it.
use itchcpp.Prelude.{
  ℕ, ◌+◌, ◌≡◌, refl, List, [], ◌∷◌, ◌++◌, some, append_assoc, length, take, drop, subst,
  length-take, length-drop, take-append-drop, arith,
}
use itchcpp.Wire.{Endian}
use itchcpp.Parser.Unpack.{
  Reader, ◌>>=◌, pure, skip, unpack_string, unpack, unpack_char, unpack_timestamp,
}
use itchcpp.Parser.Fields.{unpack_string-append}

-- On exactly these bytes the reader succeeds, and leaves what follows them.
pub record Reads {ℓ} {A : Type ℓ} (r : Reader A) (bytes : List ℕ) : Type ℓ where
  pub value : A
  pub returns : (rest : List ℕ) → r (bytes ++ rest) ≡ some (value, rest)

abbrev pub Takes {ℓ} : {A : Type ℓ} → ℕ → Reader A → Type ℓ
Takes n r = (bytes : List ℕ) → length bytes ≡ n → Reads r bytes

pub Takes-pure {ℓ} : {A : Type ℓ} (a : A) → Takes 0 (pure a)
unfolding pure
Takes-pure a [] e = record { value = a; returns = λ rest. refl }
Takes-pure a (b ∷ bytes) e = absurd (omega arith)

Reads-bind {ℓ κ} :
    {A : Type ℓ} {B : Type κ} (r : Reader A) (f : A → Reader B) (front back : List ℕ)
    → (head : Reads r front) → Reads (f head.value) back
    → Reads (r >>= f) (front ++ back)
unfolding ◌>>=◌
Reads-bind r f front back head tail = record {
  value = tail.value;
  returns = λ rest.
      rw (append_assoc front back rest, head.returns (back ++ rest), ◌>>=◌) (tail.returns rest);
}

-- The second reader starts where the first one stops.
pub Takes-bind {ℓ κ} :
    {A : Type ℓ} {B : Type κ} {m n : ℕ} {r : Reader A} {f : A → Reader B}
    → Takes m r
    → ((a : A) → Takes n (f a))
    → Takes (m + n) (r >>= f)
Takes-bind {m = m} {n = n} {r = r} {f = f} first second bytes e =
    subst (Reads (r >>= f)) (take-append-drop m bytes)
      (Reads-bind r f (take m bytes) (drop m bytes) head (second head.value (drop m bytes) back))
  where
    head : Reads r (take m bytes)
    head = first (take m bytes) (omega (arith, length-take m bytes))

    back : length (drop m bytes) ≡ n
    back = omega (arith, length-drop m bytes)

pub Takes-unpack_string : (n : ℕ) → Takes n (unpack_string n)
Takes-unpack_string n bytes e = record {
  value = bytes;
  returns = λ rest. unpack_string-append bytes rest n e;
}

pub Takes-unpack_char : Takes 1 unpack_char
unfolding unpack_char
Takes-unpack_char [] e = absurd (omega arith)
Takes-unpack_char (c ∷ []) e = record { value = c; returns = λ rest. refl }
Takes-unpack_char (c ∷ d ∷ bytes) e = absurd (omega arith)

pub Takes-unpack : (e : Endian) (w : ℕ) → Takes (w + 0) (unpack e w)
unfolding unpack
Takes-unpack e w = Takes-bind (Takes-unpack_string w) (λ bytes. Takes-pure _)

pub Takes-skip : (n : ℕ) → Takes (n + 0) (skip n)
unfolding skip
Takes-skip n = Takes-bind (Takes-unpack_string n) (λ bytes. Takes-pure _)

pub Takes-unpack_timestamp : (e : Endian) → Takes 6 (unpack_timestamp e)
unfolding unpack_timestamp
Takes-unpack_timestamp e =
    Takes-bind (Takes-unpack e 2) (λ high. Takes-bind (Takes-unpack e 4) (λ low. Takes-pure _))
