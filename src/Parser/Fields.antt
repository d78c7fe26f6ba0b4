-- ===== src/Parser/Fields.antt =====
-- Each field writer of src/encoder.cpp against the field reader of src/parser.cpp that undoes it.
use itchcpp.Prelude.{
  ℕ, ◌/◌, ◌%◌, ◌^◌, ◌<◌, ◌≡◌, ap, refl, List, [], ◌++◌, some, append-nil, append_assoc, ◌∷◌, length,
  length-append, take-length_append, drop-length_append, take, arith,
}
use itchcpp.Wire.{Endian}
use itchcpp.Wire.BigEndian.{
  big_endian, length-big_endian, big_endian-IsByte, of_big_endian-big_endian,
  from_big_endian-of_memory, to_memory-from_big_endian,
}
use itchcpp.Encoder.ByteWriter.{put}
use itchcpp.Parser.Unpack.{
  Reader, unpack_char, ◌>>=◌, pure, unpack_string, skip, unpack, unpack_timestamp,
}

-- `put` appends the big-endian bytes of its value, on either host.
pub put-append : (e : Endian) (w v : ℕ) (bytes : List ℕ) → put e w v bytes ≡ bytes ++ big_endian w v
unfolding put
put-append e w v bytes = ap (◌++◌ bytes) (to_memory-from_big_endian e w v)

pub unpack_string-append :
    (bs rest : List ℕ) (n : ℕ) → length bs ≡ n → unpack_string n (bs ++ rest) ≡ some (bs, rest)
unfolding unpack_string
unpack_string-append bs rest n e =
    rw (← e) (
      ground (arith, take-length_append bs rest, drop-length_append bs rest, length-append bs rest))

pub unpack-append :
    (e : Endian) (w v : ℕ) (rest : List ℕ)
    → unpack e w (big_endian w v ++ rest) ≡ some (v % 256 ^ w, rest)
unfolding unpack ◌>>=◌ pure
unpack-append e w v rest = rw (
  unpack_string-append (big_endian w v) rest w (length-big_endian w v),
  unpack,
  ◌>>=◌,
  from_big_endian-of_memory e w (big_endian w v) (big_endian-IsByte w v) (length-big_endian w v),
  of_big_endian-big_endian,
)

take-all : (n : ℕ) (s : List ℕ) → length s ≡ n → take n s ≡ s
take-all n s e = rw (← e) (rw append-nil at (take-length_append s []))

-- An array of `n` characters is written whole.
pub unpack_string-take :
    (n : ℕ) (s rest : List ℕ) → length s ≡ n → unpack_string n (take n s ++ rest) ≡ some (s, rest)
unpack_string-take n s rest e = rw (take-all n s e) (unpack_string-append s rest n e)

-- The 48 bits of a timestamp.
pub unpack_timestamp-append :
    (e : Endian) (t : ℕ) (rest : List ℕ)
    → t < 2 ^ 48
    → unpack_timestamp e (big_endian 2 (t / 2 ^ 32 % 2 ^ 16) ++ (big_endian 4 (t % 2 ^ 32) ++ rest))
      ≡ some (t, rest)
unfolding unpack_timestamp ◌>>=◌ pure
unpack_timestamp-append e t rest h = simp (unpack-append, unpack_timestamp, ◌>>=◌) (ground arith)

-- The same, followed by the rest of a decoder.
module _ {ℓ} {B : Type ℓ} (f : ℕ → Reader B) (rest : List ℕ) where
  pub unpack_bind :
      (e : Endian) (w v : ℕ) → (unpack e w >>= f) (big_endian w v ++ rest) ≡ f (v % 256 ^ w) rest
  unfolding ◌>>=◌
  unpack_bind e w v = rw (unpack-append e w v rest, ◌>>=◌)

  pub unpack_char_bind : (c : ℕ) → (unpack_char >>= f) (c ∷ rest) ≡ f c rest
  unfolding ◌>>=◌ unpack_char
  unpack_char_bind c = refl

  pub unpack_timestamp_bind :
      (e : Endian) (t : ℕ)
      → t < 2 ^ 48
      → (unpack_timestamp e >>= f)
          (big_endian 2 (t / 2 ^ 32 % 2 ^ 16) ++ (big_endian 4 (t % 2 ^ 32) ++ rest))
        ≡ f t rest
  unfolding ◌>>=◌
  unpack_timestamp_bind e t h = rw (unpack_timestamp-append e t rest h, ◌>>=◌)

pub unpack_string_bind {ℓ} :
    {B : Type ℓ} (f : List ℕ → Reader B) (n : ℕ) (s rest : List ℕ)
    → length s ≡ n
    → (unpack_string n >>= f) (take n s ++ rest) ≡ f s rest
unfolding ◌>>=◌
unpack_string_bind f n s rest h = rw (unpack_string-take n s rest h, ◌>>=◌)

pub skip_bind {ℓ} :
    {B : Type ℓ} (f : Unit {0} → Reader B) (c : ℕ) (rest : List ℕ)
    → (skip 1 >>= f) (c ∷ rest) ≡ f tt rest
unfolding ◌>>=◌ skip pure
skip_bind f c rest = rw (unpack_string-append (c ∷ []) rest 1 refl, skip, ◌>>=◌)

pub ruleset fields = (put-append, append_assoc, unpack_bind, unpack_char_bind, unpack_string_bind)
