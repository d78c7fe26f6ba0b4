-- ===== src/Wire/At.antt =====
-- Fields at an offset into a buffer, as `memcpy` and the byte-order helpers of
-- include/itch/parser.hpp read them.
use itchcpp.Prelude.{
  ℕ, ◌%◌, ◌^◌, ◌≡◌, ◌∙◌, subst, List, ◌++◌, length, take, drop, take-length_append,
  drop-length_append,
}
use itchcpp.Wire.{Endian, of_memory, from_big_endian}
use itchcpp.Wire.BigEndian.{
  big_endian, length-big_endian, big_endian-IsByte, from_big_endian-of_memory,
  of_big_endian-big_endian,
}

module _ {ℓ} {A : Type ℓ} where
  pub take-field : (n : ℕ) (xs ys : List A) → length xs ≡ n → take n (xs ++ ys) ≡ xs
  take-field n xs ys h = subst (λ (n : ℕ). take n (xs ++ ys) ≡ xs) h (take-length_append xs ys)

  pub drop-field : (n : ℕ) (xs ys : List A) → length xs ≡ n → drop n (xs ++ ys) ≡ ys
  drop-field n xs ys h = subst (λ (n : ℕ). drop n (xs ++ ys) ≡ ys) h (drop-length_append xs ys)

-- A field that was written at an offset is read there.
pub value_at :
    (e : Endian) (offset w v : ℕ) (before after : List ℕ)
    → length before ≡ offset
    → from_big_endian e w (of_memory e (take w (drop offset (before ++ (big_endian w v ++ after)))))
      ≡ v % 256 ^ w
value_at e offset w v before after h =
    rw
      (
        drop-field offset before (big_endian w v ++ after) h,
        take-field w (big_endian w v) after (length-big_endian w v),
      )
      (from_big_endian-of_memory e w (big_endian w v) (big_endian-IsByte w v)
          (length-big_endian w v)
        ∙ of_big_endian-big_endian w v)
