-- ===== src/Wire/BigEndian.antt =====
-- What the byte-order helpers compute: on either host the bytes of the wire are read and written
-- most significant first.
use itchcpp.Prelude.{
  ℕ, zero, suc, ◌+◌, ◌*◌, ◌/◌, ◌%◌, ◌^◌, ◌<◌, ◌≡◌, refl, sym, ap, ◌∙◌, List, [], ◌∷◌, reverse,
  reverse-reverse, length, length-reverse, All, All-reverse, arith,
}
use native.Mathlib.Nat.{pow-suc, add-mul-mod_self_right, mod-eq_of_lt, mod-lt, div-add-mod}
use itchcpp.Wire.{
  IsByte, Endian, little, big, low_first, of_low_first, to_memory, of_memory, swap_bytes,
  from_big_endian,
}

pub length-low_first : (w v : ℕ) → length (low_first w v) ≡ w
unfolding low_first
length-low_first zero v = refl
length-low_first (suc w) v = ap suc (length-low_first w (v / 256))

pub low_first-IsByte : (w v : ℕ) → All IsByte (low_first w v)
unfolding low_first
low_first-IsByte zero v = tt
low_first-IsByte (suc w) v = (omega arith, low_first-IsByte w (v / 256))

mod-digit : (v m : ℕ) → 0 < m → v % (m * 256) ≡ v % 256 + 256 * (v / 256 % m)
mod-digit v m h =
    ap (λ (t : ℕ). t % (m * 256)) split
    ∙ add-mul-mod_self_right digits (v / 256 / m) (m * 256)
    ∙ mod-eq_of_lt (omega (arith, mod-lt (v / 256) h))
  where
    digits : ℕ
    digits = v % 256 + 256 * (v / 256 % m)

    split : v ≡ digits + v / 256 / m * (m * 256)
    split = omega (arith, ap (λ (t : ℕ). 256 * t) (div-add-mod (v / 256) m))

pow-pos : (w : ℕ) → 0 < 256 ^ w
pow-pos zero = omega arith
pow-pos (suc w) = rw (pow-suc 256 w) (omega (arith, pow-pos w))

pub of_low_first-low_first : (w v : ℕ) → of_low_first (low_first w v) ≡ v % 256 ^ w
unfolding low_first of_low_first
of_low_first-low_first zero v = omega arith
of_low_first-low_first (suc w) v =
    rw (of_low_first-low_first w (v / 256), pow-suc 256 w) (sym (mod-digit v (256 ^ w) (pow-pos w)))

pub low_first-of_low_first :
    (bs : List ℕ) → All IsByte bs → low_first (length bs) (of_low_first bs) ≡ bs
unfolding low_first of_low_first
low_first-of_low_first [] h = refl
low_first-of_low_first (b ∷ bs) h = ground (arith, low_first-of_low_first bs h.1)

-- The `w` bytes of `v` as the protocol has them, and the number that such bytes stand for.
pub big_endian : ℕ → ℕ → List ℕ
big_endian w v = reverse (low_first w v)

pub of_big_endian : List ℕ → ℕ
of_big_endian bs = of_low_first (reverse bs)

pub length-big_endian : (w v : ℕ) → length (big_endian w v) ≡ w
unfolding big_endian
length-big_endian w v = length-reverse (low_first w v) ∙ length-low_first w v

pub big_endian-IsByte : (w v : ℕ) → All IsByte (big_endian w v)
unfolding big_endian
big_endian-IsByte w v = All-reverse IsByte (low_first w v) (low_first-IsByte w v)

pub of_big_endian-big_endian : (w v : ℕ) → of_big_endian (big_endian w v) ≡ v % 256 ^ w
unfolding big_endian of_big_endian
of_big_endian-big_endian w v = rw reverse-reverse (of_low_first-low_first w v)

-- Reversing the bytes of an integer reads them from the other end.
low_first-reverse :
    (bs : List ℕ) → All IsByte bs → reverse (low_first (length bs) (of_low_first bs)) ≡ reverse bs
low_first-reverse bs h = ap reverse (low_first-of_low_first bs h)

swap-little :
    (w : ℕ) (bs : List ℕ)
    → All IsByte bs
    → length bs ≡ suc (suc w)
    → swap_bytes little (suc (suc w)) (of_low_first bs) ≡ of_low_first (reverse bs)
unfolding swap_bytes to_memory of_memory
swap-little w bs h e = ap of_low_first (rw (← e) (low_first-reverse bs h))

swap-little_one : (bs : List ℕ) → length bs ≡ 1 → of_low_first bs ≡ of_low_first (reverse bs)
swap-little_one [] e = refl
swap-little_one (b ∷ []) e = refl
swap-little_one (b ∷ c ∷ bs) e = absurd (omega arith)

swap-little_zero : (bs : List ℕ) → length bs ≡ 0 → of_low_first bs ≡ of_low_first (reverse bs)
swap-little_zero [] e = refl
swap-little_zero (b ∷ bs) e = absurd (omega arith)

-- Reading an integer of `w` bytes: whatever the host, `memcpy` and `from_big_endian` give the number
-- that the bytes stand for on the wire.
pub from_big_endian-of_memory :
    (e : Endian) (w : ℕ) (bs : List ℕ)
    → All IsByte bs
    → length bs ≡ w
    → from_big_endian e w (of_memory e bs) ≡ of_big_endian bs
unfolding from_big_endian of_memory of_big_endian
from_big_endian-of_memory big w bs h e = refl
from_big_endian-of_memory little zero bs h e = unfold swap_bytes in swap-little_zero bs e
from_big_endian-of_memory little (suc zero) bs h e = unfold swap_bytes in swap-little_one bs e
from_big_endian-of_memory little (suc (suc w)) bs h e = swap-little w bs h e

low_first-of_low_first_at :
    (w : ℕ) (bs : List ℕ) → All IsByte bs → length bs ≡ w → low_first w (of_low_first bs) ≡ bs
low_first-of_low_first_at w bs h e = rw (← e) (low_first-of_low_first bs h)

low_first-swap :
    (w v : ℕ)
    → low_first (suc (suc w)) (swap_bytes little (suc (suc w)) v)
      ≡ reverse (low_first (suc (suc w)) v)
unfolding swap_bytes to_memory of_memory big_endian
low_first-swap w v =
    low_first-of_low_first_at (suc (suc w)) (reverse (low_first (suc (suc w)) v))
      (big_endian-IsByte (suc (suc w)) v) (length-big_endian (suc (suc w)) v)

-- Writing: whatever the host, the bytes of `from_big_endian v` in memory are those of `v` on the
-- wire.
pub to_memory-from_big_endian :
    (e : Endian) (w v : ℕ) → to_memory e w (from_big_endian e w v) ≡ big_endian w v
unfolding from_big_endian to_memory big_endian
to_memory-from_big_endian big w v = refl
to_memory-from_big_endian little zero v = unfold swap_bytes low_first in refl
to_memory-from_big_endian little (suc zero) v = unfold swap_bytes low_first in refl
to_memory-from_big_endian little (suc (suc w)) v = low_first-swap w v

-- Bytes are those of the number that they stand for.
pub big_endian-of_big_endian :
    (w : ℕ) (bs : List ℕ) → All IsByte bs → length bs ≡ w → big_endian w (of_big_endian bs) ≡ bs
unfolding big_endian of_big_endian
big_endian-of_big_endian w bs h e =
    ap reverse
      (low_first-of_low_first_at w (reverse bs) (All-reverse IsByte bs h) (length-reverse bs ∙ e))
    ∙ reverse-reverse bs

of_low_first_bound : (bs : List ℕ) → All IsByte bs → of_low_first bs < 256 ^ length bs
unfolding of_low_first
of_low_first_bound [] h = omega arith
of_low_first_bound (b ∷ bs) h =
    rw (pow-suc 256 (length bs)) (omega (arith, of_low_first_bound bs h.1, h.0))

pub of_big_endian_bound : (bs : List ℕ) → All IsByte bs → of_big_endian bs < 256 ^ length bs
unfolding of_big_endian
of_big_endian_bound bs h =
    rw length-reverse at (of_low_first_bound (reverse bs) (All-reverse IsByte bs h))
