-- ===== src/OrderIndex/Cycle.antt =====
-- The cyclic order of the slots of include/itch/book/order_index.hpp
use itchcpp.Prelude.{
  ℕ, ◌+◌, ◌-◌, ◌<◌, ◌≤◌, ◌%◌, ◌≡◌, ◌⊎◌, ap, List, leb, ◌==◌, if◌then◌else◌, length, Bool-cases, inl,
  inr, arith,
}
use native.Mathlib.Nat.{mod-eq_of_lt, mod_self, mod-lt}
use itchcpp.OrderIndex.{Slot, hash, home, next_slot}

-- How many steps lead from one slot to the other
abbrev pub gap : ℕ → ℕ → ℕ → ℕ
gap n a b = if leb a b then b - a else b + n - a

pub next_slot-is :
    (slots : List Slot) (i : ℕ)
    → i < length slots
    → next_slot slots i ≡ (if i + 1 == length slots then 0 else i + 1)
unfolding next_slot
next_slot-is slots i h = elim (Bool-cases (i + 1 == length slots)) [
  | inl last ↦ ground (
    arith,
    ap (λ k. k % length slots) {x = i + 1} {y = length slots} (ground arith),
    mod_self (length slots),
  )
  | inr inner ↦ ground (arith, mod-eq_of_lt {n = i + 1} {m = length slots} (ground arith))
]

pub next_slot-bound :
    (slots : List Slot) (i : ℕ) → i < length slots → next_slot slots i < length slots
next_slot-bound slots i h = ground (arith, next_slot-is slots i h)

pub home-bound : (slots : List Slot) (key : ℕ) → 0 < length slots → home slots key < length slots
unfolding home
home-bound slots key h = mod-lt (hash key) h

pub gap_injective : (n a x y : ℕ) → a < n → x < n → y < n → gap n a x ≡ gap n a y → x ≡ y
gap_injective n a x y h i j e = ground arith

pub gap_self : (n a : ℕ) → gap n a a ≡ 0
gap_self n a = ground arith

pub gap-bound : (n a b : ℕ) → a < n → b < n → gap n a b < n
gap-bound n a b h i = ground arith

-- One step farther, unless it leads back to the start
pub gap-next :
    (slots : List Slot) (a i : ℕ)
    → a < length slots
    → i < length slots
    → gap (length slots) a i + 1 < length slots
    → gap (length slots) a (next_slot slots i) ≡ gap (length slots) a i + 1
gap-next slots a i h b inner = ground (arith, next_slot-is slots i b)

-- From a place between the two, the second is reached before the first.
pub inside_first :
    (n a b c : ℕ)
    → a < n
    → b < n
    → c < n
    → 0 < gap n a c
    → gap n a c ≤ gap n a b
    → gap n c b < gap n c a
inside_first n a b c h i j k l = ground arith

-- From a place outside, the first is reached before the second.
pub outside_first :
    (n a b c : ℕ)
    → a < n
    → b < n
    → c < n
    → 0 < gap n a b
    → (gap n a c ≡ 0) ⊎ (gap n a b < gap n a c)
    → gap n c a < gap n c b
outside_first n a b c h i j k l = ground arith

-- A place that lies between one on the way and the end is on the way.
pub on_the_way :
    (n a b c j : ℕ)
    → a < n
    → b < n
    → c < n
    → j < n
    → gap n c a < gap n c j
    → gap n a b < gap n a j
    → gap n c b < gap n c j
on_the_way n a b c j h i k l p q = ground arith
