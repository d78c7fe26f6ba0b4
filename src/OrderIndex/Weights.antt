-- ===== src/OrderIndex/Weights.antt =====
-- Sums over the slots of include/itch/book/order_index.hpp: how many are used, how many hold a key, and what they
-- hold for it.
use itchcpp.Prelude.{
  ℕ, zero, suc, ◌+◌, ◌<◌, ◌≤◌, ◌≡◌, refl, List, [], ◌∷◌, Bool, false, Bool-cases, inl, inr, ◌==◌,
  if◌then◌else◌, length, arith,
}
use itchcpp.L3Book.Vectors.{set}
use itchcpp.OrderIndex.{Slot, blank_slot, slot_at, blank_slots}

unfoldable pub weigh : (Slot → ℕ) → List Slot → ℕ
weigh w [] = 0
weigh w (s ∷ slots) = w s + weigh w slots

pub weigh-set :
    (w : Slot → ℕ) (slots : List Slot) (i : ℕ) (s : Slot)
    → i < length slots
    → weigh w (set slots i s) + w (slot_at slots i) ≡ weigh w slots + w s
unfolding weigh
weigh-set w [] i s h = absurd (omega arith)
weigh-set w (x ∷ slots) zero s h = omega arith
weigh-set w (x ∷ slots) (suc i) s h = omega (arith, weigh-set w slots i s (omega arith))

pub weigh-bound :
    (w : Slot → ℕ) (slots : List Slot) (i : ℕ)
    → i < length slots
    → w (slot_at slots i) ≤ weigh w slots
unfolding weigh
weigh-bound w [] i h = absurd (omega arith)
weigh-bound w (x ∷ slots) zero h = omega arith
weigh-bound w (x ∷ slots) (suc i) h = omega (arith, weigh-bound w slots i (omega arith))

pub weigh-nothing :
    (w : Slot → ℕ) (slots : List Slot)
    → ((i : ℕ) → i < length slots → w (slot_at slots i) ≡ 0)
    → weigh w slots ≡ 0
unfolding weigh
weigh-nothing w [] h = refl
weigh-nothing w (x ∷ slots) h =
    omega (arith, h 0 (omega arith), weigh-nothing w slots (λ i b. h (suc i) (omega arith)))

pub weigh-blank : (w : Slot → ℕ) (n : ℕ) → w blank_slot ≡ 0 → weigh w (blank_slots n) ≡ 0
unfolding weigh blank_slots
weigh-blank w zero h = refl
weigh-blank w (suc n) h = omega (arith, h, weigh-blank w n h)

abbrev pub one_if : Bool → ℕ
one_if b = if b then 1 else 0

-- Used at all, with a key, and one more than the value for a key
abbrev pub taken : Slot → ℕ
taken s = if s.used then 1 else 0

abbrev pub holds : ℕ → Slot → ℕ
holds k s = if s.used then (if s.key == k then 1 else 0) else 0

abbrev pub gives : ℕ → Slot → ℕ
gives k s = if s.used then (if s.key == k then s.value + 1 else 0) else 0

-- Where not all slots are used, one is not.
pub free_slot :
    (slots : List Slot)
    → weigh taken slots < length slots
    → (u : ℕ) × (u < length slots) × ((slot_at slots u).used ≡ false)
unfolding weigh
free_slot [] h = absurd (omega arith)
free_slot (s ∷ slots) h = elim (Bool-cases s.used) [
  | inl busy ↦ let (u, bound, free) = free_slot slots (ground arith) in (suc u, omega arith, free)
  | inr free ↦ (0, omega arith, free)
]

pub not_given : (k : ℕ) (slots : List Slot) → weigh (holds k) slots ≡ 0 → weigh (gives k) slots ≡ 0
unfolding weigh
not_given k [] h = refl
not_given k (s ∷ slots) h = ground (arith, not_given k slots (omega arith))
