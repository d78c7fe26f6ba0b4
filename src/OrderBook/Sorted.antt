-- ===== src/OrderBook/Sorted.antt =====
-- The maps of price levels of src/order_book.cpp, sorted by `std::greater` or `std::less`.
use itchcpp.Prelude.{
  ℕ, ◌<◌, ◌≡◌, subst, [], ◌∷◌, Bool, true, false, Bool-cases, inl, inr, All, ◌==◌, arith,
}
use itchcpp.OrderBook.{PriceLevel, Levels, precedes, set_level, erase_level}

abbrev pub Sorted : Bool → Levels → Type 0
Sorted is_bid [] = Unit
Sorted is_bid ((p, level) ∷ levels) =
    All (λ (entry : ℕ × PriceLevel). precedes is_bid p entry.0 ≡ true) levels × Sorted is_bid levels

abbrev Before : Bool → ℕ → Levels → Type 0
Before is_bid p levels = All (λ (entry : ℕ × PriceLevel). precedes is_bid p entry.0 ≡ true) levels

precedes_trans :
    (b : Bool) (p q r : ℕ) → precedes b p q ≡ true → precedes b q r ≡ true → precedes b p r ≡ true
unfolding precedes
precedes_trans true p q r h k = ground arith
precedes_trans false p q r h k = ground arith

precedes_total :
    (b : Bool) (p q : ℕ) → (p == q) ≡ false → precedes b q p ≡ false → precedes b p q ≡ true
unfolding precedes
precedes_total true p q h k = ground arith
precedes_total false p q h k = ground arith

Before-trans :
    (b : Bool) (p q : ℕ) (levels : Levels)
    → precedes b p q ≡ true
    → Before b q levels
    → Before b p levels
Before-trans b p q [] h k = tt
Before-trans b p q ((r, l) ∷ levels) h k =
    (precedes_trans b p q r h k.0, Before-trans b p q levels h k.1)

Before-set :
    (b : Bool) (p price : ℕ) (level : PriceLevel) (levels : Levels)
    → precedes b p price ≡ true
    → Before b p levels
    → Before b p (set_level b price level levels)
unfolding set_level
Before-set b p price level [] h k = (h, tt)
Before-set b p price level ((q, l) ∷ levels) h k = elim (Bool-cases (q == price)) [
  | inl same ↦ rw same (h, k.1)
  | inr other ↦ elim (Bool-cases (precedes b price q)) [
    | inl first ↦ rw (other, first) (h, k)
    | inr later ↦ rw (other, later) (k.0, Before-set b p price level levels h k.1)
  ]
]

pub Sorted-set :
    (b : Bool) (price : ℕ) (level : PriceLevel) (levels : Levels)
    → Sorted b levels
    → Sorted b (set_level b price level levels)
unfolding set_level
Sorted-set b price level [] h = (tt, tt)
Sorted-set b price level ((q, l) ∷ levels) h = elim (Bool-cases (q == price)) [
  | inl same ↦ rw same (subst (λ (k : ℕ). Before b k levels) (ground arith) h.0, h.1)
  | inr other ↦ elim (Bool-cases (precedes b price q)) [
    | inl first ↦ rw (other, first) ((first, Before-trans b price q levels first h.0), h)
    | inr later ↦
        rw (other, later)
          (
            Before-set b q price level levels (precedes_total b q price other later) h.0,
            Sorted-set b price level levels h.1,
          )
  ]
]

Before-erase :
    (b : Bool) (p price : ℕ) (levels : Levels)
    → Before b p levels
    → Before b p (erase_level price levels)
unfolding erase_level
Before-erase b p price [] k = tt
Before-erase b p price ((q, l) ∷ levels) k = elim (Bool-cases (q == price)) [
  | inl same ↦ rw same k.1
  | inr other ↦ rw other (k.0, Before-erase b p price levels k.1)
]

pub Sorted-erase :
    (b : Bool) (price : ℕ) (levels : Levels) → Sorted b levels → Sorted b (erase_level price levels)
unfolding erase_level
Sorted-erase b price [] h = tt
Sorted-erase b price ((q, l) ∷ levels) h = elim (Bool-cases (q == price)) [
  | inl same ↦ rw same h.1
  | inr other ↦ rw other (Before-erase b q price levels h.0, Sorted-erase b price levels h.1)
]

-- From the highest price down, one level for each price
abbrev pub Descending : Levels → Type 0
Descending [] = Unit
Descending ((p, level) ∷ levels) =
    All (λ (entry : ℕ × PriceLevel). entry.0 < p) levels × Descending levels

-- From the lowest price up, one level for each price
abbrev pub Ascending : Levels → Type 0
Ascending [] = Unit
Ascending ((p, level) ∷ levels) =
    All (λ (entry : ℕ × PriceLevel). p < entry.0) levels × Ascending levels

Descending-of_Sorted_all :
    (p : ℕ) (levels : Levels)
    → All (λ (e : ℕ × PriceLevel). precedes true p e.0 ≡ true) levels
    → All (λ (e : ℕ × PriceLevel). e.0 < p) levels
unfolding precedes
Descending-of_Sorted_all p [] h = tt
Descending-of_Sorted_all p (e ∷ levels) h = (ground arith, Descending-of_Sorted_all p levels h.1)

pub Descending-of_Sorted : (levels : Levels) → Sorted true levels → Descending levels
Descending-of_Sorted [] h = tt
Descending-of_Sorted ((p, level) ∷ levels) h =
    (Descending-of_Sorted_all p levels h.0, Descending-of_Sorted levels h.1)

Ascending-of_Sorted_all :
    (p : ℕ) (levels : Levels)
    → All (λ (e : ℕ × PriceLevel). precedes false p e.0 ≡ true) levels
    → All (λ (e : ℕ × PriceLevel). p < e.0) levels
unfolding precedes
Ascending-of_Sorted_all p [] h = tt
Ascending-of_Sorted_all p (e ∷ levels) h = (ground arith, Ascending-of_Sorted_all p levels h.1)

pub Ascending-of_Sorted : (levels : Levels) → Sorted false levels → Ascending levels
Ascending-of_Sorted [] h = tt
Ascending-of_Sorted ((p, level) ∷ levels) h =
    (Ascending-of_Sorted_all p levels h.0, Ascending-of_Sorted levels h.1)

sorted_of_descending_all :
    (p : ℕ) (levels : Levels)
    → All (λ (e : ℕ × PriceLevel). e.0 < p) levels
    → All (λ (e : ℕ × PriceLevel). precedes true p e.0 ≡ true) levels
unfolding precedes
sorted_of_descending_all p [] h = tt
sorted_of_descending_all p (e ∷ levels) h = (ground arith, sorted_of_descending_all p levels h.1)

pub Sorted-of_Descending : (levels : Levels) → Descending levels → Sorted true levels
Sorted-of_Descending [] h = tt
Sorted-of_Descending ((p, level) ∷ levels) h =
    (sorted_of_descending_all p levels h.0, Sorted-of_Descending levels h.1)

sorted_of_ascending_all :
    (p : ℕ) (levels : Levels)
    → All (λ (e : ℕ × PriceLevel). p < e.0) levels
    → All (λ (e : ℕ × PriceLevel). precedes false p e.0 ≡ true) levels
unfolding precedes
sorted_of_ascending_all p [] h = tt
sorted_of_ascending_all p (e ∷ levels) h = (ground arith, sorted_of_ascending_all p levels h.1)

pub Sorted-of_Ascending : (levels : Levels) → Ascending levels → Sorted false levels
Sorted-of_Ascending [] h = tt
Sorted-of_Ascending ((p, level) ∷ levels) h =
    (sorted_of_ascending_all p levels h.0, Sorted-of_Ascending levels h.1)
