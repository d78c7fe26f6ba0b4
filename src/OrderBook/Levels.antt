-- ===== src/OrderBook/Levels.antt =====
-- The lists and maps of src/order_book.cpp: what is found after an insertion, an assignment or an
-- erasure.
use itchcpp.Prelude.{
  ℕ, ◌<◌, ◌≡◌, ◌≢◌, refl, List, [], ◌∷◌, ◌++◌, none, some, Bool, true, false, ◌⊎◌, inl, inr,
  Bool-cases, ◌==◌, All, if◌then◌else◌, arith,
}
use itchcpp.OrderBook.{
  Order, PriceLevel, OrderIt, Levels, LimitOrderBook, find_order, set_order, erase_order,
  find_level, set_level, erase_level, find_entry, erase_entry, levels_of, level_at, put_level,
  drop_level,
}

pub find_order-append :
    (id : ℕ) (os : List Order) (o order : Order)
    → find_order id os ≡ some order
    → find_order id (os ++ o ∷ []) ≡ some order
unfolding find_order
find_order-append id [] o order h = cc
find_order-append id (p ∷ os) o order h = ground (arith, find_order-append id os o order)

-- The numbers of all orders are below the next one.
abbrev pub Below : ℕ → List Order → Type 0
Below n os = All (λ (o : Order). o.id < n) os

pub find_order-new :
    (n : ℕ) (os : List Order) (o : Order)
    → Below n os
    → o.id ≡ n
    → find_order n (os ++ o ∷ []) ≡ some o
unfolding find_order
find_order-new n [] o h e = ground arith
find_order-new n (p ∷ os) o h e = ground (arith, find_order-new n os o h.1 e)

pub find_order-set :
    (id k : ℕ) (o order : Order) (os : List Order)
    → o.id ≡ id
    → find_order id os ≡ some order
    → find_order k (set_order id o os) ≡ (if id == k then some o else find_order k os)
unfolding find_order set_order
find_order-set id k o order [] e h = cc
find_order-set id k o order (p ∷ os) e h = ground (arith, find_order-set id k o order os e)

pub find_order-erase :
    (id k : ℕ) (os : List Order) → id ≢ k → find_order k (erase_order id os) ≡ find_order k os
unfolding find_order erase_order
find_order-erase id k [] ne = refl
find_order-erase id k (p ∷ os) ne = ground (arith, find_order-erase id k os ne)

pub find_level-set :
    (is_bid : Bool) (price k : ℕ) (level : PriceLevel) (levels : Levels)
    → find_level k (set_level is_bid price level levels)
      ≡ (if price == k then some level else find_level k levels)
unfolding find_level set_level
find_level-set is_bid price k level [] = refl
find_level-set is_bid price k level ((p, l) ∷ levels) =
    ground (arith, find_level-set is_bid price k level levels)

pub find_level-erase :
    (price k : ℕ) (levels : Levels)
    → price ≢ k
    → find_level k (erase_level price levels) ≡ find_level k levels
unfolding find_level erase_level
find_level-erase price k [] ne = refl
find_level-erase price k ((p, l) ∷ levels) ne = ground (arith, find_level-erase price k levels ne)

pub find_entry-erase :
    (ref k : ℕ) (entries : List (ℕ × OrderIt))
    → find_entry k (erase_entry ref entries) ≡ (if ref == k then none else find_entry k entries)
unfolding find_entry erase_entry
find_entry-erase ref k [] = ground arith
find_entry-erase ref k ((r, it) ∷ entries) = ground (arith, find_entry-erase ref k entries)

-- Two sides and prices are the same, or not.
abbrev pub SameLevel : Bool → ℕ → Bool → ℕ → Type 0
SameLevel b p c q = (b ≡ c) × (p ≡ q)

pub SameLevel-cases :
    (b : Bool) (p : ℕ) (c : Bool) (q : ℕ)
    → SameLevel b p c q
      ⊎ ((s : LimitOrderBook) (level : PriceLevel)
          → (level_at (put_level b p level s) c q ≡ level_at s c q)
            × (level_at (drop_level b p s) c q ≡ level_at s c q))
unfolding level_at put_level drop_level levels_of
SameLevel-cases true p false q = inr (λ s level. (refl, refl))
SameLevel-cases false p true q = inr (λ s level. (refl, refl))
SameLevel-cases true p true q = elim (Bool-cases (p == q)) [
  | inl same ↦ inl (refl, ground arith)
  | inr other ↦
      inr (λ s level. (rw (find_level-set, other), find_level-erase p q s.bids (ground arith)))
]
SameLevel-cases false p false q = elim (Bool-cases (p == q)) [
  | inl same ↦ inl (refl, ground arith)
  | inr other ↦
      inr (λ s level. (rw (find_level-set, other), find_level-erase p q s.asks (ground arith)))
]

pub level_at-put :
    (b : Bool) (p : ℕ) (level : PriceLevel) (s : LimitOrderBook)
    → level_at (put_level b p level s) b p ≡ some level
unfolding level_at put_level levels_of
level_at-put true p level s = rw find_level-set (ground arith)
level_at-put false p level s = rw find_level-set (ground arith)
