-- ===== src/OrderBook/Totals.antt =====
-- The price levels of src/order_book.cpp: `total_shares` is the sum of the shares of the orders, as
-- a 32-bit integer, through every change of a level.
use itchcpp.Prelude.{
  ℕ, ◌+◌, ◌%◌, ◌^◌, ◌≤◌, ◌<◌, ◌≡◌, refl, List, [], ◌∷◌, ◌++◌, Option, none, some, Bool, true, false,
  subst, Bool-cases, inl, inr, ◌==◌, All, if◌then◌else◌, arith,
}
use itchcpp.OrderBook.{
  Order, PriceLevel, Levels, find_order, set_order, erase_order, precedes, find_level, set_level,
  erase_level, push_order, level_or_new, sub32,
}
use itchcpp.OrderBook.Levels.{Below}

pub sum : List Order → ℕ
sum [] = 0
sum (o ∷ os) = o.shares + sum os

sum-append : (os : List Order) (o : Order) → sum (os ++ o ∷ []) ≡ sum os + o.shares
unfolding sum
sum-append [] o = omega arith
sum-append (p ∷ os) o = omega (arith, sum-append os o)

sum-set :
    (id : ℕ) (o order : Order) (os : List Order)
    → find_order id os ≡ some order
    → sum (set_order id o os) + order.shares ≡ sum os + o.shares
unfolding sum find_order set_order
sum-set id o order [] h = cc
sum-set id o order (p ∷ os) h = ground (arith, sum-set id o order os)

sum-erase :
    (id : ℕ) (order : Order) (os : List Order)
    → find_order id os ≡ some order
    → sum (erase_order id os) + order.shares ≡ sum os
unfolding sum find_order erase_order
sum-erase id order [] h = cc
sum-erase id order (p ∷ os) h = ground (arith, sum-erase id order os)

Below-append :
    (n : ℕ) (os : List Order) (o : Order) → Below n os → o.id < n → Below n (os ++ o ∷ [])
Below-append n [] o h k = (k, tt)
Below-append n (p ∷ os) o h k = (h.0, Below-append n os o h.1 k)

Below-mono : (m n : ℕ) (os : List Order) → m ≤ n → Below m os → Below n os
Below-mono m n [] le h = tt
Below-mono m n (p ∷ os) le h = (omega arith, Below-mono m n os le h.1)

All-if :
    {A : Type 0}
    → (P : A → Type 0) (test : Bool) (xs ys : List A) → All P xs
    → All P ys
    → All P (if test then xs else ys)
All-if P true xs ys h k = h
All-if P false xs ys h k = k

Below-set :
    (n id : ℕ) (o : Order) (os : List Order) → o.id < n → Below n os → Below n (set_order id o os)
unfolding set_order
Below-set n id o [] k h = tt
Below-set n id o (p ∷ os) k h = All-if _ (p.id == id) _ _ (k, h.1) (h.0, Below-set n id o os k h.1)

Below-erase : (n id : ℕ) (os : List Order) → Below n os → Below n (erase_order id os)
unfolding erase_order
Below-erase n id [] h = tt
Below-erase n id (p ∷ os) h = All-if _ (p.id == id) _ _ h.1 (h.0, Below-erase n id os h.1)

-- A level whose total is that of its orders, and whose orders were allocated before `n`.
pub record LevelOk (n : ℕ) (level : PriceLevel) : Type 0 where
  pub total : level.total_shares ≡ sum level.orders % 2 ^ 32
  pub below : Below n level.orders

pub level_or_new-LevelOk :
    (n : ℕ) (o : Option PriceLevel)
    → ((level : PriceLevel) → o ≡ some level → LevelOk n level)
    → LevelOk n (level_or_new o)
unfolding level_or_new sum
level_or_new-LevelOk n none h = record { total = omega arith; below = tt }
level_or_new-LevelOk n (some level) h = h level refl

pub push_order-LevelOk :
    (n : ℕ) (level : PriceLevel) (o : Order)
    → LevelOk n level
    → o.id ≡ n
    → LevelOk (n + 1) (push_order level o)
unfolding push_order
push_order-LevelOk n level o ok e = record {
  total = omega (arith, ok.total, sum-append level.orders o);
  below =
      Below-append (n + 1) level.orders o (Below-mono n (n + 1) level.orders (omega arith) ok.below)
        (omega arith);
}

-- The level after shares were taken from one of its orders.
module _ (n id canceled_shares : ℕ) (level : PriceLevel) (order : Order) (ok : LevelOk n level)
    (found : find_order id level.orders ≡ some order) (fresh : order.id < n) where
  abbrev pub reduced_order : Order
  reduced_order = record order { shares = sub32 order.shares canceled_shares }

  abbrev pub reduced : PriceLevel
  reduced = record {
    total_shares = sub32 level.total_shares canceled_shares;
    orders = set_order id reduced_order level.orders;
  }

  pub reduced-LevelOk : LevelOk n reduced
  reduced-LevelOk = record {
    total = omega (arith, ok.total, sum-set id reduced_order order level.orders found);
    below = Below-set n id reduced_order level.orders fresh ok.below;
  }

pub erased-LevelOk :
    (n id : ℕ) (level : PriceLevel) (order : Order)
    → LevelOk n level
    → find_order id level.orders ≡ some order
    → order.shares ≡ 0
    → LevelOk n (record level { orders = erase_order id level.orders })
erased-LevelOk n id level order ok found spent = record {
  total = omega (arith, ok.total, sum-erase id order level.orders found);
  below = Below-erase n id level.orders ok.below;
}

-- The same of all levels of a side.
abbrev pub LevelsOk : ℕ → Levels → Type 0
LevelsOk n levels = All (λ (entry : ℕ × PriceLevel). LevelOk n entry.1) levels

pub LevelsOk-mono : (n : ℕ) (levels : Levels) → LevelsOk n levels → LevelsOk (n + 1) levels
LevelsOk-mono n [] h = tt
LevelsOk-mono n ((p, level) ∷ levels) h = (
  record { total = h.0.total; below = Below-mono n (n + 1) level.orders (omega arith) h.0.below },
  LevelsOk-mono n levels h.1,
)

some_injective : (l level : PriceLevel) → some l ≡ some level → l ≡ level
some_injective l level e = cc

pub LevelsOk-find :
    (n price : ℕ) (level : PriceLevel) (levels : Levels)
    → LevelsOk n levels
    → find_level price levels ≡ some level
    → LevelOk n level
unfolding find_level
LevelsOk-find n price level [] h e = cc
LevelsOk-find n price level ((p, l) ∷ levels) h e = elim (Bool-cases (p == price)) [
  | inl same ↦ subst (LevelOk n) (some_injective l level (rw same at e)) h.0
  | inr other ↦ LevelsOk-find n price level levels h.1 (rw other at e)
]

pub LevelsOk-set :
    (n : ℕ) (is_bid : Bool) (price : ℕ) (level : PriceLevel) (levels : Levels)
    → LevelOk n level
    → LevelsOk n levels
    → LevelsOk n (set_level is_bid price level levels)
unfolding set_level
LevelsOk-set n is_bid price level [] ok h = (ok, tt)
LevelsOk-set n is_bid price level ((p, l) ∷ levels) ok h =
    All-if _ (p == price) _ _ (ok, h.1)
      (All-if _ (precedes is_bid price p) _ _ (ok, h)
        (h.0, LevelsOk-set n is_bid price level levels ok h.1))

pub LevelsOk-erase :
    (n price : ℕ) (levels : Levels) → LevelsOk n levels → LevelsOk n (erase_level price levels)
unfolding erase_level
LevelsOk-erase n price [] h = tt
LevelsOk-erase n price ((p, l) ∷ levels) h =
    All-if _ (p == price) _ _ h.1 (h.0, LevelsOk-erase n price levels h.1)
