-- ===== src/OrderBook/Effect.antt =====
-- What `remove_order` of src/order_book.cpp does to the order it is called for.
use itchcpp.Prelude.{
  ℕ, ◌-◌, ◌^◌, ◌<◌, ◌≡◌, refl, ap, ◌∙◌, List, [], ◌∷◌, none, some, inl, inr, true, false,
  Bool-cases, ◌==◌, if◌then◌else◌, arith,
}
use itchcpp.OrderBook.{
  Order, PriceLevel, OrderIt, LimitOrderBook, find_order, set_order, erase_order, find_entry,
  erase_entry, level_at, put_level, sub32, close, reduce, follow, remove_at, remove_order,
}
use itchcpp.OrderBook.Levels.{find_order-set, find_entry-erase, level_at-put}
use itchcpp.OrderBook.WellFormed.{put_level-orders, drop_level-orders}

find_order-id : (id : ℕ) (os : List Order) (o : Order) → find_order id os ≡ some o → o.id ≡ id
unfolding find_order
find_order-id id [] o h = cc
find_order-id id (p ∷ os) o h = elim (Bool-cases (p.id == id)) [
  | inl same ↦ same_id (rw same at h) (ground arith)
  | inr other ↦ find_order-id id os o (rw other at h)
]
  where
    same_id : some p ≡ some o → p.id ≡ id → o.id ≡ id
    same_id e k = cc

-- The entry of a reference number leads to an order of a level.
pub record Rests (s : LimitOrderBook) (ref : ℕ) (it : OrderIt) (level : PriceLevel) (order : Order)
    : Type 0 where
  pub entry : find_entry ref s.orders ≡ some it
  pub at : level_at s it.is_bid it.level_price ≡ some level
  pub node : find_order it.id level.orders ≡ some order

remove_order-reduce :
    (s : LimitOrderBook) (ref canceled_shares : ℕ) (it : OrderIt) (level : PriceLevel)
    (order : Order)
    → Rests s ref it level order
    → remove_order s ref canceled_shares ≡ some (reduce s ref canceled_shares it level order)
unfolding remove_order remove_at
remove_order-reduce s ref canceled_shares it level order r =
    rw (remove_order, r.entry, follow, r.at, r.node)

left_over : (a b : ℕ) → b < a → a < 2 ^ 32 → (sub32 a b == 0) ≡ false
left_over a b h k = ground arith

-- From an order that the entry of its reference number leads to, and whose shares fit 32 bits, fewer
-- shares than it has are taken away: it stays under its reference number, in its level, with exactly
-- the difference, and the total of the level is reduced as a 32-bit integer.
pub remove_order-partial :
    (s : LimitOrderBook) (ref canceled_shares : ℕ) (it : OrderIt) (level : PriceLevel)
    (order : Order)
    → Rests s ref it level order
    → canceled_shares < order.shares
    → order.shares < 2 ^ 32
    → (t : LimitOrderBook) × (rest : PriceLevel) × (remove_order s ref canceled_shares ≡ some t)
      × (rest.total_shares ≡ sub32 level.total_shares canceled_shares)
      × Rests t ref it rest (record order { shares = order.shares - canceled_shares })
unfolding reduce
remove_order-partial s ref canceled_shares it level order r some_left fits = (
  put_level it.is_bid it.level_price level' s,
  level',
  remove_order-reduce s ref canceled_shares it level order r
      ∙ rw (left_over order.shares canceled_shares some_left fits),
  refl,
  record {
    entry = rw (put_level-orders s it.is_bid it.level_price level').0 r.entry;
    at = level_at-put it.is_bid it.level_price level' s;
    node =
        find_order-set it.id it.id order' order level.orders
          (find_order-id it.id level.orders order r.node) r.node
        ∙ rw (same it.id) (ap (λ (n : ℕ). some (record order { shares = n })) (omega arith));
  },
)
  where
    order' : Order
    order' = record order { shares = sub32 order.shares canceled_shares }

    level' : PriceLevel
    level' = record {
      total_shares = sub32 level.total_shares canceled_shares;
      orders = set_order it.id order' level.orders;
    }

    same : (n : ℕ) → (n == n) ≡ true
    same n = ground arith

close-orders :
    (s : LimitOrderBook) (ref : ℕ) (it : OrderIt) (order : Order) (level : PriceLevel)
    (os : List Order)
    → (close s ref it order level os).orders ≡ erase_entry ref s.orders
unfolding close
close-orders s ref it order level [] = (drop_level-orders _ _ order.price).0
close-orders s ref it order level (o ∷ os) = (put_level-orders _ it.is_bid it.level_price _).0

spent_32 : (a : ℕ) → a < 2 ^ 32 → (sub32 a a == 0) ≡ true
spent_32 a h = ground arith

-- All shares, which fit 32 bits, of an order that the entry of its reference number leads to are
-- taken away: the map of orders then has no entry for this number, and the same entry as before for
-- every other one.
pub remove_order-whole :
    (s : LimitOrderBook) (ref k : ℕ) (it : OrderIt) (level : PriceLevel) (order : Order)
    → Rests s ref it level order
    → order.shares < 2 ^ 32
    → (t : LimitOrderBook) × (remove_order s ref order.shares ≡ some t)
      × (find_entry k t.orders ≡ (if ref == k then none else find_entry k s.orders))
unfolding reduce
remove_order-whole s ref k it level order r fits = (
  reduce s ref order.shares it level order,
  remove_order-reduce s ref order.shares it level order r,
  rw (spent_32 order.shares fits) (
      ap (find_entry k) (close-orders s ref it spent level' (erase_order it.id level'.orders))
      ∙ find_entry-erase ref k s.orders),
)
  where
    spent : Order
    spent = record order { shares = sub32 order.shares order.shares }

    level' : PriceLevel
    level' = record {
      total_shares = sub32 level.total_shares order.shares;
      orders = set_order it.id spent level.orders;
    }
