-- ===== src/OrderBook/Placement.antt =====
-- `add_order` of src/order_book.cpp keeps the invariant, also where the reference number is in use.
use itchcpp.Prelude.{
  ℕ, ◌+◌, ◌<◌, ◌≡◌, ◌≢◌, refl, sym, ap, ◌∙◌, subst, List, [], ◌∷◌, ◌++◌, some, ◌⊎◌, inl, inr, Bool,
  Bool-cases, ◌==◌, arith,
}
use itchcpp.OrderBook.{
  Order, PriceLevel, OrderIt, LimitOrderBook, find_order, find_entry, erase_entry, levels_of,
  level_at, put_level, push_order, level_or_new, place, add_to_book,
}
use itchcpp.OrderBook.Levels.{find_order-append, find_order-new, level_at-put}
use itchcpp.OrderBook.Totals.{
  LevelOk, LevelsOk, LevelsOk-mono, level_or_new-LevelOk, push_order-LevelOk,
}
use itchcpp.OrderBook.WellFormed.{
  Holds, Leads, WellFormed, level_at-LevelOk, Leads-put, put_level-LevelsOk, put_level-orders,
  some_injective, erase_entry-some,
}

-- The entry that was set, or another one.
find_entry-set :
    (ref r : ℕ) (entries : List (ℕ × OrderIt)) (it jt : OrderIt)
    → find_entry r ((ref, it) ∷ erase_entry ref entries) ≡ some jt
    → ((ref ≡ r) × (it ≡ jt)) ⊎ ((ref ≢ r) × (find_entry r entries ≡ some jt))
unfolding find_entry
find_entry-set ref r entries it jt e = elim (Bool-cases (ref == r)) [
  | inl same ↦ inl (ground arith, some_injective it jt (rw same at e))
  | inr other ↦ inr (erase_entry-some ref r entries jt (rw other at e))
]

module _ (s : LimitOrderBook) (w : WellFormed s) (ref : ℕ) (order : Order)
    (new : order.id ≡ s.next_id) (named : order.order_reference_number ≡ ref) where
  is_bid : Bool
  is_bid = order.buy_sell_indicator == b'B'

  it : OrderIt
  it = record {
    id = order.id;
    is_bid = order.buy_sell_indicator == b'B';
    level_price = order.price;
  }

  old_level : PriceLevel
  old_level = level_or_new (level_at s is_bid order.price)

  old_level-LevelOk : LevelOk s.next_id old_level
  unfolding old_level
  old_level-LevelOk =
      level_or_new-LevelOk s.next_id (level_at s is_bid order.price)
        (λ l e. level_at-LevelOk s.next_id s is_bid order.price l w.bids_ok w.asks_ok e)

  -- The book with the new iterator, before the level is put.
  entered : LimitOrderBook
  entered = record s { orders = (ref, it) ∷ erase_entry ref s.orders; next_id = s.next_id + 1 }

  Holds-new : Holds ref it (push_order old_level order)
  unfolding it push_order
  Holds-new = record {
    order = order;
    node =
        subst (λ (n : ℕ). find_order n (old_level.orders ++ order ∷ []) ≡ some order) (sym new)
          (find_order-new s.next_id old_level.orders order old_level-LevelOk.below new);
    same_reference = named;
    same_id = refl;
    same_price = refl;
    same_side = refl;
  }

  Holds-old :
      {q : ℕ} (jt : OrderIt) (l : PriceLevel)
      → level_at s is_bid order.price ≡ some l
      → Holds q jt l
      → Holds q jt (push_order old_level order)
  unfolding push_order old_level level_or_new
  Holds-old jt l e h = record {
    order = h.order;
    node = rw (e, level_or_new) (find_order-append jt.id l.orders order h.order h.node);
    same_reference = h.same_reference;
    same_id = h.same_id;
    same_price = h.same_price;
    same_side = h.same_side;
  }

  after : LimitOrderBook
  after = put_level is_bid order.price (push_order old_level order) entered

  Leads-new : Leads after ref it
  unfolding after it is_bid
  Leads-new = record {
    level = push_order old_level order;
    found = level_at-put is_bid order.price (push_order old_level order) entered;
    holds = Holds-new;
  }

  Leads-old : {q : ℕ} (jt : OrderIt) → Leads s q jt → Leads after q jt
  unfolding after entered level_at levels_of
  Leads-old jt old =
      Leads-put entered is_bid order.price (push_order old_level order) jt
        (record { level = old.level; found = old.found; holds = old.holds })
        (λ e. Holds-old jt old.level e old.holds)

  entry_of :
      (r : ℕ) (jt : OrderIt)
      → find_entry r after.orders ≡ some jt
      → ((ref ≡ r) × (it ≡ jt)) ⊎ ((ref ≢ r) × (find_entry r s.orders ≡ some jt))
  unfolding after entered
  entry_of r jt e =
      find_entry-set ref r s.orders it jt
        (rw (put_level-orders entered is_bid order.price (push_order old_level order)).0 at e)

  next_id-after : after.next_id ≡ s.next_id + 1
  unfolding after entered
  next_id-after = (put_level-orders entered is_bid order.price (push_order old_level order)).1

  after-leads : (r : ℕ) (jt : OrderIt) → find_entry r after.orders ≡ some jt → Leads after r jt
  after-leads r jt e = elim (entry_of r jt e) [
    | inl (same, is_new) ↦
        subst (λ (q : ℕ). Leads after q jt) same (subst (Leads after ref) is_new Leads-new)
    | inr (other, f) ↦ Leads-old jt (w.leads r jt f)
  ]

  new_id : (jt : OrderIt) → it ≡ jt → jt.id ≡ s.next_id
  unfolding it
  new_id jt same = ap (λ (k : OrderIt). k.id) (sym same) ∙ new

  after-fresh : (r : ℕ) (jt : OrderIt) → find_entry r after.orders ≡ some jt → jt.id < after.next_id
  after-fresh r jt e = elim (entry_of r jt e) [
    | inl (same, is_new) ↦ omega (arith, new_id jt is_new, next_id-after)
    | inr (other, f) ↦ omega (arith, w.fresh r jt f, next_id-after)
  ]

  after-distinct :
      (r q : ℕ) (jt kt : OrderIt)
      → find_entry r after.orders ≡ some jt
      → find_entry q after.orders ≡ some kt
      → r ≢ q
      → jt.id ≢ kt.id
  after-distinct r q jt kt e f ne = elim (entry_of r jt e) [
    | inl (same, is_new) ↦ elim (entry_of q kt f) [
      | inl (also, _) ↦ absurd (ne (sym same ∙ also))
      | inr (_, g) ↦ omega (arith, new_id jt is_new, w.fresh q kt g)
    ]
    | inr (_, g) ↦ elim (entry_of q kt f) [
      | inl (_, is_new) ↦ omega (arith, new_id kt is_new, w.fresh r jt g)
      | inr (_, h) ↦ w.distinct r q jt kt g h ne
    ]
  ]

  after-levels : LevelsOk (s.next_id + 1) after.bids × LevelsOk (s.next_id + 1) after.asks
  unfolding after entered
  after-levels =
      put_level-LevelsOk (s.next_id + 1) entered is_bid order.price (push_order old_level order)
        (push_order-LevelOk s.next_id old_level order old_level-LevelOk new)
        (LevelsOk-mono s.next_id s.bids w.bids_ok) (LevelsOk-mono s.next_id s.asks w.asks_ok)

  pub place-WellFormed : WellFormed (place s ref order)
  unfolding place after entered it old_level is_bid
  place-WellFormed = record {
    leads = after-leads;
    fresh = after-fresh;
    distinct = after-distinct;
    bids_ok = subst (λ (n : ℕ). LevelsOk n after.bids) (sym next_id-after) after-levels.0;
    asks_ok = subst (λ (n : ℕ). LevelsOk n after.asks) (sym next_id-after) after-levels.1;
  }

-- A call of `add_order` keeps the invariant.
pub add_to_book-WellFormed :
    (s : LimitOrderBook) (ref side shares price : ℕ) (stock : List ℕ)
    → WellFormed s
    → WellFormed (add_to_book s ref side shares price stock)
unfolding add_to_book
add_to_book-WellFormed s ref side shares price stock w = place-WellFormed s w ref _ refl refl
