-- ===== src/OrderBook/WellFormed.antt =====
-- The invariant of `LimitOrderBook` in src/order_book.cpp, through `add_order` and `remove_order`:
-- no iterator dangles, and every level has the total of its orders.
use itchcpp.Prelude.{
  ℕ, ◌<◌, ◌≡◌, ◌≢◌, refl, sym, ap, ◌∙◌, subst, List, none, some, inl, inr, Bool, true, false,
  Bool-cases, ◌==◌, arith,
}
use itchcpp.OrderBook.{
  Order, PriceLevel, OrderIt, LimitOrderBook, find_order, set_order, erase_order, find_entry,
  erase_entry, levels_of, level_at, put_level, drop_level,
}
use itchcpp.OrderBook.Levels.{
  find_order-set, find_order-erase, find_entry-erase, SameLevel-cases, level_at-put,
}
use itchcpp.OrderBook.Totals.{LevelOk, LevelsOk, LevelsOk-find, LevelsOk-set, LevelsOk-erase}

-- The order that an iterator leads to in a level: it has the reference number of the entry, and the
-- number, the side and the price of the iterator.
pub record Holds (ref : ℕ) (it : OrderIt) (level : PriceLevel) : Type 0 where
  pub order : Order
  pub node : find_order it.id level.orders ≡ some order
  pub same_reference : order.order_reference_number ≡ ref
  pub same_id : order.id ≡ it.id
  pub same_price : order.price ≡ it.level_price
  pub same_side : (order.buy_sell_indicator == b'B') ≡ it.is_bid

-- An iterator that does not dangle.
pub record Leads (s : LimitOrderBook) (ref : ℕ) (it : OrderIt) : Type 0 where
  pub level : PriceLevel
  pub found : level_at s it.is_bid it.level_price ≡ some level
  pub holds : Holds ref it level

pub record WellFormed (s : LimitOrderBook) : Type 0 where
  pub leads : (ref : ℕ) (it : OrderIt) → find_entry ref s.orders ≡ some it → Leads s ref it
  pub fresh : (ref : ℕ) (it : OrderIt) → find_entry ref s.orders ≡ some it → it.id < s.next_id
  pub distinct :
      (r q : ℕ) (it jt : OrderIt)
      → find_entry r s.orders ≡ some it
      → find_entry q s.orders ≡ some jt
      → r ≢ q
      → it.id ≢ jt.id
  pub bids_ok : LevelsOk s.next_id s.bids
  pub asks_ok : LevelsOk s.next_id s.asks

pub level_at-LevelOk :
    (n : ℕ) (s : LimitOrderBook) (is_bid : Bool) (price : ℕ) (level : PriceLevel)
    → LevelsOk n s.bids
    → LevelsOk n s.asks
    → level_at s is_bid price ≡ some level
    → LevelOk n level
unfolding level_at levels_of
level_at-LevelOk n s true price level bids asks e = LevelsOk-find n price level s.bids bids e
level_at-LevelOk n s false price level bids asks e = LevelsOk-find n price level s.asks asks e

-- Another level is put in the place of one: an iterator still leads to its order if the new level
-- holds it where the old one did.
pub Leads-put :
    {q : ℕ} (s : LimitOrderBook) (b : Bool) (p : ℕ) (level : PriceLevel) (it : OrderIt)
    → (old : Leads s q it) → (level_at s b p ≡ some old.level → Holds q it level)
    → Leads (put_level b p level s) q it
Leads-put s b p level it old again = elim (SameLevel-cases b p it.is_bid it.level_price) [
  | inl (side, price) ↦ record {
    level = level;
    found = same_level side price;
    holds = again (old_level side price);
  }
  | inr other ↦ record {
    level = old.level;
    found = (other s level).0 ∙ old.found;
    holds = old.holds;
  }
]
  where
    same_level :
        b ≡ it.is_bid
        → p ≡ it.level_price
        → level_at (put_level b p level s) it.is_bid it.level_price ≡ some level
    same_level side price = rw (← side, ← price) (level_at-put b p level s)

    old_level : b ≡ it.is_bid → p ≡ it.level_price → level_at s b p ≡ some old.level
    old_level side price = rw (side, price) old.found

pub put_level-LevelsOk :
    (n : ℕ) (s : LimitOrderBook) (b : Bool) (p : ℕ) (level : PriceLevel)
    → LevelOk n level
    → LevelsOk n s.bids
    → LevelsOk n s.asks
    → LevelsOk n (put_level b p level s).bids × LevelsOk n (put_level b p level s).asks
unfolding put_level
put_level-LevelsOk n s true p level ok bids asks =
    (LevelsOk-set n true p level s.bids ok bids, asks)
put_level-LevelsOk n s false p level ok bids asks =
    (bids, LevelsOk-set n false p level s.asks ok asks)

pub drop_level-LevelsOk :
    (n : ℕ) (s : LimitOrderBook) (b : Bool) (p : ℕ)
    → LevelsOk n s.bids
    → LevelsOk n s.asks
    → LevelsOk n (drop_level b p s).bids × LevelsOk n (drop_level b p s).asks
unfolding drop_level
drop_level-LevelsOk n s true p bids asks = (LevelsOk-erase n p s.bids bids, asks)
drop_level-LevelsOk n s false p bids asks = (bids, LevelsOk-erase n p s.asks asks)

-- Neither touches the map of iterators, nor the numbers.
pub put_level-orders :
    (s : LimitOrderBook) (b : Bool) (p : ℕ) (level : PriceLevel)
    → ((put_level b p level s).orders ≡ s.orders) × ((put_level b p level s).next_id ≡ s.next_id)
unfolding put_level
put_level-orders s true p level = (refl, refl)
put_level-orders s false p level = (refl, refl)

pub drop_level-orders :
    (s : LimitOrderBook) (b : Bool) (p : ℕ)
    → ((drop_level b p s).orders ≡ s.orders) × ((drop_level b p s).next_id ≡ s.next_id)
unfolding drop_level
drop_level-orders s true p = (refl, refl)
drop_level-orders s false p = (refl, refl)

-- A state with fewer iterators, all of which lead somewhere.
pub WellFormed-fewer :
    (s t : LimitOrderBook)
    → WellFormed s
    → t.next_id ≡ s.next_id
    → ((r : ℕ) (it : OrderIt)
        → find_entry r t.orders ≡ some it
        → (find_entry r s.orders ≡ some it) × Leads t r it)
    → LevelsOk s.next_id t.bids × LevelsOk s.next_id t.asks
    → WellFormed t
WellFormed-fewer s t w same step levels = record {
  leads = λ r it e. (step r it e).1;
  fresh = λ r it e. omega (arith, w.fresh r it (step r it e).0);
  distinct = λ r q it jt e f. w.distinct r q it jt (step r it e).0 (step q jt f).0;
  bids_ok = subst (λ (n : ℕ). LevelsOk n t.bids) (sym same) levels.0;
  asks_ok = subst (λ (n : ℕ). LevelsOk n t.asks) (sym same) levels.1;
}

pub some_injective : {A : Type 0} → (a b : A) → some a ≡ some b → a ≡ b
some_injective a b e = cc

-- An order of a level was assigned, with its number, side and price as they were: what iterators
-- of the level lead to is there still.
pub Holds-set :
    {q : ℕ} (it jt : OrderIt) (level : PriceLevel) (order : Order) (total shares : ℕ)
    → find_order it.id level.orders ≡ some order
    → order.id ≡ it.id
    → Holds q jt level
    → Holds q jt (record {
      total_shares = total;
      orders = set_order it.id (record order { shares = shares }) level.orders;
    })
Holds-set it jt level order total shares found id h = elim (Bool-cases (it.id == jt.id)) [
  | inl same ↦
      let one : order ≡ h.order =
        some_injective _ _
          (sym found ∙ ap (λ (k : ℕ). find_order k level.orders) (ground arith) ∙ h.node) in
      record {
        order = record order { shares = shares };
        node =
            find_order-set it.id jt.id (record order { shares = shares }) order level.orders id
              found
            ∙ rw same;
        same_reference = ap (λ (o : Order). o.order_reference_number) one ∙ h.same_reference;
        same_id = ap (λ (o : Order). o.id) one ∙ h.same_id;
        same_price = ap (λ (o : Order). o.price) one ∙ h.same_price;
        same_side = ap (λ (o : Order). o.buy_sell_indicator == b'B') one ∙ h.same_side;
      }
  | inr other ↦ record {
    order = h.order;
    node =
        find_order-set it.id jt.id (record order { shares = shares }) order level.orders id found
        ∙ rw other h.node;
    same_reference = h.same_reference;
    same_id = h.same_id;
    same_price = h.same_price;
    same_side = h.same_side;
  }
]

pub Holds-erase :
    {q : ℕ} (it jt : OrderIt) (level : PriceLevel)
    → it.id ≢ jt.id
    → Holds q jt level
    → Holds q jt (record level { orders = erase_order it.id level.orders })
Holds-erase it jt level ne h = record {
  order = h.order;
  node = find_order-erase it.id jt.id level.orders ne ∙ h.node;
  same_reference = h.same_reference;
  same_id = h.same_id;
  same_price = h.same_price;
  same_side = h.same_side;
}

pub erase_entry-some :
    (ref r : ℕ) (entries : List (ℕ × OrderIt)) (it : OrderIt)
    → find_entry r (erase_entry ref entries) ≡ some it
    → (ref ≢ r) × (find_entry r entries ≡ some it)
erase_entry-some ref r entries it e = elim (Bool-cases (ref == r)) [
  | inl same ↦ absurd (none-some it (sym (find_entry-erase ref r entries ∙ rw same) ∙ e))
  | inr other ↦ (ground arith, sym (find_entry-erase ref r entries ∙ rw other) ∙ e)
]
  where
    none-some : (it : OrderIt) → none ≡ some it → ⊥
    none-some it e = cc
