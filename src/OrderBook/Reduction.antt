-- ===== src/OrderBook/Reduction.antt =====
-- `remove_order` of src/order_book.cpp keeps the invariant: shares are taken from an order, and an
-- order without shares leaves the book, with its level if that is empty.
use itchcpp.Prelude.{
  ℕ, ◌≡◌, ◌≢◌, refl, sym, ap, ◌∙◌, subst, List, [], ◌∷◌, some, inl, inr, Bool, true, Bool-cases,
  Option-cases, ◌==◌, arith,
}
use itchcpp.OrderBook.{
  Order, PriceLevel, OrderIt, LimitOrderBook, find_order, set_order, erase_order, find_entry,
  erase_entry, levels_of, level_at, put_level, drop_level, sub32, close, reduce, follow, remove_at,
  remove_order,
}
use itchcpp.OrderBook.Levels.{SameLevel-cases, find_order-set}
use itchcpp.OrderBook.Totals.{LevelOk, reduced-LevelOk, erased-LevelOk}
use itchcpp.OrderBook.WellFormed.{
  Holds, Leads, WellFormed, level_at-LevelOk, Leads-put, put_level-LevelsOk, drop_level-LevelsOk,
  put_level-orders, drop_level-orders, WellFormed-fewer, some_injective, Holds-set, Holds-erase,
  erase_entry-some,
}

module _ (s : LimitOrderBook) (w : WellFormed s) (ref canceled_shares : ℕ) (it : OrderIt)
    (entry : find_entry ref s.orders ≡ some it) (level : PriceLevel)
    (at : level_at s it.is_bid it.level_price ≡ some level) (holds : Holds ref it level) where
  shares_left : ℕ
  shares_left = sub32 holds.order.shares canceled_shares

  level' : PriceLevel
  level' = record {
    total_shares = sub32 level.total_shares canceled_shares;
    orders = set_order it.id (record holds.order { shares = shares_left }) level.orders;
  }

  level'-LevelOk : LevelOk s.next_id level'
  unfolding level' shares_left
  level'-LevelOk =
      reduced-LevelOk s.next_id it.id canceled_shares level holds.order
        (level_at-LevelOk s.next_id s it.is_bid it.level_price level w.bids_ok w.asks_ok at)
        holds.node (omega (arith, holds.same_id, w.fresh ref it entry))

  level'-Holds : {q : ℕ} (jt : OrderIt) → Holds q jt level → Holds q jt level'
  unfolding level' shares_left
  level'-Holds jt h = Holds-set it jt level holds.order _ _ holds.node holds.same_id h

  same_level : (l : PriceLevel) → level_at s it.is_bid it.level_price ≡ some l → level ≡ l
  same_level l e = some_injective level l (sym at ∙ e)

  keep-WellFormed : WellFormed (put_level it.is_bid it.level_price level' s)
  keep-WellFormed =
      let same = put_level-orders s it.is_bid it.level_price level' in
      WellFormed-fewer s (put_level it.is_bid it.level_price level' s) w same.1
        (λ r jt e.
          let f : find_entry r s.orders ≡ some jt = rw same.0 at e in
          let old = w.leads r jt f in
          (
            f,
            Leads-put s it.is_bid it.level_price level' jt old (λ k.
                level'-Holds jt (subst (Holds _ jt) (sym (same_level old.level k)) old.holds)),
          ))
        (put_level-LevelsOk s.next_id s it.is_bid it.level_price level' level'-LevelOk w.bids_ok
          w.asks_ok)

  -- The book without the iterator.
  forgotten : LimitOrderBook
  forgotten = record s { orders = erase_entry ref s.orders }

  others :
      (r : ℕ) (jt : OrderIt)
      → find_entry r (erase_entry ref s.orders) ≡ some jt
      → (find_entry r s.orders ≡ some jt) × (it.id ≢ jt.id)
  others r jt e =
      let (ne, f) = erase_entry-some ref r s.orders jt e in (f, w.distinct ref r it jt entry f ne)

  Leads-forgotten : {q : ℕ} (jt : OrderIt) → Leads s q jt → Leads forgotten q jt
  unfolding forgotten level_at levels_of
  Leads-forgotten jt old = record { level = old.level; found = old.found; holds = old.holds }

  erased : PriceLevel
  erased = record level' { orders = erase_order it.id level'.orders }

  -- What the other iterators of the level lead to is there still.
  erased-Holds :
      {q : ℕ} (jt : OrderIt) (l : PriceLevel)
      → it.id ≢ jt.id
      → level_at s it.is_bid it.level_price ≡ some l
      → Holds q jt l
      → Holds q jt erased
  unfolding erased
  erased-Holds jt l ne k h =
      Holds-erase it jt level' ne (level'-Holds jt (subst (Holds _ jt) (sym (same_level l k)) h))

  erased-Ok : shares_left ≡ 0 → LevelOk s.next_id erased
  unfolding erased level'
  erased-Ok spent =
      erased-LevelOk s.next_id it.id level' (record holds.order { shares = shares_left })
        level'-LevelOk
        (find_order-set it.id it.id (record holds.order { shares = shares_left }) holds.order
            level.orders holds.same_id holds.node
          ∙ rw (same it.id))
        spent
    where
      same : (n : ℕ) → (n == n) ≡ true
      same n = ground arith

  shrink-WellFormed :
      shares_left ≡ 0 → WellFormed (put_level it.is_bid it.level_price erased forgotten)
  unfolding forgotten level_at levels_of Leads-forgotten
  shrink-WellFormed spent =
      let same = put_level-orders forgotten it.is_bid it.level_price erased in
      WellFormed-fewer s (put_level it.is_bid it.level_price erased forgotten) w same.1
        (λ r jt e.
          let (f, ne) = others r jt (rw same.0 at e) in
          let old = w.leads r jt f in
          (
            f,
            Leads-put forgotten it.is_bid it.level_price erased jt (Leads-forgotten jt old)
                (λ k. erased-Holds jt old.level ne k old.holds),
          ))
        (put_level-LevelsOk s.next_id forgotten it.is_bid it.level_price erased (erased-Ok spent)
          w.bids_ok w.asks_ok)

  empty_Holds : {q : ℕ} (jt : OrderIt) → erased.orders ≡ [] → Holds q jt erased → ⊥
  unfolding find_order
  empty_Holds jt e h = absurd_none h.order (sym (ap (find_order jt.id) e) ∙ h.node)
    where
      absurd_none : (o : Order) → find_order jt.id [] ≡ some o → ⊥
      absurd_none o e = cc

  side : Bool
  side = holds.order.buy_sell_indicator == b'B'

  dropped_at :
      {q : ℕ} (jt : OrderIt)
      → side ≡ jt.is_bid
      → holds.order.price ≡ jt.level_price
      → (old : Leads s q jt) → level_at s it.is_bid it.level_price ≡ some old.level
  unfolding side
  dropped_at jt is_bid price old =
      rw (sym holds.same_side ∙ is_bid, sym holds.same_price ∙ price) old.found

  drop-WellFormed : erased.orders ≡ [] → WellFormed (drop_level side holds.order.price forgotten)
  unfolding forgotten level_at levels_of Leads-forgotten
  drop-WellFormed none_left =
      let same = drop_level-orders forgotten side holds.order.price in
      WellFormed-fewer s (drop_level side holds.order.price forgotten) w same.1
        (λ r jt e. let (f, ne) = others r jt (rw same.0 at e) in (f, stays jt ne (w.leads r jt f)))
        (drop_level-LevelsOk s.next_id forgotten side holds.order.price w.bids_ok w.asks_ok)
    where
      stays :
          {q : ℕ} (jt : OrderIt)
          → it.id ≢ jt.id
          → Leads s q jt
          → Leads (drop_level side holds.order.price forgotten) q jt
      stays jt ne old = elim (SameLevel-cases side holds.order.price jt.is_bid jt.level_price) [
        | inl (is_bid, price) ↦ absurd (
            empty_Holds jt none_left
              (erased-Holds jt old.level ne (dropped_at jt is_bid price old) old.holds))
        | inr other ↦ record {
          level = old.level;
          found = (other forgotten level).1 ∙ (Leads-forgotten jt old).found;
          holds = old.holds;
        }
      ]

  close-WellFormed :
      (os : List Order)
      → erased.orders ≡ os
      → shares_left ≡ 0
      → WellFormed (close s ref it (record holds.order { shares = shares_left }) level' os)
  unfolding close erased forgotten side
  close-WellFormed [] left spent = drop-WellFormed left
  close-WellFormed (o ∷ os) left spent =
      subst
        (λ (os : List Order).
          WellFormed (put_level it.is_bid it.level_price (record level' { orders = os }) forgotten))
        left (shrink-WellFormed spent)

  pub reduce-WellFormed : WellFormed (reduce s ref canceled_shares it level holds.order)
  unfolding reduce level' shares_left erased
  reduce-WellFormed = elim (Bool-cases (shares_left == 0)) [
    | inl spent ↦ rw spent (close-WellFormed (erase_order it.id level'.orders) refl (ground arith))
    | inr some_left ↦ rw some_left keep-WellFormed
  ]

-- A call of `remove_order` follows no dangling iterator, and keeps the invariant.
pub remove_order-WellFormed :
    (s : LimitOrderBook) (ref canceled_shares : ℕ)
    → WellFormed s
    → (t : LimitOrderBook) × (remove_order s ref canceled_shares ≡ some t) × WellFormed t
unfolding remove_order remove_at follow
remove_order-WellFormed s ref canceled_shares w = elim (Option-cases (find_entry ref s.orders)) [
  | inl absent ↦ (s, rw (remove_order, absent), w)
  | inr (it, entry) ↦
      let l = w.leads ref it entry in
      (
        reduce s ref canceled_shares it l.level l.holds.order,
        rw (remove_order, entry, follow, l.found, l.holds.node),
        reduce-WellFormed s w ref canceled_shares it entry l.level l.found l.holds,
      )
]
