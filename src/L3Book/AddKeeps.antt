-- ===== src/L3Book/AddKeeps.antt =====
-- `add_order` of src/book/l3_book.cpp keeps the invariant, and appends the order to the queue of its side
-- and price.
use itchcpp.Prelude.{
  ℕ, suc, ◌+◌, ◌<◌, ◌≤◌, ◌≡◌, refl, sym, ◌∙◌, ap, subst, List, [], ◌∷◌, ◌++◌, Option, some, true,
  false, inl, inr, Bool-cases, ◌==◌, if◌then◌else◌, length, length-append, arith,
}
use itchcpp.L3Book.{
  Side, buy, sell, Level, L3Book, nil, blank_node, node_at, lower_bound, side_levels, put_levels,
  allocate_node, add_order, contains,
}
use itchcpp.L3Book.Interface.{Index, npos}
use itchcpp.L3Book.Vectors.{set}
use itchcpp.L3Book.Segments.{has, has_ne, has-append, Cells}
use itchcpp.L3Book.Ladder.{lookup, Sorted}
use itchcpp.L3Book.Updates.{orders_on, length-le-orders_on}
use itchcpp.L3Book.Places.{level_or_new, prepared, Written, prepared-Written}
use itchcpp.L3Book.Queues.{SameOrder}
use itchcpp.L3Book.WellFormed.{
  cells, here, Holds, Fits, FreeList, Resting, Unused, Found, WellFormed,
}
use itchcpp.L3Book.Allocation.{
  Allocated, FreeList-frame, Unused-not_queued, allocate_node-Allocated,
}
use itchcpp.L3Book.Levels.{
  put_queue, here-eq, here_refl, total_orders-put, side_levels-le-total, lookup-put, Sorted-put,
  Fits-put,
}
use itchcpp.L3Book.Adding.{order_node, grown, queued, laddered, placed, place_node-placed}
use itchcpp.L3Book.Placement.{
  side_levels-Allocated, old_level-Describes, queued-Relinked, order_kept, order_new, node_kept,
  queued-size, grown-Holds,
}

-- A level has an order, so there are no more levels than nodes.
module _ {T : Type 0} ⦃idx : Index T⦄ (b : L3Book T) (w : WellFormed b) where
  level_counts :
      (s : Side) (p : ℕ) (l : Level) → lookup p (side_levels b s) ≡ some l → 0 < l.order_count
  level_counts s p l e =
      let h : Holds (cells b) l (w.queues s p) =
        subst (λ (o : Option Level). Fits (cells b) o (w.queues s p)) e (w.fits s p) in
      omega (arith, h.count, h.some_orders)

  pub levels-bound : (s : Side) → length (side_levels b s) ≤ length b.pool
  levels-bound s = omega (
    arith,
    length-le-orders_on s (side_levels b s) (w.sorted s) (level_counts s),
    side_levels-le-total b s,
    w.balance,
  )

module _ {T : Type 0} ⦃idx : Index T⦄ (b b1 : L3Book T) (w : WellFormed b) (i ref : ℕ) (s : Side)
    (n p : ℕ) (a : Allocated b b1 i w) (absent : idx.find b.index ref ≡ npos) where
  written :
      Written s p
        (side_levels b s)
        (w.sorted s)
        (level_or_new p (lookup p (side_levels b s)))
        (grown (queued b1 i ref s n p).1 n)
        (laddered b1 i ref s n p)
  written =
      let level : Level = grown (queued b1 i ref s n p).1 n in
      subst
        (λ (ls : List Level).
          Written s p (side_levels b s) (w.sorted s) (level_or_new p (lookup p (side_levels b s)))
            level (set (prepared s p ls) (lower_bound s ls p) level))
        (sym (side_levels-Allocated b b1 w i ref s n p a s))
        (prepared-Written s p (side_levels b s) (w.sorted s) level priced).0
    where
      priced : (grown (queued b1 i ref s n p).1 n).price ≡ p
      priced =
          (queued-Relinked b b1 w i ref s n p a).price_same
          ∙ (old_level-Describes b b1 w i ref s n p a).priced

  find_placed :
      (r : ℕ)
      → idx.find (placed b1 i ref s n p).index r ≡ (if ref == r then i else idx.find b.index r)
  find_placed r = rw (idx.find-insert b1.index ref i r, a.index_same)

  queue_keeps :
      (c : Side) (q x : ℕ)
      → has x (w.queues c q) ≡ true
      → has x (put_queue w.queues s p (w.queues s p ++ i ∷ []) c q) ≡ true
  queue_keeps c q x m = elim (Bool-cases (here s p c q)) [
    | inl this ↦
        let (e, k) = here-eq s p c q this in
        let m' : has x (w.queues s p) ≡ true = rw (e, k) m in
        rw this (ground (arith, has-append x (w.queues s p) (i ∷ [])))
    | inr other ↦ rw other m
  ]

  find_kept :
      (x : ℕ)
      → idx.find b.index (cells b x).reference_number ≡ x
      → x < nil
      → idx.find (placed b1 i ref s n p).index (cells b x).reference_number ≡ x
  find_kept x known small = ground (arith, find_placed (cells b x).reference_number)

  -- The nodes after the addition
  abbrev nodes : Cells
  nodes = node_at (queued b1 i ref s n p).0

  find_new : idx.find (placed b1 i ref s n p).index ref ≡ i
  find_new = ground (arith, find_placed ref)

  new-Resting :
      Resting nodes
        (length (queued b1 i ref s n p).0)
        (idx.find (placed b1 i ref s n p).index)
        s
        p
        i
  new-Resting =
      let o : SameOrder (order_node blank_node ref s n p) (nodes i) =
        order_new b b1 w i ref s n p a in
      record {
        bound = omega (arith, a.bound, queued-size b b1 w i ref s n p a);
        on_side = o.side_same;
        at_price = o.price_same;
        known = rw (o.ref_same) find_new;
      }

  add-Resting :
      (c : Side) (q x : ℕ)
      → has x (put_queue w.queues s p (w.queues s p ++ i ∷ []) c q) ≡ true
      → Resting nodes
          (length (queued b1 i ref s n p).0)
          (idx.find (placed b1 i ref s n p).index)
          c
          q
          x
  add-Resting c q x m = elim (Bool-cases (i == x)) [
    | inl new ↦
        let e : i ≡ x = ground arith in
        let (k, l) = here-eq s p c q (is_here c q x m e) in rw (sym e, sym k, sym l) new-Resting
    | inr old ↦
        let r : Resting (cells b) (length b.pool) (idx.find b.index) c q x =
          w.resting c q x (was_queued c q x m old) in
        let o : SameOrder (cells b x) (nodes x) = order_kept b b1 w i ref s n p a x old in
        record {
          bound = omega (arith, r.bound, a.grows, queued-size b b1 w i ref s n p a);
          on_side = o.side_same ∙ r.on_side;
          at_price = o.price_same ∙ r.at_price;
          known = rw (o.ref_same) (find_kept x r.known (omega (arith, r.bound, w.room)));
        }
  ]
    where
      was_queued :
          (c : Side) (q x : ℕ)
          → has x (put_queue w.queues s p (w.queues s p ++ i ∷ []) c q) ≡ true
          → (i == x) ≡ false
          → has x (w.queues c q) ≡ true
      was_queued c q x m old = elim (Bool-cases (here s p c q)) [
        | inl this ↦
            let (e, k) = here-eq s p c q this in
            let m' : has x (w.queues s p ++ i ∷ []) ≡ true = rw this at m in
            rw (sym e, sym k) (ground (arith, has-append x (w.queues s p) (i ∷ [])))
        | inr other ↦ rw other at m
      ]

      is_here :
          (c : Side) (q x : ℕ)
          → has x (put_queue w.queues s p (w.queues s p ++ i ∷ []) c q) ≡ true
          → i ≡ x
          → here s p c q ≡ true
      is_here c q x m e = elim (Bool-cases (here s p c q)) [
        | inl this ↦ this
        | inr other ↦
            let m' : has x (w.queues c q) ≡ true = rw other at m in
            let m'' : has i (w.queues c q) ≡ true = rw e m' in absurd (ground (arith, a.fresh c q))
      ]

  add-Unused :
      (x : ℕ)
      → has x a.free' ≡ true
      → Unused nodes (length (queued b1 i ref s n p).0) (idx.find (placed b1 i ref s n p).index) x
  add-Unused x m =
      let u : Unused (cells b) (length b.pool) (idx.find b.index) x =
        w.unused x (a.from_free x m) in
      let ne : (i == x) ≡ false = has_ne i x a.free' a.taken m in
      let o : SameOrder (cells b x) (nodes x) = order_kept b b1 w i ref s n p a x ne in
      record {
        bound = omega (arith, u.bound, a.grows, queued-size b b1 w i ref s n p a);
        unknown =
            rw (o.ref_same, find_placed (cells b x).reference_number) (ground (arith, u.unknown));
      }

  add-FreeList : FreeList nodes a.free' b1.free_head
  add-FreeList =
      FreeList-frame (cells b1) nodes a.free' b1.free_head
        (λ x m.
          let ne : (i == x) ≡ false = has_ne i x a.free' a.taken m in
          let out : has x (w.queues s p) ≡ false =
            Unused-not_queued b w x (w.unused x (a.from_free x m)) s p in
          node_kept b b1 w i ref s n p a x (ground arith) ∙ sym (a.others x ne))
        a.list'

  add-Found :
      (r : ℕ)
      → (idx.find (placed b1 i ref s n p).index r == npos) ≡ false
      → Found nodes
          (put_queue w.queues s p (w.queues s p ++ i ∷ []))
          r
          (idx.find (placed b1 i ref s n p).index r)
  add-Found r known = elim (Bool-cases (ref == r)) [
    | inl same ↦
        let e : ref ≡ r = ground arith in
        let o : SameOrder (order_node blank_node ref s n p) (nodes i) =
          order_new b b1 w i ref s n p a in
        let queued_here : has i (put_queue w.queues s p (w.queues s p ++ i ∷ []) s p) ≡ true =
          rw (here_refl s p) (ground (arith, has-append i (w.queues s p) (i ∷ []))) in
        rw (find_placed r, same)
          (record { queued = rw (o.side_same, o.price_same) queued_here; named = o.ref_same ∙ e })
    | inr other ↦
        let there : idx.find (placed b1 i ref s n p).index r ≡ idx.find b.index r =
          ground (arith, find_placed r) in
        let x : ℕ = idx.find b.index r in
        let f : Found (cells b) w.queues r x = w.found r (rw there at known) in
        let ne : (i == x) ≡ false =
          has_ne i x (w.queues (cells b x).side (cells b x).price)
            (a.fresh (cells b x).side (cells b x).price) f.queued in
        let o : SameOrder (cells b x) (nodes x) = order_kept b b1 w i ref s n p a x ne in
        rw there (record {
          queued =
              rw (o.side_same, o.price_same)
                (queue_keeps (cells b x).side (cells b x).price x f.queued);
          named = o.ref_same ∙ f.named;
        })
  ]

  side_levels-placed :
      (c : Side)
      → side_levels (placed b1 i ref s n p) c
        ≡ side_levels (put_levels b1 s (laddered b1 i ref s n p)) c
  unfolding side_levels
  side_levels-placed buy = refl
  side_levels-placed sell = refl

  lookup-placed :
      (c : Side) (q : ℕ)
      → lookup q (side_levels (placed b1 i ref s n p) c) ≡ (
          if here s p c q
          then some (grown (queued b1 i ref s n p).1 n)
          else lookup q (side_levels b c))
  lookup-placed c q =
      let level : Level = grown (queued b1 i ref s n p).1 n in
      let same : (d : Side) → side_levels b1 d ≡ side_levels b d =
        side_levels-Allocated b b1 w i ref s n p a in
      ap (lookup q) (side_levels-placed c)
      ∙ lookup-put b1 s p (some level) (laddered b1 i ref s n p)
          (λ r.
            written.looked_up r
            ∙ ap (λ (ls : List Level). if p == r then some level else lookup r ls) (sym (same s)))
          c q
      ∙ ap (λ (ls : List Level). if here s p c q then some level else lookup q ls) (same c)

  Sorted-placed : (c : Side) → Sorted c (side_levels (placed b1 i ref s n p) c)
  Sorted-placed c = subst (Sorted c) (sym (side_levels-placed c)) (
      Sorted-put b1 s (laddered b1 i ref s n p)
        (λ d. subst (Sorted d) (sym (side_levels-Allocated b b1 w i ref s n p a d)) (w.sorted d))
        written.stays_sorted c)

  add_balance :
      orders_on (placed b1 i ref s n p).bids
        + orders_on (placed b1 i ref s n p).asks
        + length a.free'
      ≡ length (queued b1 i ref s n p).0
  add_balance = omega (
    arith,
    total_orders-put b1 s (laddered b1 i ref s n p),
    written.counted,
    ap orders_on (side_levels-Allocated b b1 w i ref s n p a s),
    ap orders_on a.bids_same,
    ap orders_on a.asks_same,
    w.balance,
    a.counted,
    (grown-Holds b b1 w i ref s n p a).count,
    (old_level-Describes b b1 w i ref s n p a).count,
    length-append (w.queues s p) (i ∷ []),
    queued-size b b1 w i ref s n p a,
  )

  pub placed-WellFormed : WellFormed (placed b1 i ref s n p)
  placed-WellFormed = record {
    queues = put_queue w.queues s p (w.queues s p ++ i ∷ []);
    free = a.free';
    fits =
        Fits-put b w nodes (λ c. side_levels (placed b1 i ref s n p) c) s p i
          (some (grown (queued b1 i ref s n p).1 n)) (w.queues s p ++ i ∷ []) lookup-placed
          (grown-Holds b b1 w i ref s n p a) (node_kept b b1 w i ref s n p a)
          (λ c q other. a.fresh c q);
    resting = add-Resting;
    unused = add-Unused;
    free_list = add-FreeList;
    found = add-Found;
    sorted = Sorted-placed;
    balance = add_balance;
    room = rw (queued-size b b1 w i ref s n p a) a.room';
  }

  pub placed-queues :
      (c : Side) (q : ℕ)
      → placed-WellFormed.queues c q ≡ put_queue w.queues s p (w.queues s p ++ i ∷ []) c q
  unfolding placed-WellFormed
  placed-queues c q = refl

-- What `add_order` does to a reference number that is not in the book.
module _ {T : Type 0} ⦃idx : Index T⦄ (b : L3Book T) (w : WellFormed b) (ref : ℕ) (s : Side)
    (n p : ℕ) (small : length b.pool < nil) (absent : contains b ref ≡ false) where
  absent_index : idx.find b.index ref ≡ npos
  absent_index = unfold contains in ground arith

  pub add_order-placed :
      add_order b ref s n p ≡ placed (allocate_node b).0 (allocate_node b).1 ref s n p
  unfolding add_order
  add_order-placed =
      let a : Allocated b (allocate_node b).0 (allocate_node b).1 w =
        allocate_node-Allocated b w small in
      let same : side_levels (allocate_node b).0 s ≡ side_levels b s =
        side_levels-Allocated b (allocate_node b).0 w (allocate_node b).1 ref s n p a s in
      rw absent_index (
        place_node-placed (allocate_node b).0 (allocate_node b).1 ref s n p
          (subst (Sorted s) (sym same) (w.sorted s))
          (omega (arith, ap length same, levels-bound b w s, w.room)))

  pub add_order-WellFormed : WellFormed (add_order b ref s n p)
  add_order-WellFormed = subst WellFormed (sym add_order-placed) (
      placed-WellFormed b (allocate_node b).0 w (allocate_node b).1 ref s n p
        (allocate_node-Allocated b w small) absent_index)

  pub add_order-size : length (add_order b ref s n p).pool ≤ suc (length b.pool)
  add_order-size =
      let a : Allocated b (allocate_node b).0 (allocate_node b).1 w =
        allocate_node-Allocated b w small in
      rw add_order-placed (
        omega
          (arith, a.by_one, queued-size b (allocate_node b).0 w (allocate_node b).1 ref s n p a))
