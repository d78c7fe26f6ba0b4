-- ===== src/L3Book/DropKeeps.antt =====
-- The removal of an order from the book of src/book/l3_book.cpp keeps the invariant: its node goes from its
-- queue to the free list.
use itchcpp.Prelude.{
  ℕ, ◌+◌, ◌≡◌, refl, sym, ◌∙◌, ap, subst, ◌∷◌, true, false, inl, inr, Bool-cases, ◌==◌,
  if◌then◌else◌, length, arith,
}
use itchcpp.L3Book.{Side, L3Book, blank_node, side_levels, put_levels, drop_node}
use itchcpp.L3Book.Interface.{Index, npos}
use itchcpp.L3Book.Vectors.{length-set}
use itchcpp.L3Book.Segments.{has, has_ne}
use itchcpp.L3Book.Ladder.{lookup, Sorted}
use itchcpp.L3Book.Updates.{orders_on}
use itchcpp.L3Book.Places.{kept}
use itchcpp.L3Book.Queues.{SameOrder}
use itchcpp.L3Book.Unlinking.{unlinked}
use itchcpp.L3Book.WellFormed.{cells, here, FreeList, Resting, Unused, Found, WellFormed}
use itchcpp.L3Book.Allocation.{FreeList-frame, Unused-not_queued}
use itchcpp.L3Book.Levels.{put_queue, total_orders-put, lookup-put, Sorted-put, Fits-put}
use itchcpp.L3Book.Dropping.{shrunk_ladder, dropped, Target, drop_node-dropped}
use itchcpp.L3Book.Removal.{
  queue, rest, nodes, in_queue, bound, pool'-size, node_new, order_kept, node_kept, new_level,
  new_count, new-Fits, Settled-ladder, find_dropped, other_ref, rest_queues, elsewhere, not_in_rest,
  queue_count,
}

module _ {T : Type 0} ⦃idx : Index T⦄ (b : L3Book T) (w : WellFormed b) (i ref : ℕ)
    (t : Target b w i ref) where
  pub dropped-size : length (dropped b i ref t.level).pool ≡ length b.pool
  dropped-size =
      length-set (unlinked b.pool i t.level).0 i (record blank_node { next = b.free_head })
      ∙ pool'-size b w i ref t

  drop-Resting :
      (c : Side) (q x : ℕ)
      → has x (put_queue w.queues (cells b i).side (cells b i).price (rest b w i ref t) c q) ≡ true
      → Resting
          (nodes b w i ref t)
          (length (dropped b i ref t.level).pool)
          (idx.find (dropped b i ref t.level).index)
          c
          q
          x
  drop-Resting c q x m = elim (Bool-cases (i == x)) [
    | inl same ↦
        let e : i ≡ x = ground arith in absurd (cc (not_in_rest b w i ref t c q, rw (sym e) at m))
    | inr other ↦
        let r : Resting (cells b) (length b.pool) (idx.find b.index) c q x =
          w.resting c q x (sym (rest_queues b w i ref t c q x other) ∙ m) in
        let o : SameOrder (cells b x) (nodes b w i ref t x) = order_kept b w i ref t x other in
        record {
          bound = omega (arith, r.bound, dropped-size);
          on_side = o.side_same ∙ r.on_side;
          at_price = o.price_same ∙ r.at_price;
          known =
              rw
                (
                  o.ref_same,
                  find_dropped b w i ref t (cells b x).reference_number,
                  other_ref b w i ref t x (cells b x).reference_number r.known other,
                )
                r.known;
        }
  ]

  -- No other reference number leads to the node.
  only_ref : (r : ℕ) → idx.find b.index r ≡ i → ref ≡ r
  only_ref r e =
      let valid : (idx.find b.index r == npos) ≡ false = rw e t.valid in
      sym t.named ∙ ap (λ (x : ℕ). (cells b x).reference_number) (sym e) ∙ (w.found r valid).named

  not_to_freed : (r : ℕ) → (idx.find (dropped b i ref t.level).index r == i) ≡ false
  not_to_freed r = elim (Bool-cases (ref == r)) [
    | inl same ↦ rw (find_dropped b w i ref t r, same) (ground (arith, t.valid))
    | inr other ↦ elim (Bool-cases (idx.find b.index r == i)) [
      | inl there ↦ absurd (ground (arith, only_ref r))
      | inr off ↦ rw (find_dropped b w i ref t r, other) off
    ]
  ]

  drop-Unused :
      (x : ℕ)
      → has x (i ∷ w.free) ≡ true
      → Unused
          (nodes b w i ref t)
          (length (dropped b i ref t.level).pool)
          (idx.find (dropped b i ref t.level).index)
          x
  drop-Unused x m = elim (Bool-cases (i == x)) [
    | inl same ↦
        let e : i ≡ x = ground arith in
        rw (sym e) (record {
          bound = omega (arith, bound b w i ref t, dropped-size);
          unknown = not_to_freed (nodes b w i ref t i).reference_number;
        })
    | inr other ↦
        let u : Unused (cells b) (length b.pool) (idx.find b.index) x = w.unused x (ground arith) in
        let o : SameOrder (cells b x) (nodes b w i ref t x) = order_kept b w i ref t x other in
        record {
          bound = omega (arith, u.bound, dropped-size);
          unknown =
              rw (o.ref_same, find_dropped b w i ref t (cells b x).reference_number)
                (ground (arith, u.unknown, u.bound, w.room));
        }
  ]

  free_not_queued : (x : ℕ) → has x w.free ≡ true → has x (i ∷ queue b w i ref t) ≡ false
  free_not_queued x m =
      let out : has x (queue b w i ref t) ≡ false =
        Unused-not_queued b w x (w.unused x m) (cells b i).side (cells b i).price in
      ground (arith, has_ne x i (queue b w i ref t) out (in_queue b w i ref t))

  drop-FreeList : FreeList (nodes b w i ref t) (i ∷ w.free) i
  drop-FreeList = (
    refl,
    not_free,
    rw head (
        FreeList-frame (cells b) (nodes b w i ref t) w.free b.free_head
          (λ x m. node_kept b w i ref t x (free_not_queued x m)) w.free_list),
  )
    where
      not_free : has i w.free ≡ false
      not_free = elim (Bool-cases (has i w.free)) [
        | inl m ↦ absurd (ground (arith, free_not_queued i m))
        | inr out ↦ out
      ]

      head : (nodes b w i ref t i).next ≡ b.free_head
      head = ground (arith, node_new b w i ref t i)

  drop-Found :
      (r : ℕ)
      → (idx.find (dropped b i ref t.level).index r == npos) ≡ false
      → Found
          (nodes b w i ref t)
          (put_queue w.queues (cells b i).side (cells b i).price (rest b w i ref t))
          r
          (idx.find (dropped b i ref t.level).index r)
  drop-Found r known = elim (Bool-cases (ref == r)) [
    | inl same ↦ absurd (ground (arith, find_dropped b w i ref t r))
    | inr other ↦
        let x : ℕ = idx.find b.index r in
        let there : idx.find (dropped b i ref t.level).index r ≡ x =
          ground (arith, find_dropped b w i ref t r) in
        let f : Found (cells b) w.queues r x = w.found r (rw there at known) in
        let ne : (i == x) ≡ false = ground (arith, not_to_freed r) in
        let o : SameOrder (cells b x) (nodes b w i ref t x) = order_kept b w i ref t x ne in
        rw there (record {
          queued =
              rw (o.side_same, o.price_same)
                (rest_queues b w i ref t (cells b x).side (cells b x).price x ne ∙ f.queued);
          named = o.ref_same ∙ f.named;
        })
  ]

  side_levels-dropped :
      (c : Side)
      → side_levels (dropped b i ref t.level) c
        ≡ side_levels (put_levels b (cells b i).side (shrunk_ladder b i t.level)) c
  unfolding side_levels
  side_levels-dropped c = refl

  lookup-dropped :
      (c : Side) (q : ℕ)
      → lookup q (side_levels (dropped b i ref t.level) c) ≡ (
          if here (cells b i).side (cells b i).price c q
          then kept (new_level b w i ref t)
          else lookup q (side_levels b c))
  lookup-dropped c q =
      ap (lookup q) (side_levels-dropped c)
      ∙ lookup-put b (cells b i).side (cells b i).price (kept (new_level b w i ref t))
          (shrunk_ladder b i t.level) (Settled-ladder b w i ref t).looked_up c q

  Sorted-dropped : (c : Side) → Sorted c (side_levels (dropped b i ref t.level) c)
  Sorted-dropped c = subst (Sorted c) (sym (side_levels-dropped c)) (
      Sorted-put b (cells b i).side (shrunk_ladder b i t.level) w.sorted
        (Settled-ladder b w i ref t).stays_sorted c)

  drop_balance :
      orders_on (dropped b i ref t.level).bids
        + orders_on (dropped b i ref t.level).asks
        + length (i ∷ w.free)
      ≡ length (dropped b i ref t.level).pool
  drop_balance = omega (
    arith,
    total_orders-put b (cells b i).side (shrunk_ladder b i t.level),
    (Settled-ladder b w i ref t).counted,
    new_count b w i ref t,
    queue_count b w i ref t,
    t.describes.count,
    w.balance,
    dropped-size,
  )

  pub dropped-WellFormed : WellFormed (dropped b i ref t.level)
  dropped-WellFormed = record {
    queues = put_queue w.queues (cells b i).side (cells b i).price (rest b w i ref t);
    free = i ∷ w.free;
    fits =
        Fits-put b w (nodes b w i ref t) (λ c. side_levels (dropped b i ref t.level) c)
          (cells b i).side (cells b i).price i (kept (new_level b w i ref t)) (rest b w i ref t)
          lookup-dropped (new-Fits b w i ref t) (node_kept b w i ref t) (elsewhere b w i ref t);
    resting = drop-Resting;
    unused = drop-Unused;
    free_list = drop-FreeList;
    found = drop-Found;
    sorted = Sorted-dropped;
    balance = drop_balance;
    room = rw dropped-size w.room;
  }

  pub dropped-queues :
      (c : Side) (q : ℕ)
      → dropped-WellFormed.queues c q
        ≡ put_queue w.queues (cells b i).side (cells b i).price (rest b w i ref t) c q
  unfolding dropped-WellFormed
  dropped-queues c q = refl

  pub drop_node-WellFormed : WellFormed (drop_node b i ref)
  drop_node-WellFormed = subst WellFormed (sym (drop_node-dropped b w i ref t)) dropped-WellFormed
