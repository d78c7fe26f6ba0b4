-- ===== src/L3Book/TakeKeeps.antt =====
-- `execute_order` of src/book/l3_book.cpp where shares are left: only the shares of the order and the total of
-- its level change.
use itchcpp.Prelude.{
  ℕ, ◌+◌, ◌-◌, ◌<◌, ◌≡◌, refl, sym, ◌∙◌, ap, subst, List, ◌∷◌, ◌++◌, Option, some, true, false,
  ◌==◌, if◌then◌else◌, length, arith,
}
use itchcpp.L3Book.{
  Side, OrderNode, Level, L3Book, nil, blank_node, node_at, lower_bound, sub64, side_levels,
  put_levels, take_shares, find_level, level_of,
}
use itchcpp.L3Book.Interface.{Index, npos}
use itchcpp.L3Book.Vectors.{set, length-set, get_or-set}
use itchcpp.L3Book.Segments.{has, has_ne, Cells, Seg, Seg-links}
use itchcpp.L3Book.Ladder.{lookup, Sorted, lookup-price}
use itchcpp.L3Book.Updates.{orders_on}
use itchcpp.L3Book.Places.{settled, kept, Settled, settled-Settled}
use itchcpp.L3Book.WellFormed.{
  cells, here, sum_shares, Holds, Fits, FreeList, Resting, Unused, Found, WellFormed,
}
use itchcpp.L3Book.Allocation.{FreeList-frame, Unused-not_queued}
use itchcpp.L3Book.Levels.{
  total_orders-put, lookup-put, Sorted-put, Fits-put, sum_shares-frame, put_queue_self,
}
use itchcpp.L3Book.Dropping.{Target, searched}
use itchcpp.L3Book.Dropping.{find_level-Target}
use itchcpp.L3Book.Removal.{sum_shares-without, Seg-once}
use itchcpp.L3Book.Removal.{queue, in_queue, bound, elsewhere}

pub sum_shares-less :
    (f g : Cells) (i n : ℕ)
    → ((x : ℕ) → (i == x) ≡ false → (g x).shares ≡ (f x).shares)
    → (g i).shares + n ≡ (f i).shares
    → (xs zs : List ℕ) → has i (xs ++ zs) ≡ false
    → sum_shares g (xs ++ i ∷ zs) + n ≡ sum_shares f (xs ++ i ∷ zs)
sum_shares-less f g i n same less xs zs out = omega (
  arith,
  sum_shares-without f xs zs i,
  sum_shares-without g xs zs i,
  sum_shares-frame f g (xs ++ zs) (λ x m. same x (has_ne i x (xs ++ zs) out m)),
)

-- All but the shares of the one order stays.
pub record SameButShares (x y : OrderNode) : Type 0 where
  pub ref_same : y.reference_number ≡ x.reference_number
  pub price_same : y.price ≡ x.price
  pub side_same : y.side ≡ x.side
  pub next_same : y.next ≡ x.next
  pub prev_same : y.prev ≡ x.prev

module _ {T : Type 0} ⦃idx : Index T⦄ (b : L3Book T) (w : WellFormed b) (i ref : ℕ)
    (t : Target b w i ref) (removed : ℕ) (fewer : removed < (cells b i).shares) where
  abbrev pub reduced : Level
  reduced = record t.level { total_shares = sub64 t.level.total_shares removed }

  abbrev pub reduced_ladder : List Level
  reduced_ladder =
      set (side_levels b (cells b i).side)
        (lower_bound (cells b i).side (side_levels b (cells b i).side) (cells b i).price) reduced

  abbrev pub taken : L3Book T
  taken = record (put_levels b (cells b i).side reduced_ladder) {
    pool =
        set b.pool i (record (node_at b.pool i) { shares = (node_at b.pool i).shares - removed });
  }

  pub take_shares-taken : take_shares b i (node_at b.pool i) removed ≡ taken
  unfolding take_shares find_level level_of side_levels
  take_shares-taken =
      let found : find_level b (cells b i).side (cells b i).price
          ≡ lower_bound (cells b i).side (side_levels b (cells b i).side) (cells b i).price =
        (find_level-Target b w i ref t).0 in
      rw (found, (find_level-Target b w i ref t).1, (searched b w i ref t).is_there)

  pub node_taken :
      (j : ℕ)
      → cells taken j ≡ (
          if i == j
          then record (cells b i) { shares = (cells b i).shares - removed }
          else cells b j)
  node_taken j = get_or-set b.pool i j _ blank_node (bound b w i ref t)

  pub same_node : (j : ℕ) → (i == j) ≡ false → cells taken j ≡ cells b j
  same_node j ne = rw (node_taken j, ne)

  same_links : (j : ℕ) → SameButShares (cells b j) (cells taken j)
  same_links j = rw (node_taken j) (ground arith)

  pub taken-size : length (taken).pool ≡ length b.pool
  taken-size = length-set b.pool i _

  take-Resting :
      (c : Side) (q x : ℕ)
      → has x (w.queues c q) ≡ true
      → Resting (cells taken) (length (taken).pool) (idx.find b.index) c q x
  take-Resting c q x m =
      let r : Resting (cells b) (length b.pool) (idx.find b.index) c q x = w.resting c q x m in
      let o : SameButShares (cells b x) (cells taken x) = same_links x in
      record {
        bound = omega (arith, r.bound, taken-size);
        on_side = o.side_same ∙ r.on_side;
        at_price = o.price_same ∙ r.at_price;
        known = rw (o.ref_same) (r.known);
      }

  take-Unused :
      (x : ℕ)
      → has x w.free ≡ true
      → Unused (cells taken) (length (taken).pool) (idx.find b.index) x
  take-Unused x m =
      let u : Unused (cells b) (length b.pool) (idx.find b.index) x = w.unused x m in
      record {
        bound = omega (arith, u.bound, taken-size);
        unknown = rw ((same_links x).ref_same) (u.unknown);
      }

  take-FreeList : FreeList (cells taken) w.free b.free_head
  take-FreeList =
      FreeList-frame (cells b) (cells taken) w.free b.free_head
        (λ x m.
          let out : has x (queue b w i ref t) ≡ false =
            Unused-not_queued b w x (w.unused x m) (cells b i).side (cells b i).price in
          let ne : (x == i) ≡ false = has_ne x i (queue b w i ref t) out (in_queue b w i ref t) in
          same_node x (ground arith))
        w.free_list

  take-Found :
      (r : ℕ)
      → (idx.find b.index r == npos) ≡ false
      → Found (cells taken) w.queues r (idx.find b.index r)
  take-Found r known =
      let x : ℕ = idx.find b.index r in
      let f : Found (cells b) w.queues r x = w.found r known in
      let o : SameButShares (cells b x) (cells taken x) = same_links x in
      record { queued = rw (o.side_same, o.price_same) f.queued; named = o.ref_same ∙ f.named }

  reduced-Settled :
      Settled
        (cells b i).side
        (cells b i).price
        (side_levels b (cells b i).side)
        (w.sorted (cells b i).side)
        t.level
        reduced
        reduced_ladder
  reduced-Settled =
      let stays : (t.level.order_count == 0) ≡ false =
        ground (arith, t.describes.count, t.describes.some_orders) in
      let settling : Settled (cells b i).side (cells b i).price (side_levels b (cells b i).side)
          (w.sorted (cells b i).side) t.level reduced
          (settled (cells b i).side (cells b i).price (side_levels b (cells b i).side) reduced) =
        settled-Settled (cells b i).side (cells b i).price (side_levels b (cells b i).side)
          (w.sorted (cells b i).side) t.level reduced
          (lookup-price (cells b i).price (side_levels b (cells b i).side) t.level t.is_level)
          (searched b w i ref t) in
      rw stays at settling

  kept-reduced : kept reduced ≡ some reduced
  kept-reduced = ground (arith, t.describes.count, t.describes.some_orders)

  reduced-Holds : Holds (cells taken) reduced (queue b w i ref t)
  reduced-Holds =
      let once : has i (t.around.front ++ t.around.back) ≡ false =
        Seg-once (cells b) t.around.front t.around.back i nil t.level.head t.level.tail nil (
          subst (λ (l : List ℕ). Seg (cells b) nil l t.level.head t.level.tail nil) t.around.whole
            t.describes.links) in
      let less : (cells taken i).shares + removed ≡ (cells b i).shares =
        ground (arith, node_taken i) in
      let sums : sum_shares (cells taken) (queue b w i ref t) + removed
          ≡ sum_shares (cells b) (queue b w i ref t) =
        rw (t.around.whole) (
          sum_shares-less (cells b) (cells taken) i removed
            (λ x ne. ap (λ (n : OrderNode). n.shares) (same_node x ne)) less t.around.front
            t.around.back once) in
      record {
        some_orders = t.describes.some_orders;
        links =
            Seg-links (cells b) (cells taken) nil (queue b w i ref t) t.level.head t.level.tail nil
              (λ j. ((same_links j).next_same, (same_links j).prev_same)) t.describes.links;
        total = omega (arith, t.describes.total, sums);
        count = t.describes.count;
      }

  lookup-taken :
      (c : Side) (q : ℕ)
      → lookup q (side_levels taken c) ≡ (
          if here (cells b i).side (cells b i).price c q
          then some reduced
          else lookup q (side_levels b c))
  unfolding side_levels
  lookup-taken c q =
      lookup-put b (cells b i).side (cells b i).price (some reduced) reduced_ladder
        (λ r.
          reduced-Settled.looked_up r
          ∙ ap
              (λ (o : Option Level).
                if (cells b i).price == r then o else lookup r (side_levels b (cells b i).side))
              kept-reduced)
        c q

  Sorted-taken : (c : Side) → Sorted c (side_levels taken c)
  unfolding side_levels
  Sorted-taken c =
      Sorted-put b (cells b i).side reduced_ladder w.sorted reduced-Settled.stays_sorted c

  Fits-taken :
      (c : Side) (q : ℕ) → Fits (cells taken) (lookup q (side_levels taken c)) (w.queues c q)
  Fits-taken c q =
      subst (Fits (cells taken) (lookup q (side_levels taken c)))
        (put_queue_self w.queues (cells b i).side (cells b i).price c q)
        (Fits-put b w (cells taken) (side_levels taken) (cells b i).side (cells b i).price i
          (some reduced) (queue b w i ref t) lookup-taken reduced-Holds
          (λ j out. same_node j (ground arith)) (elsewhere b w i ref t) c q)

  take_balance :
      orders_on (taken).bids + orders_on (taken).asks + length w.free ≡ length (taken).pool
  take_balance = omega (
    arith,
    total_orders-put b (cells b i).side reduced_ladder,
    reduced-Settled.counted,
    w.balance,
    taken-size,
  )

  pub taken-WellFormed : WellFormed taken
  taken-WellFormed = record {
    queues = w.queues;
    free = w.free;
    fits = Fits-taken;
    resting = take-Resting;
    unused = take-Unused;
    free_list = take-FreeList;
    found = take-Found;
    sorted = Sorted-taken;
    balance = take_balance;
    room = rw taken-size w.room;
  }

  pub taken-queues : (c : Side) (q : ℕ) → taken-WellFormed.queues c q ≡ w.queues c q
  unfolding taken-WellFormed
  taken-queues c q = refl

  pub take_shares-WellFormed : WellFormed (take_shares b i (node_at b.pool i) removed)
  take_shares-WellFormed = subst WellFormed (sym take_shares-taken) taken-WellFormed
