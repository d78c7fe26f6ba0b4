-- ===== src/L3Book/Placement.antt =====
-- The pool and the level after `add_order` of src/book/l3_book.cpp put a new node at the end of its queue.
use itchcpp.Prelude.{
  ℕ, ◌+◌, ◌<◌, ◌≤◌, ◌%◌, ◌^◌, ◌≡◌, refl, ◌∙◌, ap, subst, List, [], ◌∷◌, ◌++◌, Option, none, some,
  true, false, ◌==◌, if◌then◌else◌, length, length-append, arith,
}
use itchcpp.L3Book.{
  Side, buy, sell, OrderNode, Level, L3Book, nil, blank_node, node_at, new_level, side_levels,
}
use itchcpp.L3Book.Interface.{Index}
use itchcpp.L3Book.Vectors.{length-set, get_or-set}
use itchcpp.L3Book.Segments.{has, has_ne, Cells, Seg, Seg-frame}
use itchcpp.L3Book.Ladder.{lookup, lookup-price}
use itchcpp.L3Book.Updates.{lookup-le-orders_on}
use itchcpp.L3Book.Places.{level_or_new}
use itchcpp.L3Book.Queues.{SameOrder, Relinked, link_last-Relinked}
use itchcpp.L3Book.WellFormed.{cells, sum_shares, Holds, Fits, Resting, WellFormed}
use itchcpp.L3Book.Allocation.{Allocated}
use itchcpp.L3Book.Levels.{sum_shares-frame, side_levels-le-total}
use itchcpp.L3Book.Adding.{order_node, grown, filled, queued}

-- The level of a price, or a new one, describes the queue, which may be empty.
pub record Describes (f : Cells) (p : ℕ) (level : Level) (queue : List ℕ) : Type 0 where
  pub links : Seg f nil queue level.head level.tail nil
  pub total : level.total_shares ≡ sum_shares f queue % 2 ^ 64
  pub count : level.order_count ≡ length queue
  pub priced : level.price ≡ p

pub Fits-Describes :
    (f : Cells) (p : ℕ) (o : Option Level) (queue : List ℕ)
    → ((level : Level) → o ≡ some level → level.price ≡ p)
    → Fits f o queue
    → Describes f p (level_or_new p o) queue
unfolding new_level sum_shares
Fits-Describes f p none queue priced h =
    rw h (record { links = (refl, refl); total = omega arith; count = refl; priced = refl })
Fits-Describes f p (some level) queue priced h = record {
  links = h.links;
  total = h.total;
  count = h.count;
  priced = priced level refl;
}

pub sum_shares-append :
    (f : Cells) (xs ys : List ℕ) → sum_shares f (xs ++ ys) ≡ sum_shares f xs + sum_shares f ys
unfolding sum_shares
sum_shares-append f [] ys = omega arith
sum_shares-append f (x ∷ xs) ys = omega (arith, sum_shares-append f xs ys)

pub sum_shares-snoc :
    (f g : Cells) (xs : List ℕ) (i n : ℕ)
    → ((x : ℕ) → has x xs ≡ true → (g x).shares ≡ (f x).shares)
    → (g i).shares ≡ n
    → sum_shares g (xs ++ i ∷ []) ≡ sum_shares f xs + n
unfolding sum_shares
sum_shares-snoc f g xs i n same e =
    omega (arith, sum_shares-append g xs (i ∷ []), sum_shares-frame f g xs same)

module _ {T : Type 0} ⦃idx : Index T⦄ (b b1 : L3Book T) (w : WellFormed b) (i ref : ℕ) (s : Side)
    (n p : ℕ) (a : Allocated b b1 i w) where
  pub side_levels-Allocated : (c : Side) → side_levels b1 c ≡ side_levels b c
  unfolding side_levels
  side_levels-Allocated buy = a.bids_same
  side_levels-Allocated sell = a.asks_same

  pub old_level-Describes :
      Describes (cells b) p (level_or_new p (lookup p (side_levels b s))) (w.queues s p)
  old_level-Describes =
      Fits-Describes (cells b) p (lookup p (side_levels b s)) (w.queues s p)
        (λ level e. lookup-price p (side_levels b s) level e) (w.fits s p)

  pub queue-bound : length (w.queues s p) + length w.free ≤ length b.pool
  queue-bound = bounded (lookup p (side_levels b s)) refl (w.fits s p)
    where
      bounded :
          (o : Option Level)
          → lookup p (side_levels b s) ≡ o
          → Fits (cells b) o (w.queues s p)
          → length (w.queues s p) + length w.free ≤ length b.pool
      bounded none e h = omega (arith, ap length h, w.balance)
      bounded (some level) e h = omega (
        arith,
        h.count,
        lookup-le-orders_on p (side_levels b s) level e,
        side_levels-le-total b s,
        w.balance,
      )

  filled_node :
      (j : ℕ)
      → node_at (filled b1 i ref s n p) j
        ≡ (if i == j then order_node blank_node ref s n p else node_at b1.pool j)
  filled_node j =
      get_or-set b1.pool i j (order_node (node_at b1.pool i) ref s n p) blank_node a.bound
      ∙ ap (λ (m : OrderNode). if i == j then order_node m ref s n p else node_at b1.pool j) a.blank

  filled_other : (j : ℕ) → (i == j) ≡ false → node_at (filled b1 i ref s n p) j ≡ cells b j
  filled_other j ne = ground (arith, filled_node j, a.others j ne)

  -- The queue is one node longer.
  pub queued-Relinked :
      Relinked i
        (w.queues s p)
        (w.queues s p ++ i ∷ [])
        (filled b1 i ref s n p)
        (queued b1 i ref s n p).0
        (level_or_new p (lookup p (side_levels b s)))
        (queued b1 i ref s n p).1
  queued-Relinked = rw (side_levels-Allocated s) (
      link_last-Relinked (filled b1 i ref s n p) i (level_or_new p (lookup p (side_levels b s)))
        (rw (length-set b1.pool i (order_node (node_at b1.pool i) ref s n p)) a.room')
        (w.queues s p)
        (rw (length-set b1.pool i (order_node (node_at b1.pool i) ref s n p)) a.bound)
        (λ j m.
          rw (length-set b1.pool i (order_node (node_at b1.pool i) ref s n p))
            (in_pool j (w.resting s p j m)))
        (a.fresh s p)
        (Seg-frame (cells b) _ nil (w.queues s p) _ _ nil
          (λ j m. filled_other j (has_ne i j (w.queues s p) (a.fresh s p) m))
          old_level-Describes.links))
    where
      in_pool :
          (j : ℕ) → Resting (cells b) (length b.pool) (idx.find b.index) s p j → j < length b1.pool
      in_pool j r = omega (arith, r.bound, a.grows)

  pub order_kept :
      (j : ℕ) → (i == j) ≡ false → SameOrder (cells b j) (node_at (queued b1 i ref s n p).0 j)
  order_kept j ne =
      subst (λ (m : OrderNode). SameOrder m (node_at (queued b1 i ref s n p).0 j))
        (filled_other j ne) (queued-Relinked.orders_same j)

  pub order_new : SameOrder (order_node blank_node ref s n p) (node_at (queued b1 i ref s n p).0 i)
  order_new =
      subst (λ (m : OrderNode). SameOrder m (node_at (queued b1 i ref s n p).0 i))
        {x = node_at (filled b1 i ref s n p) i} {y = order_node blank_node ref s n p}
        (ground (arith, filled_node i)) (queued-Relinked.orders_same i)

  pub node_kept :
      (j : ℕ) → has j (i ∷ w.queues s p) ≡ false → node_at (queued b1 i ref s n p).0 j ≡ cells b j
  node_kept j out = queued-Relinked.others_same j out ∙ filled_other j (ground arith)

  pub queued-size : length (queued b1 i ref s n p).0 ≡ length b1.pool
  queued-size =
      queued-Relinked.size_same ∙ length-set b1.pool i (order_node (node_at b1.pool i) ref s n p)

  -- The level describes the longer queue.
  pub grown-Holds :
      Holds
        (node_at (queued b1 i ref s n p).0)
        (grown (queued b1 i ref s n p).1 n)
        (w.queues s p ++ i ∷ [])
  grown-Holds =
      let sums : sum_shares (node_at (queued b1 i ref s n p).0) (w.queues s p ++ i ∷ [])
          ≡ sum_shares (cells b) (w.queues s p) + n =
        sum_shares-snoc (cells b) _ (w.queues s p) i n
          (λ x m. (order_kept x (has_ne i x (w.queues s p) (a.fresh s p) m)).shares_same)
          order_new.shares_same in
      record {
        some_orders = omega (arith, length-append (w.queues s p) (i ∷ []));
        links = queued-Relinked.links;
        total = omega (arith, queued-Relinked.total_same, old_level-Describes.total, sums);
        count = omega (
          arith,
          queued-Relinked.count_same,
          old_level-Describes.count,
          queue-bound,
          a.counted,
          a.room',
          length-append (w.queues s p) (i ∷ []),
        );
      }
