-- ===== src/L3Book/Removal.antt =====
-- The pool and the level after an order was removed from the book of src/book/l3_book.cpp: its node is out of
-- its queue.
use itchcpp.Prelude.{
  ℕ, suc, ◌+◌, ◌<◌, ◌≤◌, ◌%◌, ◌^◌, ◌≡◌, refl, sym, ◌∙◌, ap, subst, List, [], ◌∷◌, ◌++◌, true, false,
  inl, inr, Bool-cases, ◌==◌, if◌then◌else◌, length, length-append, arith,
}
use itchcpp.L3Book.{Side, OrderNode, Level, L3Book, nil, blank_node, node_at, side_levels}
use itchcpp.L3Book.Interface.{Index, npos}
use itchcpp.L3Book.Vectors.{get_or-set}
use itchcpp.L3Book.Segments.{has, has_ne, has-append, Cells, Seg, Split, Seg-Split, Seg-frame}
use itchcpp.L3Book.Ladder.{lookup-price}
use itchcpp.L3Book.Updates.{lookup-le-orders_on}
use itchcpp.L3Book.Places.{kept, Settled, settled-Settled}
use itchcpp.L3Book.Queues.{SameOrder, Relinked}
use itchcpp.L3Book.Unlinking.{unlinked, unlinked-Relinked}
use itchcpp.L3Book.WellFormed.{cells, here, sum_shares, Fits, WellFormed}
use itchcpp.L3Book.Levels.{put_queue, here-eq, queues-apart, side_levels-le-total, sum_shares-frame}
use itchcpp.L3Book.Placement.{sum_shares-append}
use itchcpp.L3Book.Dropping.{shrunk, shrunk_ladder, dropped, Target, searched}

-- A node is once in its queue.
pub Seg-once :
    (f : Cells) (xs zs : List ℕ) (i first head tail last : ℕ)
    → Seg f first (xs ++ i ∷ zs) head tail last
    → has i (xs ++ zs) ≡ false
Seg-once f xs zs i first head tail last s =
    let sp : Split f first xs (i ∷ zs) head tail last =
      Seg-Split f first xs (i ∷ zs) head tail last s in
    let out : has i zs ≡ false = sp.back.1 in ground (arith, has-append i xs zs, sp.apart i)

pub has-without :
    (x i : ℕ) (xs zs : List ℕ) → (i == x) ≡ false → has x (xs ++ i ∷ zs) ≡ has x (xs ++ zs)
has-without x i xs zs ne = ground (arith, has-append x xs (i ∷ zs), has-append x xs zs)

pub sum_shares-without :
    (f : Cells) (xs zs : List ℕ) (i : ℕ)
    → sum_shares f (xs ++ i ∷ zs) ≡ sum_shares f (xs ++ zs) + (f i).shares
unfolding sum_shares
sum_shares-without f xs zs i =
    omega (arith, sum_shares-append f xs (i ∷ zs), sum_shares-append f xs zs)

pub length-without : (xs zs : List ℕ) (i : ℕ) → length (xs ++ i ∷ zs) ≡ suc (length (xs ++ zs))
length-without xs zs i = omega (arith, length-append xs (i ∷ zs), length-append xs zs)

module _ {T : Type 0} ⦃idx : Index T⦄ (b : L3Book T) (w : WellFormed b) (i ref : ℕ)
    (t : Target b w i ref) where
  -- The side, the price and the queue of the order, and the queue without it
  abbrev pub side : Side
  side = (cells b i).side

  abbrev pub price : ℕ
  price = (cells b i).price

  abbrev pub queue : List ℕ
  queue = w.queues side price

  abbrev pub rest : List ℕ
  rest = t.around.front ++ t.around.back

  abbrev pub pool' : List OrderNode
  pool' = (unlinked b.pool i t.level).0

  abbrev pub nodes : Cells
  nodes = cells (dropped b i ref t.level)

  pub in_queue : has i queue ≡ true
  in_queue = rw (t.around.whole) (ground (arith, has-append i t.around.front (i ∷ t.around.back)))

  pub bound : i < length b.pool
  bound = (w.resting side price i in_queue).bound

  pub relinked :
      Relinked i
        (t.around.front ++ i ∷ t.around.back)
        rest
        b.pool
        pool'
        t.level
        (unlinked b.pool i t.level).1
  relinked =
      unlinked-Relinked b.pool i t.level t.around.front t.around.back w.room
        (λ j m. (w.resting side price j (rw (t.around.whole) m)).bound)
        (subst (λ (l : List ℕ). Seg (cells b) nil l t.level.head t.level.tail nil) t.around.whole
          t.describes.links)

  pub pool'-size : length pool' ≡ length b.pool
  pool'-size = relinked.size_same

  pub node_new :
      (j : ℕ)
      → nodes j ≡ (if i == j then record blank_node { next = b.free_head } else node_at pool' j)
  node_new j =
      get_or-set pool' i j (record blank_node { next = b.free_head }) blank_node
        (rw pool'-size bound)

  pub order_kept : (j : ℕ) → (i == j) ≡ false → SameOrder (cells b j) (nodes j)
  order_kept j ne = rw (node_new j, ne) (relinked.orders_same j)

  pub node_kept : (j : ℕ) → has j (i ∷ queue) ≡ false → nodes j ≡ cells b j
  node_kept j out =
      let out' : has j (i ∷ t.around.front ++ i ∷ t.around.back) ≡ false =
        subst (λ (l : List ℕ). has j (i ∷ l) ≡ false) t.around.whole out in
      ground (arith, node_new j, relinked.others_same j out')

  pub out_of_rest : has i rest ≡ false
  out_of_rest =
      Seg-once (cells b) t.around.front t.around.back i nil t.level.head t.level.tail nil (
        subst (λ (l : List ℕ). Seg (cells b) nil l t.level.head t.level.tail nil) t.around.whole
          t.describes.links)

  pub in_rest : (x : ℕ) → (i == x) ≡ false → has x queue ≡ has x rest
  in_rest x ne = ap (has x) t.around.whole ∙ has-without x i t.around.front t.around.back ne

  pub queue_count : length queue ≡ suc (length rest)
  queue_count = ap length t.around.whole ∙ length-without t.around.front t.around.back i

  pub queue-bound : length queue ≤ length b.pool
  queue-bound = omega (
    arith,
    t.describes.count,
    lookup-le-orders_on price (side_levels b side) t.level t.is_level,
    side_levels-le-total b side,
    w.balance,
  )

  unfoldable pub new_level : Level
  new_level = shrunk (unlinked b.pool i t.level).1 (cells b i).shares

  pub new_count : new_level.order_count ≡ length rest
  unfolding new_level
  new_count =
      omega (arith, relinked.count_same, t.describes.count, queue_count, queue-bound, w.room)

  pub new_total : new_level.total_shares ≡ sum_shares nodes rest % 2 ^ 64
  unfolding new_level
  new_total =
      let sums : sum_shares (cells b) queue ≡ sum_shares (cells b) rest + (cells b i).shares =
        ap (sum_shares (cells b)) t.around.whole
        ∙ sum_shares-without (cells b) t.around.front t.around.back i in
      let same : sum_shares nodes rest ≡ sum_shares (cells b) rest =
        sum_shares-frame (cells b) nodes rest
          (λ x m. (order_kept x (has_ne i x rest out_of_rest m)).shares_same) in
      omega (arith, relinked.total_same, t.describes.total, sums, same)

  pub new_links : Seg nodes nil rest new_level.head new_level.tail nil
  unfolding new_level
  new_links =
      Seg-frame (node_at pool') nodes nil rest (unlinked b.pool i t.level).1.head
        (unlinked b.pool i t.level).1.tail nil
        (λ x m. rw (node_new x, has_ne i x rest out_of_rest m)) relinked.links

  pub new-Fits : Fits nodes (kept new_level) rest
  new-Fits = elim (Bool-cases (new_level.order_count == 0)) [
    | inl gone ↦ rw gone (empty_of_zero rest (ground (arith, new_count)))
    | inr stays ↦ rw stays (record {
      some_orders = ground (arith, new_count);
      links = new_links;
      total = new_total;
      count = new_count;
    })
  ]
    where
      empty_of_zero : (xs : List ℕ) → length xs ≡ 0 → xs ≡ []
      empty_of_zero [] e = refl
      empty_of_zero (x ∷ xs) e = absurd (omega arith)

  pub Settled-ladder :
      Settled side price
        (side_levels b side)
        (w.sorted side)
        t.level
        new_level
        (shrunk_ladder b i t.level)
  unfolding new_level
  Settled-ladder =
      settled-Settled side price (side_levels b side) (w.sorted side) t.level new_level
        (relinked.price_same ∙ lookup-price price (side_levels b side) t.level t.is_level)
        (searched b w i ref t)

  pub find_dropped :
      (r : ℕ)
      → idx.find (dropped b i ref t.level).index r ≡ (if ref == r then npos else idx.find b.index r)
  find_dropped r = idx.find-erase b.index ref r

  -- The node that the index gave for `ref` is given for nothing else.
  pub other_ref : (x r : ℕ) → idx.find b.index r ≡ x → (i == x) ≡ false → (ref == r) ≡ false
  other_ref x r e ne = elim (Bool-cases (ref == r)) [
    | inl same ↦
        let k : ref ≡ r = ground arith in
        let j : idx.find b.index ref ≡ x = rw k e in absurd (ground (arith, t.known))
    | inr other ↦ other
  ]

  pub rest_queues :
      (c : Side) (q x : ℕ)
      → (i == x) ≡ false
      → has x (put_queue w.queues side price rest c q) ≡ has x (w.queues c q)
  rest_queues c q x ne = elim (Bool-cases (here side price c q)) [
    | inl this ↦
        let (e, k) = here-eq side price c q this in
        rw this (
          sym (in_rest x ne)
          ∙ ap (λ (d : Side). has x (w.queues d price)) e
          ∙ ap (λ (r : ℕ). has x (w.queues c r)) k)
    | inr other ↦ rw other
  ]

  pub elsewhere : (c : Side) (q : ℕ) → here side price c q ≡ false → has i (w.queues c q) ≡ false
  elsewhere c q other = elim (Bool-cases (has i (w.queues c q))) [
    | inl there ↦ absurd (ground (arith, queues-apart b w side price c q i other there, in_queue))
    | inr out ↦ out
  ]

  pub not_in_rest : (c : Side) (q : ℕ) → has i (put_queue w.queues side price rest c q) ≡ false
  not_in_rest c q = elim (Bool-cases (here side price c q)) [
    | inl this ↦ rw this out_of_rest
    | inr other ↦ rw other (elsewhere c q other)
  ]
