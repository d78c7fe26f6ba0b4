-- ===== src/L3Book/Queues.antt =====
-- What appending a node to a queue and unlinking one from it do to the links in src/book/l3_book.cpp.
use itchcpp.Prelude.{
  ℕ, ◌<◌, ◌≤◌, ◌≡◌, refl, ◌∙◌, List, [], ◌∷◌, ◌++◌, true, false, ◌==◌, if◌then◌else◌, length, arith,
}
use itchcpp.L3Book.{OrderNode, Level, nil, node_at, blank_node, link_last}
use itchcpp.L3Book.Vectors.{set, length-set, get_or-set}
use itchcpp.L3Book.Segments.{has, has_ne, Seg, tail-has, Seg-snoc}

-- A node keeps its order; only links may change.
pub record SameOrder (a b : OrderNode) : Type 0 where
  pub ref_same : b.reference_number ≡ a.reference_number
  pub shares_same : b.shares ≡ a.shares
  pub price_same : b.price ≡ a.price
  pub side_same : b.side ≡ a.side

-- The pool and the level after the queue became `queue'`: only nodes of the queue and `i` have other
-- links.
pub record Relinked (i : ℕ) (queue queue' : List ℕ) (pool pool' : List OrderNode)
    (level level' : Level) : Type 0 where
  pub links : Seg (node_at pool') nil queue' level'.head level'.tail nil
  pub orders_same : (j : ℕ) → SameOrder (node_at pool j) (node_at pool' j)
  pub others_same : (j : ℕ) → has j (i ∷ queue) ≡ false → node_at pool' j ≡ node_at pool j
  pub size_same : length pool' ≡ length pool
  pub price_same : level'.price ≡ level.price
  pub total_same : level'.total_shares ≡ level.total_shares
  pub count_same : level'.order_count ≡ level.order_count

abbrev pub InPool : List OrderNode → List ℕ → Type 0
InPool pool queue = (j : ℕ) → has j queue ≡ true → j < length pool

module _ (pool : List OrderNode) (i : ℕ) (level : Level) (room : length pool ≤ nil) where
  link_last-empty :
      i < length pool
      → Seg (node_at pool) nil [] level.head level.tail nil
      → Relinked i [] (i ∷ []) pool (link_last pool i level).0 level (link_last pool i level).1
  unfolding link_last
  link_last-empty bound (h, t) =
      let same : (j : ℕ)
          → node_at (set pool i (record (node_at pool i) { prev = level.tail; next = nil })) j ≡ (
              if i == j
              then record (node_at pool i) { prev = level.tail; next = nil }
              else node_at pool j) =
        λ j. get_or-set pool i j _ blank_node bound in
      let end : (level.tail == nil) ≡ true = ground arith in
      rw end record {
        links = (refl, refl, rw (same i) (ground arith), (rw (same i) (ground arith), refl));
        orders_same = λ j. rw (same j) (ground arith);
        others_same = λ j out. rw (same j) (ground arith);
        size_same = length-set pool i _;
        price_same = refl;
        total_same = refl;
        count_same = refl;
      }

  link_last-more :
      (x : ℕ) (xs : List ℕ)
      → i < length pool
      → InPool pool (x ∷ xs)
      → has i (x ∷ xs) ≡ false
      → Seg (node_at pool) nil (x ∷ xs) level.head level.tail nil
      → Relinked i
          (x ∷ xs)
          (x ∷ xs ++ i ∷ [])
          pool
          (link_last pool i level).0
          level
          (link_last pool i level).1
  unfolding link_last
  link_last-more x xs bound inside out s =
      let N : OrderNode = record (node_at pool i) { prev = level.tail; next = nil } in
      let linked : List OrderNode = set pool i N in
      let last : has level.tail (x ∷ xs) ≡ true =
        tail-has (node_at pool) nil x xs level.head level.tail nil s in
      let tail_bound : level.tail < length pool = inside level.tail last in
      let end : (level.tail == nil) ≡ false = ground arith in
      let apart : (i == level.tail) ≡ false = has_ne i level.tail (x ∷ xs) out last in
      let first_same : (j : ℕ) → node_at linked j ≡ (if i == j then N else node_at pool j) =
        λ j. get_or-set pool i j N blank_node bound in
      let tail_same : node_at linked level.tail ≡ node_at pool level.tail =
        rw (first_same level.tail, apart) in
      let pool' : List OrderNode =
        set linked level.tail (record (node_at linked level.tail) { next = i }) in
      let written : (j : ℕ)
          → node_at pool' j ≡ (
              if level.tail == j
              then record (node_at linked level.tail) { next = i }
              else node_at linked j) =
        λ j. get_or-set linked level.tail j _ blank_node (rw (length-set pool i N) tail_bound) in
      let same : (j : ℕ)
          → node_at pool' j ≡ (
              if i == j
              then N
              else if level.tail == j
              then record (node_at pool j) { next = i }
              else node_at pool j) =
        λ j. ground (arith, written j, first_same j, tail_same, apart) in
      let links : Seg (node_at pool') nil (x ∷ xs ++ i ∷ []) level.head i nil =
        Seg-snoc (node_at pool) (node_at pool') N nil x xs level.head level.tail i nil out refl refl
          same s in
      rw end record {
        links = links;
        orders_same = λ j. rw (same j) (ground arith);
        others_same = λ j o. ground (arith, same j, has_ne j level.tail (x ∷ xs));
        size_same = length-set linked level.tail _ ∙ length-set pool i N;
        price_same = refl;
        total_same = refl;
        count_same = refl;
      }

  pub link_last-Relinked :
      (xs : List ℕ)
      → i < length pool
      → InPool pool xs
      → has i xs ≡ false
      → Seg (node_at pool) nil xs level.head level.tail nil
      → Relinked i xs
          (xs ++ i ∷ [])
          pool
          (link_last pool i level).0
          level
          (link_last pool i level).1
  link_last-Relinked [] bound inside out s = link_last-empty bound s
  link_last-Relinked (x ∷ xs) bound inside out s = link_last-more x xs bound inside out s
