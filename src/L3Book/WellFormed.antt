-- ===== src/L3Book/WellFormed.antt =====
-- The invariant of the class `L3Book` of include/itch/book/l3_book.hpp: each level is the head of a queue of
-- nodes that are linked both ways, the free nodes are a list of their own, and the index leads to
-- every order that rests and to no other.
use itchcpp.Prelude.{
  ℕ, ◌+◌, ◌≤◌, ◌<◌, ◌%◌, ◌^◌, ◌≡◌, refl, List, [], ◌∷◌, Option, none, some, Bool, true, false, ◌&&◌,
  ◌==◌, length, arith,
}
use itchcpp.L3Book.{Side, buy, sell, Level, L3Book, nil, node_at, side_levels, new_book}
use itchcpp.L3Book.Interface.{Index, npos}
use itchcpp.L3Book.Segments.{has, Cells, Seg}
use itchcpp.L3Book.Ladder.{lookup, Sorted}
use itchcpp.L3Book.Updates.{orders_on}

abbrev pub same_side : Side → Side → Bool
same_side buy buy = true
same_side buy sell = false
same_side sell buy = false
same_side sell sell = true

-- The same side and price
abbrev pub here : Side → ℕ → Side → ℕ → Bool
here s p c q = same_side s c && p == q

unfoldable pub sum_shares : Cells → List ℕ → ℕ
sum_shares f [] = 0
sum_shares f (x ∷ xs) = (f x).shares + sum_shares f xs

-- The level describes the queue.
pub record Holds (f : Cells) (level : Level) (queue : List ℕ) : Type 0 where
  pub some_orders : 0 < length queue
  pub links : Seg f nil queue level.head level.tail nil
  pub total : level.total_shares ≡ sum_shares f queue % 2 ^ 64
  pub count : level.order_count ≡ length queue

abbrev pub Fits : Cells → Option Level → List ℕ → Type 0
Fits f none queue = queue ≡ []
Fits f (some level) queue = Holds f level queue

-- The node is in the pool, with this side and price, and the index leads to it.
pub record Resting (f : Cells) (size : ℕ) (find : ℕ → ℕ) (side : Side) (price x : ℕ) : Type 0 where
  pub bound : x < size
  pub on_side : (f x).side ≡ side
  pub at_price : (f x).price ≡ price
  pub known : find (f x).reference_number ≡ x

-- The index does not lead to the node.
pub record Unused (f : Cells) (size : ℕ) (find : ℕ → ℕ) (x : ℕ) : Type 0 where
  pub bound : x < size
  pub unknown : (find (f x).reference_number == x) ≡ false

abbrev pub FreeList : Cells → List ℕ → ℕ → Type 0
FreeList f [] head = head ≡ nil
FreeList f (x ∷ xs) head = (head ≡ x) × (has x xs ≡ false) × FreeList f xs (f x).next

-- The order that the index leads to is in the queue of its side and price.
pub record Found (f : Cells) (queues : Side → ℕ → List ℕ) (ref x : ℕ) : Type 0 where
  pub queued : has x (queues (f x).side (f x).price) ≡ true
  pub named : (f x).reference_number ≡ ref

module _ {T : Type 0} where
  abbrev pub cells : L3Book T → Cells
  cells b = λ i. node_at b.pool i

module _ {T : Type 0} ⦃idx : Index T⦄ where
  pub record WellFormed (b : L3Book T) : Type 0 where
    pub queues : Side → ℕ → List ℕ
    pub free : List ℕ
    pub fits : (s : Side) (p : ℕ) → Fits (cells b) (lookup p (side_levels b s)) (queues s p)
    pub resting :
        (s : Side) (p x : ℕ)
        → has x (queues s p) ≡ true
        → Resting (cells b) (length b.pool) (idx.find b.index) s p x
    pub unused : (x : ℕ) → has x free ≡ true → Unused (cells b) (length b.pool) (idx.find b.index) x
    pub free_list : FreeList (cells b) free b.free_head
    pub found :
        (ref : ℕ)
        → (idx.find b.index ref == npos) ≡ false
        → Found (cells b) queues ref (idx.find b.index ref)
    pub sorted : (s : Side) → Sorted s (side_levels b s)
    pub balance : orders_on b.bids + orders_on b.asks + length free ≡ length b.pool
    pub room : length b.pool ≤ nil

  pub new_book-WellFormed : (symbol : List ℕ) → WellFormed (new_book symbol)
  unfolding new_book lookup side_levels orders_on
  new_book-WellFormed symbol = record {
    queues = λ s p. [];
    free = [];
    fits = λ s p. nothing s p;
    resting = λ s p x h. cc;
    unused = λ x h. cc;
    free_list = refl;
    found = λ ref h. ground (arith, idx.find-none_stored ref);
    sorted = λ s. empty_sorted s;
    balance = omega arith;
    room = omega arith;
  }
    where
      nothing :
          (s : Side) (p : ℕ)
          → Fits
              (cells {T = T} (new_book symbol))
              (lookup p (side_levels {T = T} (new_book symbol) s))
              []
      nothing buy p = refl
      nothing sell p = refl

      empty_sorted : (s : Side) → Sorted s (side_levels {T = T} (new_book symbol) s)
      empty_sorted buy = tt
      empty_sorted sell = tt

module _ (T : Type 0) ⦃idx : Index T⦄ where
  pub new_book-queues :
      (symbol : List ℕ) (s : Side) (p : ℕ) → (new_book-WellFormed {T = T} symbol).queues s p ≡ []
  unfolding new_book-WellFormed
  new_book-queues symbol s p = refl
