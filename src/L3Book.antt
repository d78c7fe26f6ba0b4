-- ===== src/L3Book.antt =====
-- The class `L3Book`: include/itch/book/l3_book.hpp and src/book/l3_book.cpp. The pool is a list of
-- nodes and an index into it a number; the ladders are lists of levels. The order index is the
-- interface `Index`, whose table is the type `T`. `std::lower_bound` returns the first place that is
-- not before the price, as it does on a sorted ladder. `orders_at` follows the links for as many
-- steps as the level counts orders, and is `none` if the queue goes on.
use itchcpp.Prelude.{
  ℕ, zero, suc, ◌+◌, ◌-◌, ◌%◌, ◌^◌, min, List, [], ◌∷◌, ◌++◌, map, Option, none, some, Bool, true,
  false, not, ◌&&◌, ltb, ◌==◌, if◌then◌else◌, length, take,
}
use itchcpp.L3Book.Interface.{Index, npos}
use itchcpp.L3Book.Vectors.{get_or, set, insert_at, erase_at}
mod Tests
pub mod Interface
pub mod Pairs
pub mod Vectors
pub mod Segments
pub mod Ladder
pub mod Updates
pub mod Order
pub mod Places
pub mod Queues
pub mod Unlinking
pub mod WellFormed
pub mod Allocation
pub mod Levels
pub mod Adding
pub mod Placement
pub mod AddKeeps
pub mod Dropping
pub mod Removal
pub mod DropKeeps
pub mod TakeKeeps
pub mod Operations
pub mod Arrivals
pub mod Views
pub mod Effects
pub mod Refinement
pub mod Sequences
pub mod Depth
pub mod Reports
pub mod Naming

-- NIL
abbrev pub nil : ℕ
nil = 2 ^ 32 - 1

pub data Side : Type 0 where
  buy sell : Side

pub record OrderNode : Type 0 where
  pub reference_number : ℕ
  pub shares : ℕ
  pub price : ℕ
  pub side : Side
  pub next : ℕ
  pub prev : ℕ

pub record Level : Type 0 where
  pub price : ℕ
  pub total_shares : ℕ
  pub order_count : ℕ
  pub head : ℕ
  pub tail : ℕ

pub record L3Book (T : Type 0) : Type 0 where
  pub symbol : List ℕ
  pub pool : List OrderNode
  pub free_head : ℕ
  pub bids : List Level
  pub asks : List Level
  pub index : T

pub record DepthLevel : Type 0 where
  pub price : ℕ
  pub shares : ℕ
  pub order_count : ℕ

pub record OrderView : Type 0 where
  pub reference_number : ℕ
  pub shares : ℕ
  pub price : ℕ

pub record Bbo : Type 0 where
  pub has_bid : Bool
  pub has_ask : Bool
  pub bid_price : ℕ
  pub bid_shares : ℕ
  pub ask_price : ℕ
  pub ask_shares : ℕ

-- OrderNode {}
abbrev pub blank_node : OrderNode
blank_node = record {
  reference_number = 0;
  shares = 0;
  price = 0;
  side = buy;
  next = nil;
  prev = nil;
}

-- Level {} with its price
unfoldable pub new_level : ℕ → Level
new_level price = record {
  price = price;
  total_shares = 0;
  order_count = 0;
  head = nil;
  tail = nil;
}

abbrev pub node_at : List OrderNode → ℕ → OrderNode
node_at pool i = get_or pool i blank_node

-- The arithmetic of std::uint32_t and std::uint64_t
abbrev pub sub64 : ℕ → ℕ → ℕ
sub64 a b = (a + (2 ^ 64 - b % 2 ^ 64)) % 2 ^ 64

abbrev pub pred32 : ℕ → ℕ
pred32 a = (a + (2 ^ 32 - 1)) % 2 ^ 32

abbrev pub choose {ℓ} : {A : Type ℓ} → Side → A → A → A
choose buy x y = x
choose sell x y = y

-- The comparison of each ladder: bids descend, asks ascend.
abbrev pub before : Side → ℕ → ℕ → Bool
before buy a b = ltb b a
before sell a b = ltb a b

unfoldable pub lower_bound : Side → List Level → ℕ → ℕ
lower_bound side [] price = 0
lower_bound side (level ∷ levels) price =
    if before side level.price price then suc (lower_bound side levels price) else 0

-- position != end && position->price == price
unfoldable pub is_level : List Level → ℕ → ℕ → Bool
is_level levels position price =
    ltb position (length levels) && (get_or levels position (new_level 0)).price == price

unfoldable pub find_in : Side → List Level → ℕ → ℕ
unfolding lower_bound is_level
find_in side levels price =
    if is_level levels (lower_bound side levels price) price
    then lower_bound side levels price % 2 ^ 32
    else nil

-- The write through `prev`, or to the head of the level.
unfoldable pub unlink_prev : List OrderNode → ℕ → Level → List OrderNode × Level
unlink_prev pool i level =
    let node = node_at pool i in
    if not (node.prev == nil)
    then (set pool node.prev (record (node_at pool node.prev) { next = node.next }), level)
    else (pool, record level { head = node.next })

-- The write through `next`, or to the tail of the level.
unfoldable pub unlink_next : List OrderNode → ℕ → Level → List OrderNode × Level
unlink_next pool i level =
    let node = node_at pool i in
    if not (node.next == nil)
    then (set pool node.next (record (node_at pool node.next) { prev = node.prev }), level)
    else (pool, record level { tail = node.prev })

-- The node is appended to the queue of the level.
unfoldable pub link_last : List OrderNode → ℕ → Level → List OrderNode × Level
link_last pool i level =
    let linked = set pool i (record (node_at pool i) { prev = level.tail; next = nil }) in
    if not (level.tail == nil)
    then (
      set linked level.tail (record (node_at linked level.tail) { next = i }),
      record level { tail = i },
    )
    else (linked, record level { head = i; tail = i })

unfoldable pub follow_queue : List OrderNode → ℕ → ℕ → Option (List OrderView)
follow_queue pool zero i = if i == nil then some [] else none
follow_queue pool (suc fuel) i =
    let node = node_at pool i in
    let rest = follow_queue pool fuel node.next in
    if i == nil then some [] else elim rest [
      | none ↦ none
      | some views ↦ some (
          record {
            reference_number = node.reference_number;
            shares = node.shares;
            price = node.price;
          }
          ∷ views)
    ]

unfoldable pub depth_level : Level → DepthLevel
depth_level level = record {
  price = level.price;
  shares = level.total_shares;
  order_count = level.order_count;
}

module _ {T : Type 0} where
  unfoldable pub side_levels : L3Book T → Side → List Level
  side_levels b side = choose side b.bids b.asks

  unfoldable pub set_symbol : L3Book T → List ℕ → L3Book T
  set_symbol b symbol = record b { symbol = symbol }

  -- Assignment through the reference that `side_levels` returns
  abbrev pub put_levels : L3Book T → Side → List Level → L3Book T
  put_levels b side levels = record b {
    bids = choose side levels b.bids;
    asks = choose side b.asks levels;
  }

  unfoldable pub allocate_node : L3Book T → L3Book T × ℕ
  allocate_node b =
      if not (b.free_head == nil)
      then (
        record b {
          free_head = (node_at b.pool b.free_head).next;
          pool = set b.pool b.free_head blank_node;
        },
        b.free_head,
      )
      else (record b { pool = b.pool ++ blank_node ∷ [] }, length b.pool % 2 ^ 32)

  unfoldable pub free_node : L3Book T → ℕ → L3Book T
  free_node b i = record b {
    pool = set b.pool i (record blank_node { next = b.free_head });
    free_head = i;
  }

  unfoldable pub find_level : L3Book T → Side → ℕ → ℕ
  unfolding find_in side_levels
  find_level b side price = find_in side (side_levels b side) price

  unfoldable pub find_or_create_level : L3Book T → Side → ℕ → L3Book T × ℕ
  unfolding side_levels new_level lower_bound is_level
  find_or_create_level b side price =
      let levels = side_levels b side in
      let position = lower_bound side levels price in
      if is_level levels position price
      then (b, position % 2 ^ 32)
      else (put_levels b side (insert_at levels position (new_level price)), position % 2 ^ 32)

  -- Level& level = side_levels(side)[level_index]
  unfoldable pub level_of : L3Book T → Side → ℕ → Level
  unfolding new_level side_levels
  level_of b side level_index = get_or (side_levels b side) level_index (new_level 0)

  unfoldable pub append_node : L3Book T → Side → ℕ → ℕ → ℕ → L3Book T
  unfolding link_last level_of
  append_node b side level_index i shares =
      let (pool, level) = link_last b.pool i (level_of b side level_index) in
      put_levels (record b { pool = pool }) side
        (set (side_levels b side) level_index (record level {
          total_shares = (level.total_shares + shares) % 2 ^ 64;
          order_count = (level.order_count + 1) % 2 ^ 32;
        }))

  -- The level is written back, or erased when it has no orders left.
  unfoldable pub settle_level : L3Book T → Side → ℕ → Level → L3Book T
  unfolding side_levels
  settle_level b side level_index level = put_levels b side (
      if level.order_count == 0
      then erase_at (side_levels b side) level_index
      else set (side_levels b side) level_index level)

  unfoldable pub unlink_from : L3Book T → ℕ → OrderNode → ℕ → L3Book T
  unfolding unlink_prev unlink_next level_of settle_level
  unlink_from b i node level_index =
      let (pool, level) = unlink_prev b.pool i (level_of b node.side level_index) in
      let (pool', level') = unlink_next pool i level in
      settle_level (record b { pool = pool' }) node.side level_index
        (record level' {
          total_shares = sub64 level'.total_shares node.shares;
          order_count = pred32 level'.order_count;
        })

  unfoldable pub unlink_node : L3Book T → ℕ → L3Book T
  unfolding find_level unlink_from
  unlink_node b i =
      let node = node_at b.pool i in
      let level_index = find_level b node.side node.price in
      if level_index == nil then b else unlink_from b i node level_index

  -- Fewer shares rest in the order, and in its level.
  unfoldable pub take_shares : L3Book T → ℕ → OrderNode → ℕ → L3Book T
  unfolding find_level level_of side_levels
  take_shares b i node removed =
      let b' = record b { pool = set b.pool i (record node { shares = node.shares - removed }) } in
      let level_index = find_level b' node.side node.price in
      let level = level_of b' node.side level_index in
      if not (level_index == nil)
      then put_levels b' node.side (
          set (side_levels b' node.side) level_index
            (record level { total_shares = sub64 level.total_shares removed }))
      else b'

module _ {T : Type 0} ⦃idx : Index T⦄ where
  unfoldable pub new_book : List ℕ → L3Book T
  new_book symbol = record {
    symbol = symbol;
    pool = [];
    free_head = nil;
    bids = [];
    asks = [];
    index = idx.none_stored;
  }

  -- The new node with its data
  unfoldable pub fill_node : L3Book T → ℕ → ℕ → Side → ℕ → ℕ → L3Book T
  fill_node b i ref side shares price = record b {
    pool = set b.pool i (record (node_at b.pool i) {
      reference_number = ref;
      shares = shares;
      price = price;
      side = side;
    });
  }

  unfoldable pub place_node : L3Book T → ℕ → ℕ → Side → ℕ → ℕ → L3Book T
  unfolding fill_node find_or_create_level append_node
  place_node b i ref side shares price =
      let (b', level_index) =
        find_or_create_level (fill_node b i ref side shares price) side price in
      let b'' = append_node b' side level_index i shares in
      record b'' { index = idx.insert b''.index ref i }

  unfoldable pub add_order : L3Book T → ℕ → Side → ℕ → ℕ → L3Book T
  unfolding allocate_node place_node
  add_order b ref side shares price =
      let (b', i) = allocate_node b in
      if not (idx.find b.index ref == npos) then b else place_node b' i ref side shares price

  -- unlink_node, free_node and the erasure from the index
  unfoldable pub drop_node : L3Book T → ℕ → ℕ → L3Book T
  unfolding unlink_node free_node
  drop_node b i ref =
      let b' = free_node (unlink_node b i) i in record b' { index = idx.erase b'.index ref }

  unfoldable pub execute_order : L3Book T → ℕ → ℕ → L3Book T × ℕ
  unfolding drop_node take_shares
  execute_order b ref shares =
      let i = idx.find b.index ref in
      let node = node_at b.pool i in
      let removed = min shares node.shares in
      if i == npos
      then (b, 0)
      else if removed == node.shares
      then (drop_node b i ref, removed)
      else (take_shares b i node removed, removed)

  unfoldable pub reduce_order : L3Book T → ℕ → ℕ → L3Book T × ℕ
  unfolding execute_order
  reduce_order b ref shares = execute_order b ref shares

  unfoldable pub delete_order : L3Book T → ℕ → L3Book T
  unfolding drop_node
  delete_order b ref =
      if idx.find b.index ref == npos then b else drop_node b (idx.find b.index ref) ref

  unfoldable pub replace_order : L3Book T → ℕ → ℕ → ℕ → ℕ → L3Book T
  replace_order b old_ref new_ref shares price =
      if idx.find b.index old_ref == npos
      then b
      else add_order (delete_order b old_ref) new_ref
          (node_at b.pool (idx.find b.index old_ref)).side shares price

  unfoldable pub contains : L3Book T → ℕ → Bool
  contains b ref = not (idx.find b.index ref == npos)

  unfoldable pub order_price : L3Book T → ℕ → Option ℕ
  order_price b ref =
      if idx.find b.index ref == npos
      then none
      else some (node_at b.pool (idx.find b.index ref)).price

  unfoldable pub order_side : L3Book T → ℕ → Option Side
  order_side b ref =
      if idx.find b.index ref == npos
      then none
      else some (node_at b.pool (idx.find b.index ref)).side

  unfoldable pub is_empty : L3Book T → Bool
  is_empty b = idx.is_empty b.index

-- Bbo {}
abbrev pub blank_bbo : Bbo
blank_bbo = record {
  has_bid = false;
  has_ask = false;
  bid_price = 0;
  bid_shares = 0;
  ask_price = 0;
  ask_shares = 0;
}

unfoldable pub show_bid : List Level → Bbo → Bbo
show_bid [] result = result
show_bid (level ∷ levels) result = record result {
  has_bid = true;
  bid_price = level.price;
  bid_shares = level.total_shares;
}

unfoldable pub show_ask : List Level → Bbo → Bbo
show_ask [] result = result
show_ask (level ∷ levels) result = record result {
  has_ask = true;
  ask_price = level.price;
  ask_shares = level.total_shares;
}

module _ {T : Type 0} where
  unfoldable pub bbo : L3Book T → Bbo
  unfolding show_bid show_ask
  bbo b = show_ask b.asks (show_bid b.bids blank_bbo)

  unfoldable pub depth : L3Book T → Side → ℕ → List DepthLevel
  unfolding side_levels depth_level
  depth b side max_levels =
      let levels = side_levels b side in
      let count = if max_levels == 0 then length levels else min max_levels (length levels) in
      map depth_level (take count levels)

  unfoldable pub orders_at : L3Book T → Side → ℕ → Option (List OrderView)
  unfolding find_level level_of follow_queue
  orders_at b side price =
      let level_index = find_level b side price in
      let level = level_of b side level_index in
      if level_index == nil then some [] else follow_queue b.pool level.order_count level.head

  unfoldable pub level_count : L3Book T → Side → ℕ
  unfolding side_levels
  level_count b side = length (side_levels b side)
