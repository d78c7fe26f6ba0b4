-- ===== src/OrderBook.antt =====
-- The class `LimitOrderBook`: include/itch/order_book.hpp and src/order_book.cpp. An order is
-- allocated once, and its number stands for its address: an iterator into the list of a price level
-- is the number of its order with the side and the price of that level. `none` is the state after a
-- dangling iterator was followed.
mod Tests
pub mod Levels
pub mod Totals
pub mod WellFormed
pub mod Reduction
pub mod Placement
pub mod Process
pub mod Effect
pub mod Sorted
pub mod Ladders
use itchcpp.Prelude.{
  ℕ, ◌+◌, ◌-◌, ◌%◌, ◌^◌, List, [], ◌∷◌, ◌++◌, Option, none, some, Bool, true, false, not, ◌||◌, ltb,
  ◌==◌, if◌then◌else◌,
}
use itchcpp.Text.{text_eq, trim_end, is_blank}
use itchcpp.Message.{
  Message, header_of, add_order, add_order_mpid_attribution, order_executed,
  order_executed_with_price, order_cancel, order_delete, order_replace,
}

pub record Order : Type 0 where
  pub id : ℕ
  pub order_reference_number : ℕ
  pub buy_sell_indicator : ℕ
  pub shares : ℕ
  pub price : ℕ
  pub stock : List ℕ

pub record PriceLevel : Type 0 where
  pub total_shares : ℕ
  pub orders : List Order

-- OrderIt
pub record OrderIt : Type 0 where
  pub id : ℕ
  pub is_bid : Bool
  pub level_price : ℕ

-- std::map, in its order
abbrev pub Levels : Type 0
Levels = List (ℕ × PriceLevel)

pub record LimitOrderBook : Type 0 where
  pub stock_symbol : List ℕ
  pub bids : Levels
  pub asks : Levels
  pub orders : List (ℕ × OrderIt)
  pub next_id : ℕ

-- std::list of orders: the order behind an iterator, an assignment through it, its erasure.
unfoldable pub find_order : ℕ → List Order → Option Order
find_order id [] = none
find_order id (o ∷ os) = if o.id == id then some o else find_order id os

unfoldable pub set_order : ℕ → Order → List Order → List Order
set_order id order [] = []
set_order id order (o ∷ os) =
    let rest = set_order id order os in if o.id == id then order ∷ os else o ∷ rest

unfoldable pub erase_order : ℕ → List Order → List Order
erase_order id [] = []
erase_order id (o ∷ os) = let rest = erase_order id os in if o.id == id then os else o ∷ rest

-- std::map of price levels: std::greater for the bids, std::less for the asks.
unfoldable pub precedes : Bool → ℕ → ℕ → Bool
precedes is_bid a b = if is_bid then ltb b a else ltb a b

unfoldable pub find_level : ℕ → Levels → Option PriceLevel
find_level price [] = none
find_level price ((p, level) ∷ levels) = if p == price then some level else find_level price levels

unfoldable pub set_level : Bool → ℕ → PriceLevel → Levels → Levels
unfolding precedes
set_level is_bid price level [] = (price, level) ∷ []
set_level is_bid price level ((p, l) ∷ levels) =
    let rest = set_level is_bid price level levels in
    if p == price
    then (price, level) ∷ levels
    else if precedes is_bid price p
    then (price, level) ∷ (p, l) ∷ levels
    else (p, l) ∷ rest

unfoldable pub erase_level : ℕ → Levels → Levels
erase_level price [] = []
erase_level price ((p, level) ∷ levels) =
    let rest = erase_level price levels in if p == price then levels else (p, level) ∷ rest

-- std::map of iterators by reference number
unfoldable pub find_entry : ℕ → List (ℕ × OrderIt) → Option OrderIt
find_entry ref [] = none
find_entry ref ((r, it) ∷ entries) = if r == ref then some it else find_entry ref entries

unfoldable pub erase_entry : ℕ → List (ℕ × OrderIt) → List (ℕ × OrderIt)
erase_entry ref [] = []
erase_entry ref ((r, it) ∷ entries) =
    let rest = erase_entry ref entries in if r == ref then rest else (r, it) ∷ rest

unfoldable pub levels_of : Bool → LimitOrderBook → Levels
levels_of is_bid s = if is_bid then s.bids else s.asks

unfoldable pub level_at : LimitOrderBook → Bool → ℕ → Option PriceLevel
unfolding find_level levels_of
level_at s is_bid price = find_level price (levels_of is_bid s)

unfoldable pub put_level : Bool → ℕ → PriceLevel → LimitOrderBook → LimitOrderBook
unfolding set_level
put_level true price level s = record s { bids = set_level true price level s.bids }
put_level false price level s = record s { asks = set_level false price level s.asks }

unfoldable pub drop_level : Bool → ℕ → LimitOrderBook → LimitOrderBook
unfolding erase_level
drop_level true price s = record s { bids = erase_level price s.bids }
drop_level false price s = record s { asks = erase_level price s.asks }

-- PriceLevel::add_order
unfoldable pub push_order : PriceLevel → Order → PriceLevel
push_order level order = record {
  total_shares = (level.total_shares + order.shares) % 2 ^ 32;
  orders = level.orders ++ order ∷ [];
}

-- `operator[]` makes an empty level where there is none.
unfoldable pub level_or_new : Option PriceLevel → PriceLevel
level_or_new none = record { total_shares = 0; orders = [] }
level_or_new (some level) = level

unfoldable pub place : LimitOrderBook → ℕ → Order → LimitOrderBook
unfolding level_at put_level push_order level_or_new
place s ref order =
    let is_bid = order.buy_sell_indicator == b'B' in
    let level = push_order (level_or_new (level_at s is_bid order.price)) order in
    let it : OrderIt = record { id = order.id; is_bid = is_bid; level_price = order.price } in
    put_level is_bid order.price level
      (record s { orders = (ref, it) ∷ erase_entry ref s.orders; next_id = s.next_id + 1 })

-- LimitOrderBook::add_order
unfoldable pub add_to_book : LimitOrderBook → ℕ → ℕ → ℕ → ℕ → List ℕ → LimitOrderBook
unfolding place erase_entry
add_to_book s ref side shares price stock = place s ref (record {
  id = s.next_id;
  order_reference_number = ref;
  buy_sell_indicator = side;
  shares = shares;
  price = price;
  stock = stock;
})

-- `-=` on 32-bit integers
abbrev pub sub32 : ℕ → ℕ → ℕ
sub32 a b = (a + (2 ^ 32 - b % 2 ^ 32)) % 2 ^ 32

-- The order has no shares left, and its node is gone from the level.
unfoldable pub close :
    LimitOrderBook → ℕ → OrderIt → Order → PriceLevel → List Order → LimitOrderBook
unfolding drop_level put_level erase_entry
close s ref it order level [] =
    drop_level (order.buy_sell_indicator == b'B') order.price
      (record s { orders = erase_entry ref s.orders })
close s ref it order level (o ∷ os) =
    put_level it.is_bid it.level_price (record level { orders = o ∷ os })
      (record s { orders = erase_entry ref s.orders })

unfoldable pub reduce : LimitOrderBook → ℕ → ℕ → OrderIt → PriceLevel → Order → LimitOrderBook
unfolding close set_order erase_order put_level
reduce s ref canceled_shares it level order =
    let order' = record order { shares = sub32 order.shares canceled_shares } in
    let level' : PriceLevel = record {
      total_shares = sub32 level.total_shares canceled_shares;
      orders = set_order it.id order' level.orders;
    } in
    if order'.shares == 0
    then close s ref it order' level' (erase_order it.id level'.orders)
    else put_level it.is_bid it.level_price level' s

-- What an iterator leads to.
unfoldable pub follow : LimitOrderBook → OrderIt → Option (PriceLevel × Order)
unfolding level_at find_order
follow s it = elim (level_at s it.is_bid it.level_price) [
  | none ↦ none
  | some level ↦ elim (find_order it.id level.orders) [
    | none ↦ none
    | some order ↦ some (level, order)
  ]
]

unfoldable pub remove_at :
    LimitOrderBook → ℕ → ℕ → OrderIt → Option (PriceLevel × Order) → Option LimitOrderBook
unfolding reduce
remove_at s ref canceled_shares it none = none
remove_at s ref canceled_shares it (some (level, order)) =
    some (reduce s ref canceled_shares it level order)

-- LimitOrderBook::remove_order
unfoldable pub remove_order : LimitOrderBook → ℕ → ℕ → Option LimitOrderBook
unfolding find_entry remove_at follow
remove_order s ref canceled_shares = elim (find_entry ref s.orders) [
  | none ↦ some s
  | some it ↦ remove_at s ref canceled_shares it (follow s it)
]

-- to_string(msg.stock, sizeof(msg.stock))
unfoldable pub to_string : List ℕ → List ℕ
to_string source = trim_end is_blank source

unfoldable pub handle_add : LimitOrderBook → ℕ → ℕ → ℕ → ℕ → List ℕ → LimitOrderBook
unfolding to_string add_to_book
handle_add s ref side shares price stock =
    if not (text_eq (to_string stock) s.stock_symbol)
    then s
    else add_to_book s ref side shares price (to_string stock)

-- The order is looked up, and nothing is done where there is none or it is of another stock.
unfoldable pub if_ours :
    LimitOrderBook
    → Option (PriceLevel × Order)
    → (Order → Option LimitOrderBook)
    → Option LimitOrderBook
if_ours s none handle = none
if_ours s (some (level, order)) handle =
    if not (text_eq order.stock s.stock_symbol) then some s else handle order

unfoldable pub with_order :
    LimitOrderBook → ℕ → (Order → Option LimitOrderBook) → Option LimitOrderBook
unfolding find_entry follow if_ours
with_order s ref handle = elim (find_entry ref s.orders) [
  | none ↦ some s
  | some it ↦ if_ours s (follow s it) handle
]

-- The orders executed, with or without a price, and cancelled
unfoldable pub handle_reduction : LimitOrderBook → ℕ → ℕ → Option LimitOrderBook
unfolding with_order remove_order
handle_reduction s ref shares = with_order s ref (λ order. remove_order s ref shares)

unfoldable pub handle_delete : LimitOrderBook → ℕ → Option LimitOrderBook
unfolding with_order remove_order
handle_delete s ref = with_order s ref (λ order. remove_order s ref order.shares)

unfoldable pub add_after : ℕ → ℕ → ℕ → ℕ → List ℕ → Option LimitOrderBook → Option LimitOrderBook
unfolding add_to_book
add_after ref side shares price stock none = none
add_after ref side shares price stock (some s) = some (add_to_book s ref side shares price stock)

unfoldable pub handle_replace : LimitOrderBook → ℕ → ℕ → ℕ → ℕ → Option LimitOrderBook
unfolding with_order remove_order add_after
handle_replace s original_ref new_ref shares price = with_order s original_ref λ old_order.
    add_after new_ref old_order.buy_sell_indicator shares price old_order.stock
      (remove_order s original_ref old_order.shares)

-- LimitOrderBook::handle_message; every other message does nothing
unfoldable pub handle_message : LimitOrderBook → Message → Option LimitOrderBook
unfolding handle_add handle_reduction handle_delete handle_replace
handle_message s (add_order m) =
    some (handle_add s m.order_reference_number m.buy_sell_indicator m.shares m.price m.stock)
handle_message s (add_order_mpid_attribution m) =
    some (handle_add s m.order_reference_number m.buy_sell_indicator m.shares m.price m.stock)
handle_message s (order_executed m) = handle_reduction s m.order_reference_number m.executed_shares
handle_message s (order_executed_with_price m) =
    handle_reduction s m.order_reference_number m.executed_shares
handle_message s (order_cancel m) = handle_reduction s m.order_reference_number m.cancelled_shares
handle_message s (order_delete m) = handle_delete s m.order_reference_number
handle_message s (order_replace m) =
    handle_replace s m.original_order_reference_number m.new_order_reference_number m.shares m.price
handle_message s _ = some s

unfoldable pub book_messages : ℕ → Bool
book_messages letter =
    letter == b'A'
    || letter == b'F'
    || letter == b'E'
    || letter == b'C'
    || letter == b'X'
    || letter == b'D'
    || letter == b'U'

unfoldable pub process : LimitOrderBook → Message → Option LimitOrderBook
unfolding handle_message book_messages
process s m = if not (book_messages (header_of m).message_type) then some s else handle_message s m

-- LimitOrderBook::LimitOrderBook
unfoldable pub new_book : List ℕ → LimitOrderBook
new_book stock_symbol = record {
  stock_symbol = stock_symbol;
  bids = [];
  asks = [];
  orders = [];
  next_id = 0;
}
