-- ===== src/OrderBook/Ladders.antt =====
-- The maps of price levels of src/order_book.cpp stay in their order: bids from the highest price
-- down, asks from the lowest price up, one level for each price.
use itchcpp.Prelude.{
  ℕ, ◌+◌, ◌≡◌, List, [], ◌∷◌, Option, none, some, Bool, true, false, not, Bool-cases, inl, inr,
  ◌==◌, if◌then◌else◌,
}
use itchcpp.Text.{text_eq}
use itchcpp.Message.{
  Message, header_of, add_order, add_order_mpid_attribution, order_executed,
  order_executed_with_price, order_cancel, order_delete, order_replace,
}
use itchcpp.OrderBook.{
  Order, PriceLevel, OrderIt, LimitOrderBook, sub32, set_order, erase_order, erase_entry,
  find_entry, put_level, drop_level, place, add_to_book, close, reduce, follow, remove_at,
  remove_order, to_string, handle_add, if_ours, with_order, handle_reduction, handle_delete,
  add_after, handle_replace, handle_message, book_messages, process,
}
use itchcpp.OrderBook.Sorted.{
  Sorted, Sorted-set, Sorted-erase, Descending, Ascending, Descending-of_Sorted,
  Ascending-of_Sorted, Sorted-of_Descending, Sorted-of_Ascending,
}
use itchcpp.OrderBook.WellFormed.{WellFormed}
use itchcpp.OrderBook.Process.{process-Keeps}

record Ordered (s : LimitOrderBook) : Type 0 where
  bids_sorted : Sorted true s.bids
  asks_sorted : Sorted false s.asks

-- Where a result is reached, its ladders are sorted.
abbrev Reaches : Option LimitOrderBook → Type 0
Reaches none = Unit
Reaches (some t) = Ordered t

Reaches-if :
    (test : Bool) (x y : Option LimitOrderBook)
    → Reaches x
    → Reaches y
    → Reaches (if test then x else y)
Reaches-if true x y h k = h
Reaches-if false x y h k = k

put_level-Ordered :
    (b : Bool) (p : ℕ) (level : PriceLevel) (s : LimitOrderBook)
    → Ordered s
    → Ordered (put_level b p level s)
unfolding put_level
put_level-Ordered true p level s h = record {
  bids_sorted = Sorted-set true p level s.bids h.bids_sorted;
  asks_sorted = h.asks_sorted;
}
put_level-Ordered false p level s h = record {
  bids_sorted = h.bids_sorted;
  asks_sorted = Sorted-set false p level s.asks h.asks_sorted;
}

drop_level-Ordered :
    (b : Bool) (p : ℕ) (s : LimitOrderBook) → Ordered s → Ordered (drop_level b p s)
unfolding drop_level
drop_level-Ordered true p s h = record {
  bids_sorted = Sorted-erase true p s.bids h.bids_sorted;
  asks_sorted = h.asks_sorted;
}
drop_level-Ordered false p s h = record {
  bids_sorted = h.bids_sorted;
  asks_sorted = Sorted-erase false p s.asks h.asks_sorted;
}

-- The maps of iterators have no part in it.
Ordered-same :
    (s : LimitOrderBook) (entries : List (ℕ × OrderIt)) (n : ℕ)
    → Ordered s
    → Ordered (record s { orders = entries; next_id = n })
Ordered-same s entries n h = record { bids_sorted = h.bids_sorted; asks_sorted = h.asks_sorted }

close-Ordered :
    (s : LimitOrderBook) (ref : ℕ) (it : OrderIt) (order : Order) (level : PriceLevel)
    (os : List Order)
    → Ordered s
    → Ordered (close s ref it order level os)
unfolding close
close-Ordered s ref it order level [] h =
    drop_level-Ordered _ order.price _ (Ordered-same s (erase_entry ref s.orders) s.next_id h)
close-Ordered s ref it order level (o ∷ os) h =
    put_level-Ordered it.is_bid it.level_price _ _
      (Ordered-same s (erase_entry ref s.orders) s.next_id h)

reduce-Ordered :
    (s : LimitOrderBook) (ref canceled_shares : ℕ) (it : OrderIt) (level : PriceLevel)
    (order : Order)
    → Ordered s
    → Ordered (reduce s ref canceled_shares it level order)
unfolding reduce
reduce-Ordered s ref canceled_shares it level order h =
    elim (Bool-cases (sub32 order.shares canceled_shares == 0)) [
      | inl spent ↦ rw spent (
          close-Ordered s ref it (record order { shares = sub32 order.shares canceled_shares })
            (record {
              total_shares = sub32 level.total_shares canceled_shares;
              orders =
                  set_order it.id (record order { shares = sub32 order.shares canceled_shares })
                    level.orders;
            })
            (erase_order it.id (
              set_order it.id (record order { shares = sub32 order.shares canceled_shares })
                level.orders))
            h)
      | inr some_left ↦ rw some_left (put_level-Ordered it.is_bid it.level_price _ s h)
    ]

remove_at-Reaches :
    (s : LimitOrderBook) (ref canceled_shares : ℕ) (it : OrderIt) (o : Option (PriceLevel × Order))
    → Ordered s
    → Reaches (remove_at s ref canceled_shares it o)
unfolding remove_at
remove_at-Reaches s ref canceled_shares it none h = tt
remove_at-Reaches s ref canceled_shares it (some (level, order)) h =
    reduce-Ordered s ref canceled_shares it level order h

remove_order-Reaches :
    (s : LimitOrderBook) (ref canceled_shares : ℕ)
    → Ordered s
    → Reaches (remove_order s ref canceled_shares)
unfolding remove_order
remove_order-Reaches s ref canceled_shares h =
    elim (find_entry ref s.orders)
      as (λ o.
        Reaches
          (elim o [ none ↦ some s | some it ↦ remove_at s ref canceled_shares it (follow s it) ])) [
            | none ↦ h
            | some it ↦ remove_at-Reaches s ref canceled_shares it (follow s it) h
          ]

add_to_book-Ordered :
    (s : LimitOrderBook) (ref side shares price : ℕ) (stock : List ℕ)
    → Ordered s
    → Ordered (add_to_book s ref side shares price stock)
unfolding add_to_book place
add_to_book-Ordered s ref side shares price stock h =
    put_level-Ordered (side == b'B') price _ _ (Ordered-same s _ (s.next_id + 1) h)

if_ours-Reaches :
    (s : LimitOrderBook) (o : Option (PriceLevel × Order)) (handle : Order → Option LimitOrderBook)
    → Ordered s
    → ((order : Order) → Reaches (handle order))
    → Reaches (if_ours s o handle)
unfolding if_ours
if_ours-Reaches s none handle h k = tt
if_ours-Reaches s (some (level, order)) handle h k =
    Reaches-if (not (text_eq order.stock s.stock_symbol)) (some s) (handle order) h (k order)

with_order-Reaches :
    (s : LimitOrderBook) (ref : ℕ) (handle : Order → Option LimitOrderBook)
    → Ordered s
    → ((order : Order) → Reaches (handle order))
    → Reaches (with_order s ref handle)
unfolding with_order
with_order-Reaches s ref handle h k =
    elim (find_entry ref s.orders)
      as (λ o. Reaches (elim o [ none ↦ some s | some it ↦ if_ours s (follow s it) handle ])) [
        | none ↦ h
        | some it ↦ if_ours-Reaches s (follow s it) handle h k
      ]

add_after-Reaches :
    (ref side shares price : ℕ) (stock : List ℕ) (o : Option LimitOrderBook)
    → Reaches o
    → Reaches (add_after ref side shares price stock o)
unfolding add_after
add_after-Reaches ref side shares price stock none h = tt
add_after-Reaches ref side shares price stock (some t) h =
    add_to_book-Ordered t ref side shares price stock h

handle_add-Ordered :
    (s : LimitOrderBook) (ref side shares price : ℕ) (stock : List ℕ)
    → Ordered s
    → Ordered (handle_add s ref side shares price stock)
unfolding handle_add
handle_add-Ordered s ref side shares price stock h =
    elim (Bool-cases (not (text_eq (to_string stock) s.stock_symbol))) [
      | inl foreign ↦ rw foreign h
      | inr ours ↦ rw ours (add_to_book-Ordered s ref side shares price (to_string stock) h)
    ]

handle_message-Reaches :
    (s : LimitOrderBook) (m : Message) → Ordered s → Reaches (handle_message s m)
unfolding handle_message handle_reduction handle_delete handle_replace
handle_message-Reaches s (add_order m) h = handle_add-Ordered s _ _ _ _ _ h
handle_message-Reaches s (add_order_mpid_attribution m) h = handle_add-Ordered s _ _ _ _ _ h
handle_message-Reaches s (order_executed m) h =
    with_order-Reaches s m.order_reference_number _ h
      λ order. remove_order-Reaches s m.order_reference_number m.executed_shares h
handle_message-Reaches s (order_executed_with_price m) h =
    with_order-Reaches s m.order_reference_number _ h
      λ order. remove_order-Reaches s m.order_reference_number m.executed_shares h
handle_message-Reaches s (order_cancel m) h =
    with_order-Reaches s m.order_reference_number _ h
      λ order. remove_order-Reaches s m.order_reference_number m.cancelled_shares h
handle_message-Reaches s (order_delete m) h =
    with_order-Reaches s m.order_reference_number _ h
      λ order. remove_order-Reaches s m.order_reference_number order.shares h
handle_message-Reaches s (order_replace m) h =
    with_order-Reaches s m.original_order_reference_number _ h λ order.
      add_after-Reaches m.new_order_reference_number order.buy_sell_indicator m.shares m.price
        order.stock _ (remove_order-Reaches s m.original_order_reference_number order.shares h)
handle_message-Reaches s _ h = h

process-Reaches : (s : LimitOrderBook) (m : Message) → Ordered s → Reaches (process s m)
unfolding process
process-Reaches s m h =
    Reaches-if (not (book_messages (header_of m).message_type)) (some s) (handle_message s m) h
      (handle_message-Reaches s m h)

-- The bids from the highest price down and the asks from the lowest up, one level for each price
pub record Ladders (s : LimitOrderBook) : Type 0 where
  pub bids_descending : Descending s.bids
  pub asks_ascending : Ascending s.asks

-- A book that satisfies the invariant, with its bids sorted from the highest price down and its
-- asks from the lowest price up, one level for each price, processes any message to a book that is
-- sorted in the same way.
pub process-Ladders :
    (s : LimitOrderBook) (m : Message)
    → WellFormed s
    → Ladders s
    → (t : LimitOrderBook) × (process s m ≡ some t) × Ladders t
process-Ladders s m w h =
    let (t, e, v) = process-Keeps s m w in
    let sorted : Ordered s = record {
      bids_sorted = Sorted-of_Descending s.bids h.bids_descending;
      asks_sorted = Sorted-of_Ascending s.asks h.asks_ascending;
    } in
    let kept : Ordered t = rw e at (process-Reaches s m sorted) in
    (
      t,
      e,
      record {
        bids_descending = Descending-of_Sorted t.bids kept.bids_sorted;
        asks_ascending = Ascending-of_Sorted t.asks kept.asks_sorted;
      },
    )
