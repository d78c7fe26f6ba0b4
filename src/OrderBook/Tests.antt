-- ===== src/OrderBook/Tests.antt =====
-- Runs of the order book of src/order_book.cpp, and the theorems at them.
use itchcpp.Prelude.{ℕ, ◌≡◌, refl, List, [], ◌∷◌, none, some, true, arith}
use itchcpp.Text.{text_eq, trim_end}
use itchcpp.Message.{Message, header_of, add_order, order_executed}
use itchcpp.OrderBook.{
  Order, PriceLevel, LimitOrderBook, find_order, find_entry, level_at, remove_order, process,
  new_book,
}
use itchcpp.OrderBook.Effect.{Rests, remove_order-partial, remove_order-whole}
use itchcpp.OrderBook.WellFormed.{WellFormed}
use itchcpp.OrderBook.Process.{new_book-WellFormed, process_all, process_all-WellFormed}
use itchcpp.OrderBook.Ladders.{Ladders, process-Ladders}

abbrev symbol : List ℕ
symbol = b'A' ∷ b'B' ∷ []

abbrev bid : Message
bid = add_order (record {
  header = record { message_type = b'A'; stock_locate = 1; tracking_number = 0; timestamp = 5 };
  order_reference_number = 77;
  buy_sell_indicator = b'B';
  shares = 100;
  stock = b'A' ∷ b'B' ∷ b' ' ∷ b' ' ∷ b' ' ∷ b' ' ∷ b' ' ∷ b' ' ∷ [];
  price = 250;
})

abbrev execution : Message
execution = order_executed (record {
  header = record { message_type = b'E'; stock_locate = 1; tracking_number = 0; timestamp = 6 };
  order_reference_number = 77;
  executed_shares = 150;
  match_number = 1;
})

-- The order rests on the bid side.
abbrev resting : Order
resting = record {
  id = 0;
  order_reference_number = 77;
  buy_sell_indicator = b'B';
  shares = 100;
  price = 250;
  stock = symbol;
}

abbrev one_bid : LimitOrderBook
one_bid = record {
  stock_symbol = symbol;
  bids = (250, record { total_shares = 100; orders = resting ∷ [] }) ∷ [];
  asks = [];
  orders = (77, record { id = 0; is_bid = true; level_price = 250 }) ∷ [];
  next_id = 1;
}

-- More shares are executed than rest: both numbers wrap, and the order stays.
over_execution_run :
    remove_order one_bid 77 150
    ≡ some (record one_bid {
      bids =
          (
            250,
            record {
              total_shares = 4_294_967_246;
              orders = record resting { shares = 4_294_967_246 } ∷ [];
            },
          )
          ∷ [];
    })
unfolding remove_order
over_execution_run = refl

add_run : process (new_book symbol) bid ≡ some one_bid
unfolding process new_book header_of text_eq trim_end
add_run = refl

process_all-WellFormed_example :
    (t : LimitOrderBook) × (process_all (new_book symbol) (bid ∷ execution ∷ []) ≡ some t)
    × WellFormed t
process_all-WellFormed_example = process_all-WellFormed symbol (bid ∷ execution ∷ [])

new_book-Ladders : Ladders (new_book symbol)
new_book-Ladders = unfold new_book in record { bids_descending = tt; asks_ascending = tt }

process-Ladders_example :
    (t : LimitOrderBook) × (process (new_book symbol) bid ≡ some t) × Ladders t
process-Ladders_example =
    process-Ladders (new_book symbol) bid (new_book-WellFormed symbol) new_book-Ladders

one_bid-Rests :
    Rests one_bid 77
      (record { id = 0; is_bid = true; level_price = 250 })
      (record { total_shares = 100; orders = resting ∷ [] })
      resting
one_bid-Rests =
    unfold find_entry level_at find_order in record { entry = refl; at = refl; node = refl }

remove_order-partial_example :
    (t : LimitOrderBook) × (rest : PriceLevel) × (remove_order one_bid 77 30 ≡ some t)
    × (rest.total_shares ≡ 70)
    × Rests t 77
        (record { id = 0; is_bid = true; level_price = 250 })
        rest
        (record resting { shares = 70 })
remove_order-partial_example =
    remove_order-partial one_bid 77 30 (record { id = 0; is_bid = true; level_price = 250 })
      (record { total_shares = 100; orders = resting ∷ [] }) resting one_bid-Rests (omega arith)
      (omega arith)

remove_order-whole_example :
    (t : LimitOrderBook) × (remove_order one_bid 77 100 ≡ some t) × (find_entry 77 t.orders ≡ none)
remove_order-whole_example =
    remove_order-whole one_bid 77 77 (record { id = 0; is_bid = true; level_price = 250 })
      (record { total_shares = 100; orders = resting ∷ [] }) resting one_bid-Rests (omega arith)
