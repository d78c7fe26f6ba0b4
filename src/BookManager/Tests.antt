-- ===== src/BookManager/Tests.antt =====
-- A run of the manager of src/book/book_manager.cpp over books whose index is a list of pairs, and the
-- theorem at it.
use itchcpp.Prelude.{ℕ, ◌≡◌, refl, List, [], ◌∷◌, none, some, true, false}
use itchcpp.Message.{Message, header_of, add_order, order_executed}
use itchcpp.Text.{text_eq, trim_end}
use itchcpp.OrderBook.{to_string}
use itchcpp.BookManager.Slots.{filled}
use itchcpp.BookManager.Symbols.{track_all}
use itchcpp.BookManager.Tracking.{book_count-filled, book_at-tracked}
use itchcpp.L3Book.{L3Book, bbo, new_book, order_price, execute_order}
use itchcpp.L3Book
use itchcpp.OrderIndex.Laws.{SoundIndex, order_index}
use itchcpp.L3Book.Pairs.{Pairs, pairs, find_pair}
use itchcpp.BookManager.{
  BookManager, process, new_manager, handle_order_executed, handle_add_order, bbo_eq, to_side,
  in_list, track_symbol, book_at,
}
use itchcpp.BookManager.Quotes.{Quoted, quotes}
use itchcpp.BookManager.Announcing.{after, process-Quoted}

abbrev bid : Message
bid = add_order (record {
  header = record { message_type = b'A'; stock_locate = 1; tracking_number = 0; timestamp = 5 };
  order_reference_number = 77;
  buy_sell_indicator = b'B';
  shares = 100;
  stock = b'A' ∷ b'B' ∷ b' ' ∷ b' ' ∷ b' ' ∷ b' ' ∷ b' ' ∷ b' ' ∷ [];
  price = 250;
})

abbrev execution : Message
execution = order_executed (record {
  header = record { message_type = b'E'; stock_locate = 1; tracking_number = 0; timestamp = 6 };
  order_reference_number = 77;
  executed_shares = 30;
  match_number = 1;
})

abbrev start : BookManager Pairs
start = new_manager true true

process-Quoted_example :
    Quoted
      (after (new_manager {T = SoundIndex} true true) (bid ∷ []))
      (header_of execution).stock_locate
      (process (after (new_manager true true) (bid ∷ [])) execution)
process-Quoted_example = process-Quoted true (bid ∷ []) execution

-- The execution announces the 70 shares that are left.
execution_quote :
    quotes (process (after start (bid ∷ [])) execution).1
    ≡ record {
      has_bid = true;
      has_ask = false;
      bid_price = 250;
      bid_shares = 70;
      ask_price = 0;
      ask_shares = 0;
    }
      ∷ []
unfolding after process quotes header_of handle_order_executed handle_add_order new_manager bbo_eq
    bbo L3Book.add_order find_pair new_book to_side order_price execute_order
execution_quote = refl

abbrev symbol : List ℕ
symbol = b'A' ∷ b'B' ∷ []

abbrev tracking : BookManager Pairs
tracking = track_all start (symbol ∷ [])

book_count-filled_example :
    (after
      (track_all (new_manager {T = SoundIndex} true true) (symbol ∷ []))
      (bid ∷ execution ∷ [])).book_count
    ≡ filled
        (after
          (track_all (new_manager {T = SoundIndex} true true) (symbol ∷ []))
          (bid ∷ execution ∷ [])).books_by_locate
book_count-filled_example =
    book_count-filled SoundIndex true true (symbol ∷ []) (bid ∷ execution ∷ [])

one_book : (after tracking (bid ∷ execution ∷ [])).book_count ≡ 1
unfolding after track_all track_symbol process handle_order_executed handle_add_order new_manager
    bbo_eq bbo L3Book.add_order find_pair new_book to_side order_price execute_order to_string
    in_list text_eq trim_end
one_book = refl

-- The book of the locate code 1 after the bid
abbrev tracked_book : L3Book Pairs
tracked_book = elim (book_at (after tracking (bid ∷ [])) 1) [
  | none ↦ new_book []
  | some book ↦ book
]

tracked_book-held : book_at (after tracking (bid ∷ [])) 1 ≡ some tracked_book
unfolding after track_all track_symbol process handle_add_order new_manager bbo_eq bbo
    L3Book.add_order find_pair new_book to_side to_string in_list book_at text_eq trim_end
tracked_book-held = refl

symbol-named : in_list (symbol ∷ []) [] ≡ false
unfolding in_list text_eq
symbol-named = refl

book_at-tracked_example : in_list (symbol ∷ []) tracked_book.symbol ≡ true
book_at-tracked_example =
    book_at-tracked Pairs true true symbol [] (bid ∷ []) 1 tracked_book symbol-named
      tracked_book-held
