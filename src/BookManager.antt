-- ===== src/BookManager.antt =====
-- The class `BookManager`: include/itch/book/book_manager.hpp and src/book/book_manager.cpp, over the books
-- of L3Book.antt. A slot of the vector of books is `none` for a null pointer, and `m_universe` is a
-- list of symbols. What the two callbacks are called with, in order, is the list of events of a
-- call; a flag says whether a callback is set.
mod Tests
pub mod Slots
pub mod Quotes
pub mod Entries
pub mod Announcing
pub mod Universe
pub mod Symbols
pub mod Tracking
use itchcpp.Prelude.{
  ℕ, zero, suc, ◌+◌, ◌-◌, List, [], ◌∷◌, ◌++◌, Option, none, some, Bool, true, false, not, ◌&&◌,
  ◌||◌, ltb, leb, ◌==◌, if◌then◌else◌, length,
}
use itchcpp.Text.{text_eq}
use itchcpp.Message.{
  Message, OrderExecutedMessage, OrderExecutedWithPriceMessage, OrderCancelMessage,
  OrderDeleteMessage, OrderReplaceMessage, NonCrossTradeMessage, CrossTradeMessage,
  StockDirectoryMessage, stock_directory, add_order, add_order_mpid_attribution, order_executed,
  order_executed_with_price, order_cancel, order_delete, order_replace, non_cross_trade,
  cross_trade,
}
use itchcpp.Bars.{Trade}
use itchcpp.OrderBook.{to_string}
use itchcpp.L3Book
use itchcpp.L3Book.{
  L3Book, Bbo, Side, buy, sell, blank_bbo, bbo, new_book, set_symbol, execute_order, reduce_order,
  delete_order, replace_order, order_price, order_side,
}
use itchcpp.L3Book.Interface.{Index}
use itchcpp.L3Book.Vectors.{get_or, set}

pub record BookEntry (T : Type 0) : Type 0 where
  pub book : L3Book T
  pub last_bbo : Bbo

pub record BookManager (T : Type 0) : Type 0 where
  pub has_bbo_callback : Bool
  pub has_trade_callback : Bool
  pub books_by_locate : List (Option (BookEntry T))
  pub book_count : ℕ
  pub universe : List (List ℕ)
  pub symbol_by_locate : List (List ℕ)

pub data Event (T : Type 0) : Type 0 where
  bbo_changed : L3Book T → Bbo → Event T
  traded : Trade → Event T

unfoldable pub to_side : ℕ → Side
to_side buy_sell_indicator = if buy_sell_indicator == b'B' then buy else sell

-- static_cast<char>(*side), or '\0'
unfoldable pub side_char : Option Side → ℕ
side_char none = 0
side_char (some buy) = b'B'
side_char (some sell) = b'S'

same_flag : Bool → Bool → Bool
same_flag true b = b
same_flag false b = not b

-- The defaulted operator==
unfoldable pub bbo_eq : Bbo → Bbo → Bool
unfolding same_flag
bbo_eq a b =
    same_flag a.has_bid b.has_bid
    && same_flag a.has_ask b.has_ask
    && a.bid_price == b.bid_price
    && a.bid_shares == b.bid_shares
    && a.ask_price == b.ask_price
    && a.ask_shares == b.ask_shares

unfoldable pub in_list : List (List ℕ) → List ℕ → Bool
in_list [] symbol = false
in_list (s ∷ ss) symbol = text_eq s symbol || in_list ss symbol

unfoldable pub is_nil {ℓ} : {A : Type ℓ} → List A → Bool
is_nil [] = true
is_nil (x ∷ xs) = false

-- std::vector::resize to a size that is no smaller
unfoldable pub resize {ℓ} : {A : Type ℓ} → ℕ → A → List A → List A
resize zero blank xs = xs
resize (suc n) blank [] = blank ∷ resize n blank []
resize (suc n) blank (x ∷ xs) = x ∷ resize n blank xs

unfoldable pub resize_for {ℓ} : {A : Type ℓ} → ℕ → A → List A → List A
unfolding resize
resize_for locate blank xs = if leb (length xs) locate then resize (locate + 1) blank xs else xs

-- A trade with its default members
unfoldable pub new_trade : ℕ → ℕ → List ℕ → ℕ → ℕ → ℕ → ℕ → Bool → Trade
new_trade timestamp stock_locate symbol price shares match_number side printable = record {
  timestamp = timestamp;
  stock_locate = stock_locate;
  symbol = symbol;
  price = price;
  shares = shares;
  match_number = match_number;
  side = side;
  printable = printable;
  is_cross = false;
  cross_type = 0;
}

module _ {T : Type 0} where
  unfoldable pub in_universe : BookManager T → List ℕ → Bool
  unfolding is_nil in_list
  in_universe m symbol = is_nil m.universe || in_list m.universe symbol

  unfoldable pub track_symbol : BookManager T → List ℕ → BookManager T
  unfolding in_list
  track_symbol m symbol =
      if in_list m.universe symbol then m else record m { universe = symbol ∷ m.universe }

  unfoldable pub entry : BookManager T → ℕ → Option (BookEntry T)
  entry m stock_locate =
      if leb (length m.books_by_locate) stock_locate
      then none
      else get_or m.books_by_locate stock_locate none

  -- Assignment through the pointer to an entry
  unfoldable pub put_entry : BookManager T → ℕ → BookEntry T → BookManager T
  put_entry m stock_locate target = record m {
    books_by_locate = set m.books_by_locate stock_locate (some target);
  }

  -- `m_books_by_locate[stock_locate]` holds a book already: only its symbol may change.
  unfoldable pub name_entry :
      BookManager T → ℕ → List ℕ → BookEntry T → BookManager T × Option (BookEntry T)
  unfolding put_entry is_nil set_symbol
  name_entry m stock_locate symbol slot =
      let named = record slot { book = set_symbol slot.book symbol } in
      if is_nil slot.book.symbol && not (is_nil symbol)
      then (put_entry m stock_locate named, some named)
      else (m, some slot)

  -- emit_bbo_if_changed, with the entry written back
  unfoldable pub emit_bbo_if_changed :
      BookManager T → ℕ → BookEntry T → BookManager T × List (Event T)
  unfolding put_entry
  emit_bbo_if_changed m stock_locate target =
      let current = bbo target.book in
      if not (bbo_eq current target.last_bbo)
      then (
        put_entry m stock_locate (record target { last_bbo = current }),
        if m.has_bbo_callback then bbo_changed target.book current ∷ [] else [],
      )
      else (put_entry m stock_locate target, [])

  -- m_trade_callback(trade), if the callback is set
  unfoldable pub tape : BookManager T → Trade → List (Event T)
  tape m trade = if m.has_trade_callback then traded trade ∷ [] else []

  unfoldable pub and_then :
      List (Event T) → BookManager T × List (Event T) → BookManager T × List (Event T)
  and_then events (m, more) = (m, events ++ more)

module _ {T : Type 0} ⦃idx : Index T⦄ where
  unfoldable pub new_entry : List ℕ → BookEntry T
  new_entry symbol = record { book = set_symbol (new_book []) symbol; last_bbo = blank_bbo }

  unfoldable pub create_entry : BookManager T → ℕ → List ℕ → BookManager T × Option (BookEntry T)
  unfolding in_universe put_entry new_entry
  create_entry m stock_locate symbol = if not (in_universe m symbol) then (m, none) else (
    put_entry (record m { book_count = m.book_count + 1 }) stock_locate (new_entry symbol),
    some (new_entry symbol),
  )

  unfoldable pub ensure_entry : BookManager T → ℕ → List ℕ → BookManager T × Option (BookEntry T)
  unfolding resize_for name_entry create_entry
  ensure_entry m stock_locate symbol =
      let m' = record m { books_by_locate = resize_for stock_locate none m.books_by_locate } in
      elim (get_or m'.books_by_locate stock_locate none) [
        | some slot ↦ name_entry m' stock_locate symbol slot
        | none ↦ create_entry m' stock_locate symbol
      ]

  -- A handler on the book of an entry, and the best bid and offer after it
  unfoldable pub change_book :
      BookManager T → ℕ → BookEntry T → L3Book T → BookManager T × List (Event T)
  unfolding emit_bbo_if_changed
  change_book m stock_locate target book =
      emit_bbo_if_changed m stock_locate (record target { book = book })

  add_to_entry :
      BookManager T × Option (BookEntry T) → ℕ → ℕ → ℕ → ℕ → ℕ → BookManager T × List (Event T)
  unfolding change_book
  add_to_entry (m, none) stock_locate ref side shares price = (m, [])
  add_to_entry (m, some target) stock_locate ref side shares price =
      change_book m stock_locate target
        (L3Book.add_order target.book ref (to_side side) shares price)

  unfoldable pub handle_add_order :
      BookManager T → ℕ → List ℕ → ℕ → ℕ → ℕ → ℕ → BookManager T × List (Event T)
  unfolding ensure_entry add_to_entry
  handle_add_order m stock_locate stock ref side shares price =
      add_to_entry (ensure_entry m stock_locate (to_string stock)) stock_locate ref side shares
        price

  -- A handler that does nothing where there is no entry
  unfoldable pub with_entry :
      BookManager T
      → ℕ
      → (BookEntry T → BookManager T × List (Event T))
      → BookManager T × List (Event T)
  unfolding entry
  with_entry m stock_locate handle = elim (entry m stock_locate) [
    | none ↦ (m, [])
    | some target ↦ handle target
  ]

  -- The trade of an execution at the price of the order, if it rests
  unfoldable pub execution_trade : BookManager T → OrderExecutedMessage → L3Book T → List (Event T)
  unfolding tape new_trade
  execution_trade m exec book = elim (order_price book exec.order_reference_number) [
    | none ↦ []
    | some price ↦ tape m (
        new_trade exec.timestamp exec.stock_locate book.symbol price exec.executed_shares
          exec.match_number (side_char (order_side book exec.order_reference_number)) true)
  ]

  unfoldable pub handle_order_executed :
      BookManager T → OrderExecutedMessage → BookManager T × List (Event T)
  unfolding with_entry and_then execution_trade change_book
  handle_order_executed m exec = with_entry m exec.stock_locate λ target.
      and_then (execution_trade m exec target.book) (
        change_book m exec.stock_locate target
          (execute_order target.book exec.order_reference_number exec.executed_shares).0)

  unfoldable pub handle_order_executed_with_price :
      BookManager T → OrderExecutedWithPriceMessage → BookManager T × List (Event T)
  unfolding with_entry and_then tape new_trade change_book
  handle_order_executed_with_price m exec = with_entry m exec.stock_locate λ target.
      and_then
        (tape m (
          new_trade exec.timestamp exec.stock_locate target.book.symbol exec.execution_price
            exec.executed_shares exec.match_number
            (side_char (order_side target.book exec.order_reference_number))
            (exec.printable == b'Y')))
        (change_book m exec.stock_locate target
          (execute_order target.book exec.order_reference_number exec.executed_shares).0)

  unfoldable pub handle_order_cancel :
      BookManager T → OrderCancelMessage → BookManager T × List (Event T)
  unfolding with_entry change_book
  handle_order_cancel m cancel = with_entry m cancel.stock_locate λ target.
      change_book m cancel.stock_locate target
        (reduce_order target.book cancel.order_reference_number cancel.cancelled_shares).0

  unfoldable pub handle_order_delete :
      BookManager T → OrderDeleteMessage → BookManager T × List (Event T)
  unfolding with_entry change_book
  handle_order_delete m del = with_entry m del.stock_locate λ target.
      change_book m del.stock_locate target (delete_order target.book del.order_reference_number)

  unfoldable pub handle_order_replace :
      BookManager T → OrderReplaceMessage → BookManager T × List (Event T)
  unfolding with_entry change_book
  handle_order_replace m replace = with_entry m replace.stock_locate λ target.
      change_book m replace.stock_locate target (
        replace_order target.book replace.original_order_reference_number
          replace.new_order_reference_number replace.shares replace.price)

  unfoldable pub handle_non_cross_trade : BookManager T → NonCrossTradeMessage → List (Event T)
  unfolding tape new_trade
  handle_non_cross_trade m trade = tape m (
      new_trade trade.timestamp trade.stock_locate (to_string trade.stock) trade.price trade.shares
        trade.match_number trade.buy_sell_indicator true)

  unfoldable pub handle_cross_trade : BookManager T → CrossTradeMessage → List (Event T)
  unfolding tape new_trade
  handle_cross_trade m cross =
      tape m
        (record (new_trade cross.timestamp cross.stock_locate (to_string cross.stock)
          cross.cross_price cross.shares cross.match_number 0 true) {
            is_cross = true;
            cross_type = cross.cross_type;
          })

  unfoldable pub handle_stock_directory : BookManager T → StockDirectoryMessage → BookManager T
  unfolding resize_for
  handle_stock_directory m directory = record m {
    symbol_by_locate =
        set (resize_for directory.stock_locate [] m.symbol_by_locate) directory.stock_locate
          (to_string directory.stock);
  }

  -- BookManager::process; every other message does nothing
  unfoldable pub process : BookManager T → Message → BookManager T × List (Event T)
  process m (add_order a) =
      handle_add_order m a.stock_locate a.stock a.order_reference_number a.buy_sell_indicator
        a.shares a.price
  process m (add_order_mpid_attribution a) =
      handle_add_order m a.stock_locate a.stock a.order_reference_number a.buy_sell_indicator
        a.shares a.price
  process m (order_executed e) = handle_order_executed m e
  process m (order_executed_with_price e) = handle_order_executed_with_price m e
  process m (order_cancel c) = handle_order_cancel m c
  process m (order_delete d) = handle_order_delete m d
  process m (order_replace r) = handle_order_replace m r
  process m (non_cross_trade t) = (m, handle_non_cross_trade m t)
  process m (cross_trade c) = (m, handle_cross_trade m c)
  process m (stock_directory d) = (handle_stock_directory m d, [])
  process m _ = (m, [])

module _ {T : Type 0} where
  unfoldable pub book_at : BookManager T → ℕ → Option (L3Book T)
  unfolding entry
  book_at m stock_locate = elim (entry m stock_locate) [
    | none ↦ none
    | some found ↦ some found.book
  ]

  book_in : List (Option (BookEntry T)) → List ℕ → Option (L3Book T)
  book_in [] symbol = none
  book_in (none ∷ slots) symbol = book_in slots symbol
  book_in (some slot ∷ slots) symbol =
      if text_eq slot.book.symbol symbol then some slot.book else book_in slots symbol

  unfoldable pub book_for_symbol : BookManager T → List ℕ → Option (L3Book T)
  unfolding book_in
  book_for_symbol m symbol = book_in m.books_by_locate symbol

  directory_symbol : BookManager T → ℕ → List ℕ
  directory_symbol m stock_locate =
      if ltb stock_locate (length m.symbol_by_locate)
      then get_or m.symbol_by_locate stock_locate []
      else []

  unfoldable pub symbol_for_locate : BookManager T → ℕ → List ℕ
  unfolding entry directory_symbol
  symbol_for_locate m stock_locate = elim (entry m stock_locate) [
    | none ↦ directory_symbol m stock_locate
    | some found ↦
        if not (is_nil found.book.symbol)
        then found.book.symbol
        else directory_symbol m stock_locate
  ]

  -- The members' initial values, with the callbacks that are set
  unfoldable pub new_manager : Bool → Bool → BookManager T
  new_manager has_bbo_callback has_trade_callback = record {
    has_bbo_callback = has_bbo_callback;
    has_trade_callback = has_trade_callback;
    books_by_locate = [];
    book_count = 0;
    universe = [];
    symbol_by_locate = [];
  }
