-- ===== src/BookManager/Announcing.antt =====
-- `BookManager::process` of src/book/book_manager.cpp, for every message and every sequence of messages.
use itchcpp.Prelude.{
  ℕ, ◌≡◌, refl, ◌∙◌, List, [], ◌∷◌, ◌++◌, Bool, true, inl, inr, Bool-cases, Option-cases,
}
use itchcpp.Message.{
  OrderExecutedMessage, OrderExecutedWithPriceMessage, Message, header_of, system_event,
  stock_trading_action, reg_sho, market_participant_position, mwcb_decline_level, mwcb_status,
  ipo_quoting_period_update, luld_auction_collar, operational_halt, broken_trade, noii,
  retail_price_improvement_indicator, dlcr, stock_directory, add_order, add_order_mpid_attribution,
  order_executed, order_executed_with_price, order_cancel, order_delete, order_replace,
  non_cross_trade, cross_trade,
}
use itchcpp.Bars.{Trade}
use itchcpp.L3Book.{
  L3Book, execute_order, reduce_order, delete_order, replace_order, order_price, order_side,
}
use itchcpp.L3Book.Interface.{Index}
use itchcpp.BookManager.{
  handle_order_cancel, handle_order_delete, handle_order_replace, BookManager, Event, tape,
  change_book, execution_trade, handle_order_executed, handle_order_executed_with_price, new_trade,
  side_char, handle_non_cross_trade, handle_cross_trade, handle_stock_directory, process,
  new_manager,
}
use itchcpp.BookManager.Slots.{slot}
use itchcpp.BookManager.Quotes.{
  Synced, Quoted, quotes, nothing-Quoted, and_then-Quoted, quotes-tape,
}
use itchcpp.BookManager.Entries.{handle_add_order-Quoted, with_entry-Quoted, change-Quoted}

module _ {T : Type 0} ⦃idx : Index T⦄ where
  execution_trade-silent :
      (m : BookManager T) (e : OrderExecutedMessage) (book : L3Book T) (more : List (Event T))
      → quotes (execution_trade m e book ++ more) ≡ quotes more
  unfolding execution_trade
  execution_trade-silent m e book more =
      elim (Option-cases (order_price book e.order_reference_number)) [
        | inl absent ↦ rw (absent, execution_trade)
        | inr (price, found) ↦
            rw (found, execution_trade)
              (quotes-tape m
                (new_trade e.timestamp e.stock_locate book.symbol price e.executed_shares
                  e.match_number (side_char (order_side book e.order_reference_number)) true)
                more)
      ]

  handle_order_executed-Quoted :
      (m : BookManager T) (e : OrderExecutedMessage)
      → Synced m
      → m.has_bbo_callback ≡ true
      → Quoted m e.stock_locate (handle_order_executed m e)
  unfolding handle_order_executed
  handle_order_executed-Quoted m e s callback =
      let after : L3Book T → L3Book T =
        λ b. (execute_order b e.order_reference_number e.executed_shares).0 in
      with_entry-Quoted m e.stock_locate _ s λ target found.
        and_then-Quoted m e.stock_locate (execution_trade m e target.book)
          (change_book m e.stock_locate target (after target.book))
          (execution_trade-silent m e target.book)
          (change-Quoted m e.stock_locate after s callback target found)

  handle_order_executed_with_price-Quoted :
      (m : BookManager T) (e : OrderExecutedWithPriceMessage)
      → Synced m
      → m.has_bbo_callback ≡ true
      → Quoted m e.stock_locate (handle_order_executed_with_price m e)
  unfolding handle_order_executed_with_price
  handle_order_executed_with_price-Quoted m e s callback =
      let after : L3Book T → L3Book T =
        λ b. (execute_order b e.order_reference_number e.executed_shares).0 in
      with_entry-Quoted m e.stock_locate _ s λ target found.
        and_then-Quoted m e.stock_locate _ (change_book m e.stock_locate target (after target.book))
          (quotes-tape m _) (change-Quoted m e.stock_locate after s callback target found)

  -- A message that changes no book and announces no quote
  quiet-Quoted :
      (m m' : BookManager T) (locate : ℕ) (events : List (Event T))
      → Synced m
      → quotes events ≡ []
      → ((l : ℕ) → slot m' l ≡ slot m l)
      → m'.has_bbo_callback ≡ m.has_bbo_callback
      → Quoted m locate (m', events)
  unfolding quotes
  quiet-Quoted m m' locate events s silent same callback =
      let q : Quoted m locate (m', []) = nothing-Quoted m m' locate s same callback in
      record {
        synced = q.synced;
        announced = silent ∙ q.announced;
        others = q.others;
        callback_same = callback;
      }

  tape-silent : (m : BookManager T) (trade : Trade) → quotes (tape m trade) ≡ []
  unfolding tape quotes
  tape-silent m trade = elim (Bool-cases m.has_trade_callback) [ inl on ↦ rw on | inr off ↦ rw off ]

  process-Quoted_lem :
      (m : BookManager T) (message : Message)
      → Synced m
      → m.has_bbo_callback ≡ true
      → Quoted m (header_of message).stock_locate (process m message)
  unfolding process header_of handle_order_cancel handle_order_delete handle_order_replace
  process-Quoted_lem m (add_order a) s callback =
      handle_add_order-Quoted m a.stock_locate a.stock a.order_reference_number a.buy_sell_indicator
        a.shares a.price s callback
  process-Quoted_lem m (add_order_mpid_attribution a) s callback =
      handle_add_order-Quoted m a.stock_locate a.stock a.order_reference_number a.buy_sell_indicator
        a.shares a.price s callback
  process-Quoted_lem m (order_executed e) s callback = handle_order_executed-Quoted m e s callback
  process-Quoted_lem m (order_executed_with_price e) s callback =
      handle_order_executed_with_price-Quoted m e s callback
  process-Quoted_lem m (order_cancel c) s callback = with_entry-Quoted m c.stock_locate _ s (
      change-Quoted m c.stock_locate
        (λ b. (reduce_order b c.order_reference_number c.cancelled_shares).0) s callback)
  process-Quoted_lem m (order_delete d) s callback =
      with_entry-Quoted m d.stock_locate _ s
        (change-Quoted m d.stock_locate (λ b. delete_order b d.order_reference_number) s callback)
  process-Quoted_lem m (order_replace r) s callback = with_entry-Quoted m r.stock_locate _ s (
      change-Quoted m r.stock_locate
        (λ b.
          replace_order b r.original_order_reference_number r.new_order_reference_number r.shares
            r.price)
        s callback)
  process-Quoted_lem m (non_cross_trade t) s callback =
      quiet-Quoted m m t.stock_locate _ s (unfold handle_non_cross_trade in tape-silent m _)
        (λ l. refl) refl
  process-Quoted_lem m (cross_trade c) s callback =
      quiet-Quoted m m c.stock_locate _ s (unfold handle_cross_trade in tape-silent m _) (λ l. refl)
        refl
  process-Quoted_lem m (stock_directory d) s callback =
      unfold handle_stock_directory in
      nothing-Quoted m (handle_stock_directory m d) d.stock_locate s (λ l. refl) refl
  process-Quoted_lem m (system_event x) s callback =
      nothing-Quoted m m x.stock_locate s (λ l. refl) refl
  process-Quoted_lem m (stock_trading_action x) s callback =
      nothing-Quoted m m x.stock_locate s (λ l. refl) refl
  process-Quoted_lem m (reg_sho x) s callback = nothing-Quoted m m x.stock_locate s (λ l. refl) refl
  process-Quoted_lem m (market_participant_position x) s callback =
      nothing-Quoted m m x.stock_locate s (λ l. refl) refl
  process-Quoted_lem m (mwcb_decline_level x) s callback =
      nothing-Quoted m m x.stock_locate s (λ l. refl) refl
  process-Quoted_lem m (mwcb_status x) s callback =
      nothing-Quoted m m x.stock_locate s (λ l. refl) refl
  process-Quoted_lem m (ipo_quoting_period_update x) s callback =
      nothing-Quoted m m x.stock_locate s (λ l. refl) refl
  process-Quoted_lem m (luld_auction_collar x) s callback =
      nothing-Quoted m m x.stock_locate s (λ l. refl) refl
  process-Quoted_lem m (operational_halt x) s callback =
      nothing-Quoted m m x.stock_locate s (λ l. refl) refl
  process-Quoted_lem m (broken_trade x) s callback =
      nothing-Quoted m m x.stock_locate s (λ l. refl) refl
  process-Quoted_lem m (noii x) s callback = nothing-Quoted m m x.stock_locate s (λ l. refl) refl
  process-Quoted_lem m (retail_price_improvement_indicator x) s callback =
      nothing-Quoted m m x.stock_locate s (λ l. refl) refl
  process-Quoted_lem m (dlcr x) s callback = nothing-Quoted m m x.stock_locate s (λ l. refl) refl

  -- The manager after a sequence of messages
  unfoldable pub after : BookManager T → List Message → BookManager T
  after m [] = m
  after m (message ∷ messages) = after (process m message).0 messages

  after-Synced :
      (m : BookManager T) (messages : List Message)
      → Synced m
      → m.has_bbo_callback ≡ true
      → Synced (after m messages) × ((after m messages).has_bbo_callback ≡ true)
  unfolding after
  after-Synced m [] s callback = (s, callback)
  after-Synced m (message ∷ messages) s callback =
      let q : Quoted m (header_of message).stock_locate (process m message) =
        process-Quoted_lem m message s callback in
      after-Synced (process m message).0 messages q.synced (q.callback_same ∙ callback)

  new_manager-Synced : (b t : Bool) → Synced {T = T} (new_manager b t)
  unfolding new_manager
  new_manager-Synced b t = record { remembers = λ l e h. absurd (cc) }

  -- Over any order index with the laws of a map, which `OrderIndex` satisfies:
  -- after any sequence of messages from a new manager whose callback for quotes is set, every message
  -- announces the best bid and offer of the book of its locate code when the message changed it, with
  -- the new value and once, and announces nothing when it did not; a book that does not exist counts
  -- as an empty one. The entries of every other locate code stay as they were, and every entry
  -- remembers the quote of its book.
  pub process-Quoted :
      (has_trade_callback : Bool) (messages : List Message) (message : Message)
      → Quoted
          (after (new_manager true has_trade_callback) messages)
          (header_of message).stock_locate
          (process (after (new_manager true has_trade_callback) messages) message)
  process-Quoted has_trade_callback messages message =
      let start : BookManager T = new_manager true has_trade_callback in
      let (s, callback) =
        after-Synced start messages (new_manager-Synced true has_trade_callback)
          (unfold new_manager in refl) in
      process-Quoted_lem (after start messages) message s callback
