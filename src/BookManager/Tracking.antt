-- ===== src/BookManager/Tracking.antt =====
-- The tracked symbols and the count of books of src/book/book_manager.cpp, after every sequence of
-- messages.
use itchcpp.Prelude.{
  ℕ, ◌≡◌, refl, sym, ◌∙◌, ap, List, [], ◌∷◌, Option, none, some, Bool, true, false, inl, inr,
  Option-cases, ◌==◌,
}
use itchcpp.Message.{
  Message, system_event, stock_trading_action, reg_sho, market_participant_position,
  mwcb_decline_level, mwcb_status, ipo_quoting_period_update, luld_auction_collar, operational_halt,
  broken_trade, noii, retail_price_improvement_indicator, dlcr, stock_directory, add_order,
  add_order_mpid_attribution, order_executed, order_executed_with_price, order_cancel, order_delete,
  order_replace, non_cross_trade, cross_trade,
}
use itchcpp.L3Book.{L3Book, execute_order, reduce_order, delete_order, replace_order, order_side}
use itchcpp.L3Book.Naming.{
  symbol-execute_order, symbol-reduce_order, symbol-delete_order, symbol-replace_order,
}
use itchcpp.L3Book.Interface.{Index}
use itchcpp.BookManager.{
  BookEntry, BookManager, Event, in_list, in_universe, and_then, change_book, tape, new_trade,
  execution_trade, side_char, handle_order_executed, handle_order_executed_with_price,
  handle_order_cancel, handle_order_delete, handle_order_replace, handle_stock_directory, process,
  book_at, new_manager,
}
use itchcpp.BookManager.Slots.{slot, entry-slot, filled}
use itchcpp.BookManager.Universe.{Kept, change_book-Kept, handle_add_order-Kept, with_entry-Kept}
use itchcpp.BookManager.Symbols.{track_all, track_all-fresh, none_held, universe-tracked}
use itchcpp.BookManager.Announcing.{after}

module _ {T : Type 0} where
  and_then-Kept :
      (allowed : List ℕ → Bool) (events : List (Event T)) (r : BookManager T × List (Event T))
      → Kept allowed r.0
      → Kept allowed (and_then events r).0
  unfolding and_then
  and_then-Kept allowed events (m, more) k = k

  book_at-slot :
      (m : BookManager T) (locate : ℕ) (book : L3Book T)
      → book_at m locate ≡ some book
      → (e : BookEntry T) × (slot m locate ≡ some e) × (e.book ≡ book)
  unfolding book_at
  book_at-slot m locate book h = elim (Option-cases (slot m locate)) [
    | inl absent ↦
        let missing : book_at m locate ≡ none = rw (entry-slot m locate, absent, book_at) refl in
        absurd (cc)
    | inr (e, held) ↦
        let there : book_at m locate ≡ some e.book = rw (entry-slot m locate, held, book_at) refl in
        (
          e,
          held,
          ap (λ (o : Option (L3Book T)). elim o [ none ↦ book | some x ↦ x ]) (sym there ∙ h),
        )
  ]

module _ {T : Type 0} ⦃idx : Index T⦄ (allowed : List ℕ → Bool) where
  -- A handler that gives the entry another book with its symbol
  change-Kept :
      (m : BookManager T) (locate : ℕ) (change : L3Book T → L3Book T)
      → Kept allowed m
      → ((book : L3Book T) → (change book).symbol ≡ book.symbol)
      → (target : BookEntry T) → slot m locate ≡ some target
      → Kept allowed (change_book m locate target (change target.book)).0
  change-Kept m locate change k same target found =
      change_book-Kept allowed m locate target (change target.book) k (same target.book) found

  process-Kept :
      (m : BookManager T) (message : Message) → Kept allowed m → Kept allowed (process m message).0
  unfolding process handle_order_executed handle_order_executed_with_price handle_order_cancel
      handle_order_delete handle_order_replace
  process-Kept m (add_order a) k =
      handle_add_order-Kept allowed m a.stock_locate a.stock a.order_reference_number
        a.buy_sell_indicator a.shares a.price k
  process-Kept m (add_order_mpid_attribution a) k =
      handle_add_order-Kept allowed m a.stock_locate a.stock a.order_reference_number
        a.buy_sell_indicator a.shares a.price k
  process-Kept m (order_executed e) k = with_entry-Kept allowed m e.stock_locate _ k λ target found.
      and_then-Kept allowed (execution_trade m e target.book)
        (change_book m e.stock_locate target
          (execute_order target.book e.order_reference_number e.executed_shares).0)
        (change-Kept m e.stock_locate
          (λ b. (execute_order b e.order_reference_number e.executed_shares).0) k
          (λ b. symbol-execute_order b e.order_reference_number e.executed_shares) target found)
  process-Kept m (order_executed_with_price e) k =
      with_entry-Kept allowed m e.stock_locate _ k λ target found.
        and_then-Kept allowed
          (tape m (
            new_trade e.timestamp e.stock_locate target.book.symbol e.execution_price
              e.executed_shares e.match_number
              (side_char (order_side target.book e.order_reference_number)) (e.printable == b'Y')))
          (change_book m e.stock_locate target
            (execute_order target.book e.order_reference_number e.executed_shares).0)
          (change-Kept m e.stock_locate
            (λ b. (execute_order b e.order_reference_number e.executed_shares).0) k
            (λ b. symbol-execute_order b e.order_reference_number e.executed_shares) target found)
  process-Kept m (order_cancel c) k = with_entry-Kept allowed m c.stock_locate _ k (
      change-Kept m c.stock_locate
        (λ b. (reduce_order b c.order_reference_number c.cancelled_shares).0) k
        (λ b. symbol-reduce_order b c.order_reference_number c.cancelled_shares))
  process-Kept m (order_delete d) k = with_entry-Kept allowed m d.stock_locate _ k (
      change-Kept m d.stock_locate (λ b. delete_order b d.order_reference_number) k
        (λ b. symbol-delete_order b d.order_reference_number))
  process-Kept m (order_replace r) k = with_entry-Kept allowed m r.stock_locate _ k (
      change-Kept m r.stock_locate
        (λ b.
          replace_order b r.original_order_reference_number r.new_order_reference_number r.shares
            r.price)
        k
        (λ b.
          symbol-replace_order b r.original_order_reference_number r.new_order_reference_number
            r.shares r.price))
  process-Kept m (non_cross_trade t) k = k
  process-Kept m (cross_trade c) k = k
  process-Kept m (stock_directory d) k =
      unfold handle_stock_directory in
      record {
        counted = k.counted;
        within = k.within;
        allows = unfold in_universe in k.allows;
        renames = k.renames;
      }
  process-Kept m (system_event x) k = k
  process-Kept m (stock_trading_action x) k = k
  process-Kept m (reg_sho x) k = k
  process-Kept m (market_participant_position x) k = k
  process-Kept m (mwcb_decline_level x) k = k
  process-Kept m (mwcb_status x) k = k
  process-Kept m (ipo_quoting_period_update x) k = k
  process-Kept m (luld_auction_collar x) k = k
  process-Kept m (operational_halt x) k = k
  process-Kept m (broken_trade x) k = k
  process-Kept m (noii x) k = k
  process-Kept m (retail_price_improvement_indicator x) k = k
  process-Kept m (dlcr x) k = k

  after-Kept :
      (m : BookManager T) (messages : List Message)
      → Kept allowed m
      → Kept allowed (after m messages)
  unfolding after
  after-Kept m [] k = k
  after-Kept m (message ∷ messages) k =
      after-Kept (process m message).0 messages (process-Kept m message k)

module _ {T : Type 0} ⦃idx : Index T⦄ where
  tracking-Kept :
      (b t : Bool) (symbols : List (List ℕ)) (allowed : List ℕ → Bool)
      → ((symbol : List ℕ)
          → in_universe (track_all (new_manager {T = T} b t) symbols) symbol ≡ true
          → allowed symbol ≡ true)
      → ((symbol : List ℕ) → allowed [] ≡ true → allowed symbol ≡ true)
      → Kept {T = T} allowed (track_all (new_manager b t) symbols)
  unfolding new_manager filled
  tracking-Kept b t symbols allowed allows renames =
      let (books, count) = track_all-fresh (new_manager {T = T} b t) symbols in
      record {
        counted = count ∙ ap filled (sym books);
        within = λ l e h. absurd (none_held (track_all (new_manager b t) symbols) l e books h);
        allows = allows;
        renames = renames;
      }

module _ (T : Type 0) ⦃idx : Index T⦄ where
  -- Over any order index with the laws of a map, which `OrderIndex` satisfies:
  -- after any tracked symbols and any sequence of messages, the count of books is the number of
  -- locate codes that have a book.
  pub book_count-filled :
      (has_bbo_callback has_trade_callback : Bool) (symbols : List (List ℕ))
      (messages : List Message)
      → (after
          (track_all (new_manager {T = T} has_bbo_callback has_trade_callback) symbols)
          messages).book_count
        ≡ filled
            (after
              (track_all (new_manager {T = T} has_bbo_callback has_trade_callback) symbols)
              messages).books_by_locate
  book_count-filled b t symbols messages =
      (after-Kept (λ s. true) (track_all (new_manager b t) symbols) messages
        (tracking-Kept b t symbols (λ s. true) (λ s h. refl) (λ s h. refl))).counted

  -- Over any order index with the laws of a map, which `OrderIndex` satisfies:
  -- when at least one symbol is tracked, and not the empty one, then after any sequence of messages
  -- every book is the book of a tracked symbol.
  pub book_at-tracked :
      (has_bbo_callback has_trade_callback : Bool) (first : List ℕ) (symbols : List (List ℕ))
      (messages : List Message) (stock_locate : ℕ) (book : L3Book T)
      → in_list (first ∷ symbols) [] ≡ false
      → book_at
          (after
            (track_all (new_manager has_bbo_callback has_trade_callback) (first ∷ symbols))
            messages)
          stock_locate
        ≡ some book
      → in_list (first ∷ symbols) book.symbol ≡ true
  book_at-tracked b t first symbols messages stock_locate book unnamed found =
      let start : BookManager T = track_all (new_manager b t) (first ∷ symbols) in
      let k : Kept (in_list (first ∷ symbols)) (after start messages) =
        after-Kept (in_list (first ∷ symbols)) start messages (
          tracking-Kept b t (first ∷ symbols) (in_list (first ∷ symbols))
            (universe-tracked T b t first symbols) (λ s h. absurd (cc))) in
      let (e, held, same) = book_at-slot (after start messages) stock_locate book found in
      ap (λ (c : L3Book T). in_list (first ∷ symbols) c.symbol) (sym same)
      ∙ k.within stock_locate e held
