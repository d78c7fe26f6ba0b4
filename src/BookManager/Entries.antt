-- ===== src/BookManager/Entries.antt =====
-- `ensure_entry`, `entry` and the handlers of src/book/book_manager.cpp: each readies the entry of the
-- message, or leaves the manager alone.
use itchcpp.Prelude.{
  ℕ, ◌+◌, ◌<◌, ◌≡◌, refl, sym, ◌∙◌, ap, List, Option, none, some, true, not, ◌&&◌, inl, inr,
  Bool-cases, Option-cases, ◌==◌, if◌then◌else◌, length, arith,
}
use itchcpp.L3Book
use itchcpp.L3Book.{
  L3Book, Bbo, blank_bbo, bbo, set_symbol, execute_order, reduce_order, delete_order, replace_order,
  order_price,
}
use itchcpp.OrderBook.{to_string}
use itchcpp.L3Book.Interface.{Index}
use itchcpp.BookManager.{
  to_side, BookEntry, BookManager, Event, is_nil, resize_for, in_universe, put_entry, name_entry,
  new_entry, create_entry, ensure_entry, change_book, add_to_entry, handle_add_order, with_entry,
}
use itchcpp.BookManager.Slots.{slot, entry-slot, slot-put, get_or-resize_for, resize_for-bound}
use itchcpp.BookManager.Quotes.{
  quote_of, quote_at, Synced, Quoted, Readied, nothing-Quoted, change_book-Quoted, entry-Readied,
}

module _ {T : Type 0} where
  -- `set_symbol` changes no price.
  bbo-set_symbol : (b : L3Book T) (symbol : List ℕ) → bbo (set_symbol b symbol) ≡ bbo b
  unfolding set_symbol bbo
  bbo-set_symbol b symbol = refl

  -- What `ensure_entry` returns: the entry, ready for its message, or nothing.
  Ensured : BookManager T → ℕ → BookManager T × Option (BookEntry T) → Type 0
  Ensured m locate (m', none) =
      ((l : ℕ) → slot m' l ≡ slot m l) × (m'.has_bbo_callback ≡ m.has_bbo_callback)
  Ensured m locate (m', some target) = Readied m m' locate target

  -- A slot written with an entry that remembers the quote before the message
  put-Readied :
      (m m' : BookManager T) (locate : ℕ) (e : BookEntry T)
      → locate < length m'.books_by_locate
      → ((l : ℕ) → slot m' l ≡ slot m l)
      → m'.has_bbo_callback ≡ m.has_bbo_callback
      → e.last_bbo ≡ quote_at m locate
      → Readied m (put_entry m' locate e) locate e
  put-Readied m m' locate e bound same callback before =
      let put : (l : ℕ)
          → slot (put_entry m' locate e) l ≡ (if locate == l then some e else slot m' l) =
        slot-put m' locate e bound in
      record {
        found = ground (arith, put locate);
        before = before;
        others = λ l ne. ground (arith, put l, same l);
        callback_same = unfold put_entry in callback;
      }

  name_entry-Ensured :
      (m m' : BookManager T) (locate : ℕ) (symbol : List ℕ) (e : BookEntry T)
      → Synced m
      → locate < length m'.books_by_locate
      → ((l : ℕ) → slot m' l ≡ slot m l)
      → m'.has_bbo_callback ≡ m.has_bbo_callback
      → slot m' locate ≡ some e
      → Ensured m locate (name_entry m' locate symbol e)
  unfolding name_entry Ensured
  name_entry-Ensured m m' locate symbol e s bound same callback found =
      let was : slot m locate ≡ some e = sym (same locate) ∙ found in
      let before : e.last_bbo ≡ quote_at m locate =
        s.remembers locate e was ∙ sym (ap quote_of was) in
      elim (Bool-cases (is_nil e.book.symbol && not (is_nil symbol))) [
        | inl blank ↦ rw blank (
            put-Readied m m' locate (record e { book = set_symbol e.book symbol }) bound same
              callback before)
        | inr named ↦ rw named (record {
          found = found;
          before = before;
          others = λ l ne. same l;
          callback_same = callback;
        })
      ]

module _ {T : Type 0} ⦃idx : Index T⦄ where
  create_entry-Ensured :
      (m m' : BookManager T) (locate : ℕ) (symbol : List ℕ)
      → Synced m
      → locate < length m'.books_by_locate
      → ((l : ℕ) → slot m' l ≡ slot m l)
      → m'.has_bbo_callback ≡ m.has_bbo_callback
      → slot m' locate ≡ none
      → Ensured m locate (create_entry m' locate symbol)
  unfolding create_entry Ensured
  create_entry-Ensured m m' locate symbol s bound same callback free =
      let was : slot m locate ≡ none = sym (same locate) ∙ free in
      let blank : (new_entry {T = T} symbol).last_bbo ≡ quote_at m locate =
        unfold new_entry in sym (ap quote_of was) in
      elim (Bool-cases (in_universe m' symbol)) [
        | inl tracked ↦ rw tracked (
            put-Readied m (record m' { book_count = m'.book_count + 1 }) locate (new_entry symbol)
              bound same callback blank)
        | inr other ↦ rw other (same, callback)
      ]

  ensure_entry-Ensured :
      (m : BookManager T) (locate : ℕ) (symbol : List ℕ)
      → Synced m
      → Ensured m locate (ensure_entry m locate symbol)
  unfolding ensure_entry
  ensure_entry-Ensured m locate symbol s =
      let m' : BookManager T = record m {
        books_by_locate = resize_for locate none m.books_by_locate;
      } in
      let bound : locate < length m'.books_by_locate =
        resize_for-bound locate none m.books_by_locate in
      let same : (l : ℕ) → slot m' l ≡ slot m l =
        λ l. get_or-resize_for locate l none m.books_by_locate in
      elim (Option-cases (slot m' locate)) [
        | inl free ↦
            rw (free, ensure_entry) (create_entry-Ensured m m' locate symbol s bound same refl free)
        | inr (e, found) ↦
            rw (found, ensure_entry)
              (name_entry-Ensured m m' locate symbol e s bound same refl found)
      ]

  add_to_entry-Quoted :
      (m : BookManager T) (locate ref side shares price : ℕ)
      (r : BookManager T × Option (BookEntry T))
      → Synced m
      → m.has_bbo_callback ≡ true
      → Ensured m locate r
      → Quoted m locate (add_to_entry r locate ref side shares price)
  unfolding add_to_entry Ensured
  add_to_entry-Quoted m locate ref side shares price (m', none) s callback (same, kept) =
      nothing-Quoted m m' locate s same kept
  add_to_entry-Quoted m locate ref side shares price (m', some target) s callback ready =
      unfold change_book in
      change_book-Quoted m m' locate target
        (L3Book.add_order target.book ref (to_side side) shares price) s callback ready

  pub handle_add_order-Quoted :
      (m : BookManager T) (locate : ℕ) (stock : List ℕ) (ref side shares price : ℕ)
      → Synced m
      → m.has_bbo_callback ≡ true
      → Quoted m locate (handle_add_order m locate stock ref side shares price)
  unfolding handle_add_order
  handle_add_order-Quoted m locate stock ref side shares price s callback =
      add_to_entry-Quoted m locate ref side shares price (ensure_entry m locate (to_string stock)) s
        callback (ensure_entry-Ensured m locate (to_string stock) s)

  -- A handler that runs on the entry, if there is one
  pub with_entry-Quoted :
      (m : BookManager T) (locate : ℕ) (handle : BookEntry T → BookManager T × List (Event T))
      → Synced m
      → ((target : BookEntry T) → slot m locate ≡ some target → Quoted m locate (handle target))
      → Quoted m locate (with_entry m locate handle)
  unfolding with_entry
  with_entry-Quoted m locate handle s each = elim (Option-cases (slot m locate)) [
    | inl absent ↦
        rw (entry-slot m locate, absent, with_entry) (nothing-Quoted m m locate s (λ l. refl) refl)
    | inr (target, found) ↦ rw (entry-slot m locate, found, with_entry) (each target found)
  ]

  -- A handler that gives the entry another book
  pub change-Quoted :
      (m : BookManager T) (locate : ℕ) (change : L3Book T → L3Book T)
      → Synced m
      → m.has_bbo_callback ≡ true
      → (target : BookEntry T) → slot m locate ≡ some target
      → Quoted m locate (change_book m locate target (change target.book))
  unfolding change_book
  change-Quoted m locate change s callback target found =
      change_book-Quoted m m locate target (change target.book) s callback
        (entry-Readied m locate target s found)
