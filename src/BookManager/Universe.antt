-- ===== src/BookManager/Universe.antt =====
-- The books that src/book/book_manager.cpp keeps: how many there are, and for which symbols.
use itchcpp.Prelude.{
  ℕ, ◌+◌, ◌<◌, ◌≡◌, refl, sym, ◌∙◌, ap, List, [], ◌∷◌, Option, none, some, Bool, true, not, ◌&&◌,
  inl, inr, Bool-cases, Option-cases, ◌==◌, if◌then◌else◌, length, arith,
}
use itchcpp.L3Book
use itchcpp.L3Book.{L3Book, bbo, set_symbol, new_book}
use itchcpp.L3Book.Naming.{symbol-add_order}
use itchcpp.OrderBook.{to_string}
use itchcpp.L3Book.Interface.{Index}
use itchcpp.BookManager.{
  to_side, BookEntry, BookManager, Event, bbo_eq, is_nil, resize_for, in_universe, put_entry,
  name_entry, emit_bbo_if_changed, new_entry, create_entry, ensure_entry, change_book, add_to_entry,
  handle_add_order, with_entry,
}
use itchcpp.BookManager.Slots.{
  slot, entry-slot, slot-bound, slot-put, get_or-resize_for, resize_for-bound, filled,
  filled-resize_for, filled-fill, filled-replace,
}

nil_of_is_nil : (symbol : List ℕ) → is_nil symbol ≡ true → symbol ≡ []
unfolding is_nil
nil_of_is_nil [] h = refl
nil_of_is_nil (x ∷ xs) h = absurd (cc)

module _ {T : Type 0} where
  -- The count is right, and the symbols of all books are allowed.
  pub record Kept (allowed : List ℕ → Bool) (m : BookManager T) : Type 0 where
    pub counted : m.book_count ≡ filled m.books_by_locate
    pub within : (l : ℕ) (e : BookEntry T) → slot m l ≡ some e → allowed e.book.symbol ≡ true
    pub allows : (symbol : List ℕ) → in_universe m symbol ≡ true → allowed symbol ≡ true
    pub renames : (symbol : List ℕ) → allowed [] ≡ true → allowed symbol ≡ true

  module _ (allowed : List ℕ → Bool) where
    put-within :
        (m : BookManager T) (locate : ℕ) (e : BookEntry T)
        → Kept allowed m
        → locate < length m.books_by_locate
        → allowed e.book.symbol ≡ true
        → (l : ℕ) (d : BookEntry T) → slot (put_entry m locate e) l ≡ some d
        → allowed d.book.symbol ≡ true
    put-within m locate e k bound allow l d h =
        let put : slot (put_entry m locate e) l ≡ (if locate == l then some e else slot m l) =
          slot-put m locate e bound l in
        elim (Bool-cases (locate == l)) [
          | inl this ↦
              let eq : some e ≡ some d = ground (arith) in
              ap
                (λ (o : Option (BookEntry T)). elim o [
                  | none ↦ true
                  | some x ↦ allowed x.book.symbol
                ])
                (sym eq)
              ∙ allow
          | inr other ↦ k.within l d (ground (arith))
        ]

    -- An entry in place of another
    pub put-Kept :
        (m : BookManager T) (locate : ℕ) (e was : BookEntry T)
        → Kept allowed m
        → slot m locate ≡ some was
        → allowed e.book.symbol ≡ true
        → Kept allowed (put_entry m locate e)
    unfolding in_universe put_entry
    put-Kept m locate e was k found allow = record {
      counted = k.counted ∙ sym (filled-replace m.books_by_locate locate e was found);
      within = put-within m locate e k (slot-bound m locate was found) allow;
      allows = k.allows;
      renames = k.renames;
    }

    pub emit_bbo_if_changed-Kept :
        (m : BookManager T) (locate : ℕ) (e was : BookEntry T)
        → Kept allowed m
        → slot m locate ≡ some was
        → allowed e.book.symbol ≡ true
        → Kept allowed (emit_bbo_if_changed m locate e).0
    unfolding emit_bbo_if_changed
    emit_bbo_if_changed-Kept m locate e was k found allow =
        elim (Bool-cases (bbo_eq (bbo e.book) e.last_bbo)) [
          | inl same ↦ rw same (put-Kept m locate e was k found allow)
          | inr changed ↦
              rw changed (put-Kept m locate (record e { last_bbo = bbo e.book }) was k found allow)
        ]

    -- A manager, and the entry that is in the slot of the locate code
    Granted : ℕ → BookManager T × Option (BookEntry T) → Type 0
    Granted locate (m, none) = Kept allowed m
    Granted locate (m, some e) = Kept allowed m × (slot m locate ≡ some e)

    name_entry-Granted :
        (m : BookManager T) (locate : ℕ) (symbol : List ℕ) (e : BookEntry T)
        → Kept allowed m
        → slot m locate ≡ some e
        → Granted locate (name_entry m locate symbol e)
    unfolding name_entry Granted
    name_entry-Granted m locate symbol e k found =
        let named : BookEntry T = record e { book = set_symbol e.book symbol } in
        elim (Bool-cases (is_nil e.book.symbol && not (is_nil symbol))) [
          | inl blank ↦ rw blank (
            put-Kept m locate named e k found (
                unfold set_symbol in
                k.renames symbol (
                  ap allowed (sym (nil_of_is_nil e.book.symbol (ground arith)))
                  ∙ k.within locate e found)),
            slot-put m locate named (slot-bound m locate e found) locate ∙ ground arith,
          )
          | inr other ↦ rw other (k, found)
        ]

  module _ ⦃idx : Index T⦄ (allowed : List ℕ → Bool) where
    create_entry-Granted :
        (m : BookManager T) (locate : ℕ) (symbol : List ℕ)
        → Kept allowed m
        → locate < length m.books_by_locate
        → slot m locate ≡ none
        → Granted allowed locate (create_entry m locate symbol)
    unfolding create_entry Granted
    create_entry-Granted m locate symbol k bound free =
        let added : BookEntry T = new_entry symbol in
        let m' : BookManager T = record m { book_count = m.book_count + 1 } in
        elim (Bool-cases (in_universe m symbol)) [
          | inl tracked ↦ rw tracked (
            record {
              counted =
                  unfold put_entry in
                  ap (λ n. n + 1) k.counted
                  ∙ sym (filled-fill m.books_by_locate locate added bound free);
              within =
                  put-within allowed m locate added k bound
                    (unfold new_entry set_symbol new_book in k.allows symbol tracked);
              allows = unfold put_entry in_universe in k.allows;
              renames = k.renames;
            },
            slot-put m' locate added bound locate ∙ ground arith,
          )
          | inr other ↦ rw other k
        ]

    ensure_entry-Granted :
        (m : BookManager T) (locate : ℕ) (symbol : List ℕ)
        → Kept allowed m
        → Granted allowed locate (ensure_entry m locate symbol)
    unfolding ensure_entry in_universe
    ensure_entry-Granted m locate symbol k =
        let m' : BookManager T = record m {
          books_by_locate = resize_for locate none m.books_by_locate;
        } in
        let same : (l : ℕ) → slot m' l ≡ slot m l =
          λ l. get_or-resize_for locate l none m.books_by_locate in
        let kept : Kept allowed m' = record {
          counted = k.counted ∙ sym (filled-resize_for locate m.books_by_locate);
          within = λ l e h. k.within l e (sym (same l) ∙ h);
          allows = k.allows;
          renames = k.renames;
        } in
        elim (Option-cases (slot m' locate)) [
          | inl free ↦
              rw (free, ensure_entry)
                (create_entry-Granted m' locate symbol kept
                  (resize_for-bound locate none m.books_by_locate) free)
          | inr (e, found) ↦
              rw (found, ensure_entry) (name_entry-Granted allowed m' locate symbol e kept found)
        ]

    -- A handler that gives the entry another book with its symbol
    pub change_book-Kept :
        (m : BookManager T) (locate : ℕ) (target : BookEntry T) (book : L3Book T)
        → Kept allowed m
        → book.symbol ≡ target.book.symbol
        → slot m locate ≡ some target
        → Kept allowed (change_book m locate target book).0
    unfolding change_book
    change_book-Kept m locate target book k same found =
        emit_bbo_if_changed-Kept allowed m locate (record target { book = book }) target k found
          (ap allowed same ∙ k.within locate target found)

    add_to_entry-Kept :
        (r : BookManager T × Option (BookEntry T)) (locate ref side shares price : ℕ)
        → Granted allowed locate r
        → Kept allowed (add_to_entry r locate ref side shares price).0
    unfolding add_to_entry Granted
    add_to_entry-Kept (m, none) locate ref side shares price k = k
    add_to_entry-Kept (m, some target) locate ref side shares price (k, found) =
        change_book-Kept m locate target
          (L3Book.add_order target.book ref (to_side side) shares price) k
          (symbol-add_order target.book ref (to_side side) shares price) found

    pub handle_add_order-Kept :
        (m : BookManager T) (locate : ℕ) (stock : List ℕ) (ref side shares price : ℕ)
        → Kept allowed m
        → Kept allowed (handle_add_order m locate stock ref side shares price).0
    unfolding handle_add_order
    handle_add_order-Kept m locate stock ref side shares price k =
        add_to_entry-Kept (ensure_entry m locate (to_string stock)) locate ref side shares price
          (ensure_entry-Granted m locate (to_string stock) k)

    pub with_entry-Kept :
        (m : BookManager T) (locate : ℕ) (handle : BookEntry T → BookManager T × List (Event T))
        → Kept allowed m
        → ((target : BookEntry T) → slot m locate ≡ some target → Kept allowed (handle target).0)
        → Kept allowed (with_entry m locate handle).0
    unfolding with_entry
    with_entry-Kept m locate handle k each = elim (Option-cases (slot m locate)) [
      | inl absent ↦ rw (entry-slot m locate, absent, with_entry) k
      | inr (target, found) ↦ rw (entry-slot m locate, found, with_entry) (each target found)
    ]
