-- ===== src/BookManager/Quotes.antt =====
-- The best bid and offer of src/book/book_manager.cpp: every message announces exactly the change of the
-- book of its locate code.
use itchcpp.Prelude.{
  ℕ, ◌≡◌, refl, sym, ◌∙◌, ap, subst, List, [], ◌∷◌, ◌++◌, Option, none, some, Bool, true, false,
  inl, inr, Bool-cases, ◌==◌, if◌then◌else◌, arith,
}
use itchcpp.Bars.{Trade}
use itchcpp.L3Book.{L3Book, Bbo, blank_bbo, bbo}
use itchcpp.BookManager.{
  BookEntry, BookManager, Event, bbo_changed, traded, bbo_eq, put_entry, emit_bbo_if_changed, tape,
  and_then,
}
use itchcpp.BookManager.Slots.{slot, slot-bound, slot-put}

pub bbo_eq_refl : (a : Bbo) → bbo_eq a a ≡ true
unfolding bbo_eq
bbo_eq_refl a = ground arith

pub eq_of_bbo_eq : (a b : Bbo) → bbo_eq a b ≡ true → a ≡ b
unfolding bbo_eq
eq_of_bbo_eq a b h = ground arith

module _ {T : Type 0} where
  -- The quotes among the events
  unfoldable pub quotes : List (Event T) → List Bbo
  quotes [] = []
  quotes (bbo_changed book quote ∷ events) = quote ∷ quotes events
  quotes (traded trade ∷ events) = quotes events

  -- The quote of a locate code, empty if it has no book
  abbrev pub quote_of : Option (BookEntry T) → Bbo
  quote_of none = blank_bbo
  quote_of (some e) = bbo e.book

  abbrev pub quote_at : BookManager T → ℕ → Bbo
  quote_at m locate = quote_of (slot m locate)

  -- The quote that each entry remembers is that of its book.
  pub record Synced (m : BookManager T) : Type 0 where
    pub remembers : (l : ℕ) (e : BookEntry T) → slot m l ≡ some e → e.last_bbo ≡ bbo e.book

  -- A call that concerns a locate code: the quote is announced if it changed, and no other book does.
  pub record Quoted (m : BookManager T) (locate : ℕ) (r : BookManager T × List (Event T))
      : Type 0 where
    pub synced : Synced r.0
    pub announced : quotes r.1 ≡ (
        if bbo_eq (quote_at r.0 locate) (quote_at m locate) then [] else quote_at r.0 locate ∷ [])
    pub others : (l : ℕ) → (locate == l) ≡ false → slot r.0 l ≡ slot m l
    pub callback_same : r.0.has_bbo_callback ≡ m.has_bbo_callback

  -- The entry of the message before its book changes
  pub record Readied (m m' : BookManager T) (locate : ℕ) (target : BookEntry T) : Type 0 where
    pub found : slot m' locate ≡ some target
    pub before : target.last_bbo ≡ quote_at m locate
    pub others : (l : ℕ) → (locate == l) ≡ false → slot m' l ≡ slot m l
    pub callback_same : m'.has_bbo_callback ≡ m.has_bbo_callback

  pub nothing-Quoted :
      (m m' : BookManager T) (locate : ℕ)
      → Synced m
      → ((l : ℕ) → slot m' l ≡ slot m l)
      → m'.has_bbo_callback ≡ m.has_bbo_callback
      → Quoted m locate (m', [])
  nothing-Quoted m m' locate s same callback =
      let quote : quote_at m' locate ≡ quote_at m locate = ap quote_of (same locate) in
      record {
        synced = record { remembers = λ l e h. s.remembers l e (sym (same l) ∙ h) };
        announced = rw (quote, bbo_eq_refl (quote_at m locate)) (unfold quotes in refl);
        others = λ l ne. same l;
        callback_same = callback;
      }

  -- What is left in the slots after `emit_bbo_if_changed`
  pub put-Synced :
      (m m' : BookManager T) (locate : ℕ) (target e : BookEntry T)
      → Synced m
      → Readied m m' locate target
      → e.last_bbo ≡ bbo e.book
      → Synced (put_entry m' locate e)
        × ((l : ℕ) → (locate == l) ≡ false → slot (put_entry m' locate e) l ≡ slot m l)
        × (slot (put_entry m' locate e) locate ≡ some e)
  put-Synced m m' locate target e s r same =
      let put : (l : ℕ)
          → slot (put_entry m' locate e) l ≡ (if locate == l then some e else slot m' l) =
        slot-put m' locate e (slot-bound m' locate target r.found) in
      (
        record {
          remembers = λ l d h. elim (Bool-cases (locate == l)) [
            | inl this ↦
                let eq : some e ≡ some d = ground (arith, put l) in
                ap
                  (λ (o : Option (BookEntry T)). elim o [ none ↦ e.last_bbo | some x ↦ x.last_bbo ])
                  (sym eq)
                ∙ same
                ∙ ap
                    (λ (o : Option (BookEntry T)). elim o [
                      | none ↦ bbo e.book
                      | some x ↦ bbo x.book
                    ])
                    eq
            | inr other ↦ s.remembers l d (ground (arith, put l, r.others l other))
          ];
        },
        λ l ne. ground (arith, put l, r.others l ne),
        ground (arith, put locate),
      )

  pub change_book-Quoted :
      (m m' : BookManager T) (locate : ℕ) (target : BookEntry T) (book : L3Book T)
      → Synced m
      → m.has_bbo_callback ≡ true
      → Readied m m' locate target
      → Quoted m locate (emit_bbo_if_changed m' locate (record target { book = book }))
  unfolding emit_bbo_if_changed quotes
  change_book-Quoted m m' locate target book s callback r =
      elim (Bool-cases (bbo_eq (bbo book) target.last_bbo)) [
        | inl same ↦
            let e : BookEntry T = record target { book = book } in
            let kept : target.last_bbo ≡ bbo book =
              sym (eq_of_bbo_eq (bbo book) target.last_bbo same) in
            let (synced, others, found) = put-Synced m m' locate target e s r kept in
            let after : quote_at (put_entry m' locate e) locate ≡ bbo book = ap quote_of found in
            rw same (record {
              synced = synced;
              announced = rw (after, sym r.before, same);
              others = others;
              callback_same = unfold put_entry in r.callback_same;
            })
        | inr changed ↦
            let e : BookEntry T = record { book = book; last_bbo = bbo book } in
            let (synced, others, found) = put-Synced m m' locate target e s r refl in
            let after : quote_at (put_entry m' locate e) locate ≡ bbo book = ap quote_of found in
            let set_callback : m'.has_bbo_callback ≡ true = r.callback_same ∙ callback in
            rw changed (
              subst
                (λ (c : Bool).
                  Quoted m locate
                    (put_entry m' locate e, if c then bbo_changed book (bbo book) ∷ [] else []))
                (sym set_callback)
                (record {
                  synced = synced;
                  announced = rw (after, sym r.before, changed);
                  others = others;
                  callback_same = unfold put_entry in r.callback_same;
                }))
      ]

  -- Events before those of a call that hold no quote change nothing.
  pub and_then-Quoted :
      (m : BookManager T) (locate : ℕ) (events : List (Event T))
      (r : BookManager T × List (Event T))
      → ((more : List (Event T)) → quotes (events ++ more) ≡ quotes more)
      → Quoted m locate r
      → Quoted m locate (and_then events r)
  unfolding and_then
  and_then-Quoted m locate events (m', more) silent q = record {
    synced = q.synced;
    announced = silent more ∙ q.announced;
    others = q.others;
    callback_same = q.callback_same;
  }

  pub quotes-tape :
      (m : BookManager T) (trade : Trade) (more : List (Event T))
      → quotes (tape m trade ++ more) ≡ quotes more
  unfolding tape quotes
  quotes-tape m trade more = elim (Bool-cases m.has_trade_callback) [
    | inl on ↦ rw on
    | inr off ↦ rw off
  ]

  pub entry-Readied :
      (m : BookManager T) (locate : ℕ) (target : BookEntry T)
      → Synced m
      → slot m locate ≡ some target
      → Readied m m locate target
  entry-Readied m locate target s found = record {
    found = found;
    before = s.remembers locate target found ∙ sym (ap quote_of found);
    others = λ l ne. refl;
    callback_same = refl;
  }
