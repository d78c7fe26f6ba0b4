-- ===== src/BookManager/Symbols.antt =====
-- `track_symbol` and `in_universe` of src/book/book_manager.cpp: which symbols the universe has after some
-- calls.
use itchcpp.Prelude.{
  ℕ, ◌≡◌, refl, ◌∙◌, List, [], ◌∷◌, none, some, Bool, true, false, ◌||◌, inl, inr, Bool-cases,
  arith,
}
use itchcpp.Text.{text_eq}
use itchcpp.BookManager.{
  BookEntry, BookManager, in_list, is_nil, in_universe, track_symbol, new_manager,
}
use itchcpp.BookManager.Slots.{slot}

is_nil-in_list : (ss : List (List ℕ)) (s : List ℕ) → in_list ss s ≡ true → is_nil ss ≡ false
unfolding in_list is_nil
is_nil-in_list [] s h = absurd (cc)
is_nil-in_list (x ∷ xs) s h = refl

module _ {T : Type 0} where
  -- A call of `track_symbol` for each symbol
  unfoldable pub track_all : BookManager T → List (List ℕ) → BookManager T
  track_all m [] = m
  track_all m (symbol ∷ symbols) = track_all (track_symbol m symbol) symbols

  in_list-track_symbol :
      (m : BookManager T) (symbol x : List ℕ)
      → in_list (track_symbol m symbol).universe x ≡ true
      → (in_list m.universe x || text_eq symbol x) ≡ true
  unfolding track_symbol in_list
  in_list-track_symbol m symbol x h = ground arith

  in_list-track_all :
      (m : BookManager T) (symbols : List (List ℕ)) (x : List ℕ)
      → in_list (track_all m symbols).universe x ≡ true
      → (in_list m.universe x || in_list symbols x) ≡ true
  unfolding track_all in_list
  in_list-track_all m [] x h = ground arith
  in_list-track_all m (symbol ∷ symbols) x h =
      elim (Bool-cases (in_list (track_symbol m symbol).universe x)) [
        | inl inside ↦ ground (arith, in_list-track_symbol m symbol x inside)
        | inr outside ↦ ground (arith, in_list-track_all (track_symbol m symbol) symbols x h)
      ]

  is_nil-track_symbol :
      (m : BookManager T) (symbol : List ℕ) → is_nil (track_symbol m symbol).universe ≡ false
  unfolding track_symbol in_list is_nil
  is_nil-track_symbol m symbol = elim (Bool-cases (in_list m.universe symbol)) [
    | inl inside ↦ rw inside (is_nil-in_list m.universe symbol inside)
    | inr outside ↦ rw outside
  ]

  is_nil-track_all :
      (m : BookManager T) (symbols : List (List ℕ))
      → is_nil m.universe ≡ false
      → is_nil (track_all m symbols).universe ≡ false
  unfolding track_all
  is_nil-track_all m [] h = h
  is_nil-track_all m (symbol ∷ symbols) h =
      is_nil-track_all (track_symbol m symbol) symbols (is_nil-track_symbol m symbol)

  track_symbol-fresh :
      (m : BookManager T) (symbol : List ℕ)
      → ((track_symbol m symbol).books_by_locate ≡ m.books_by_locate)
        × ((track_symbol m symbol).book_count ≡ m.book_count)
  unfolding track_symbol
  track_symbol-fresh m symbol = elim (Bool-cases (in_list m.universe symbol)) [
    | inl inside ↦ rw inside (refl, refl)
    | inr outside ↦ rw outside (refl, refl)
  ]

  pub track_all-fresh :
      (m : BookManager T) (symbols : List (List ℕ))
      → ((track_all m symbols).books_by_locate ≡ m.books_by_locate)
        × ((track_all m symbols).book_count ≡ m.book_count)
  unfolding track_all
  track_all-fresh m [] = (refl, refl)
  track_all-fresh m (symbol ∷ symbols) =
      let (books, count) = track_symbol-fresh m symbol in
      let (books', count') = track_all-fresh (track_symbol m symbol) symbols in
      (books' ∙ books, count' ∙ count)

  in_universe-full :
      (m : BookManager T) (symbol : List ℕ)
      → is_nil m.universe ≡ false
      → in_universe m symbol ≡ true
      → in_list m.universe symbol ≡ true
  unfolding in_universe
  in_universe-full m symbol full h = ground arith

  pub none_held :
      (m : BookManager T) (l : ℕ) (e : BookEntry T) → m.books_by_locate ≡ [] → slot m l ≡ some e → ⊥
  none_held m l e empty h = let none_there : slot m l ≡ none = rw empty in absurd (cc)

pub universe-tracked :
    (T : Type 0) (b t : Bool) (first : List ℕ) (symbols : List (List ℕ)) (symbol : List ℕ)
    → in_universe (track_all (new_manager {T = T} b t) (first ∷ symbols)) symbol ≡ true
    → in_list (first ∷ symbols) symbol ≡ true
universe-tracked T b t first symbols symbol h =
    let start : BookManager T = new_manager b t in
    let full : is_nil (track_all start (first ∷ symbols)).universe ≡ false =
      unfold track_all in
      is_nil-track_all (track_symbol start first) symbols (is_nil-track_symbol start first) in
    let inside : in_list (track_all start (first ∷ symbols)).universe symbol ≡ true =
      in_universe-full (track_all start (first ∷ symbols)) symbol full h in
    unfold new_manager in_list in in_list-track_all start (first ∷ symbols) symbol inside
