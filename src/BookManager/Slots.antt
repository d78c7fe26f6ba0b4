-- ===== src/BookManager/Slots.antt =====
-- The vector of books of src/book/book_manager.cpp: what is at a locate code after it was enlarged or
-- written.
use itchcpp.Prelude.{
  ℕ, zero, suc, ◌+◌, ◌<◌, ◌≤◌, ◌≡◌, refl, sym, ap, List, [], ◌∷◌, Option, none, some, inl, inr,
  Bool-cases, leb, ◌==◌, if◌then◌else◌, length, arith,
}
use itchcpp.L3Book.Vectors.{get_or, set, get_or-set}
use itchcpp.BookManager.{BookEntry, BookManager, resize, resize_for, entry, put_entry}

module _ {ℓ} {A : Type ℓ} where
  pub get_or-resize :
      (n i : ℕ) (blank : A) (xs : List A) → get_or (resize n blank xs) i blank ≡ get_or xs i blank
  unfolding resize
  get_or-resize zero i blank xs = refl
  get_or-resize (suc n) zero blank [] = refl
  get_or-resize (suc n) (suc i) blank [] = get_or-resize n i blank []
  get_or-resize (suc n) zero blank (x ∷ xs) = refl
  get_or-resize (suc n) (suc i) blank (x ∷ xs) = get_or-resize n i blank xs

  pub length-resize : (n : ℕ) (blank : A) (xs : List A) → n ≤ length (resize n blank xs)
  unfolding resize
  length-resize zero blank xs = omega arith
  length-resize (suc n) blank [] = omega (arith, length-resize n blank [])
  length-resize (suc n) blank (x ∷ xs) = omega (arith, length-resize n blank xs)

  pub get_or-resize_for :
      (n i : ℕ) (blank : A) (xs : List A)
      → get_or (resize_for n blank xs) i blank ≡ get_or xs i blank
  unfolding resize_for
  get_or-resize_for n i blank xs = elim (Bool-cases (leb (length xs) n)) [
    | inl small ↦ rw small (get_or-resize (n + 1) i blank xs)
    | inr fits ↦ rw fits
  ]

  pub resize_for-bound : (n : ℕ) (blank : A) (xs : List A) → n < length (resize_for n blank xs)
  unfolding resize_for
  resize_for-bound n blank xs = elim (Bool-cases (leb (length xs) n)) [
    | inl small ↦ rw small (omega (arith, length-resize (n + 1) blank xs))
    | inr fits ↦ rw fits (ground arith)
  ]

  pub get_or-beyond : (xs : List A) (i : ℕ) (d : A) → length xs ≤ i → get_or xs i d ≡ d
  get_or-beyond [] i d h = refl
  get_or-beyond (x ∷ xs) zero d h = absurd (omega arith)
  get_or-beyond (x ∷ xs) (suc i) d h = get_or-beyond xs i d (omega arith)

module _ {T : Type 0} where
  -- The slot of a locate code; past the end there is none.
  abbrev pub slot : BookManager T → ℕ → Option (BookEntry T)
  slot m locate = get_or m.books_by_locate locate none

  pub entry-slot : (m : BookManager T) (locate : ℕ) → entry m locate ≡ slot m locate
  unfolding entry
  entry-slot m locate = elim (Bool-cases (leb (length m.books_by_locate) locate)) [
    | inl past ↦ rw past (sym (get_or-beyond m.books_by_locate locate none (ground arith)))
    | inr within ↦ rw within
  ]

  pub slot-bound :
      (m : BookManager T) (locate : ℕ) (e : BookEntry T)
      → slot m locate ≡ some e
      → locate < length m.books_by_locate
  slot-bound m locate e h = elim (Bool-cases (leb (length m.books_by_locate) locate)) [
    | inl past ↦
        let beyond : slot m locate ≡ none =
          get_or-beyond m.books_by_locate locate none (ground arith) in
        absurd (cc)
    | inr within ↦ ground arith
  ]

  pub slot-put :
      (m : BookManager T) (locate : ℕ) (e : BookEntry T)
      → locate < length m.books_by_locate
      → (l : ℕ) → slot (put_entry m locate e) l ≡ (if locate == l then some e else slot m l)
  unfolding put_entry
  slot-put m locate e h l = get_or-set m.books_by_locate locate l (some e) none h

module _ {ℓ} {A : Type ℓ} where
  -- How many slots hold something
  unfoldable pub filled : List (Option A) → ℕ
  filled [] = 0
  filled (none ∷ slots) = filled slots
  filled (some x ∷ slots) = filled slots + 1

  filled-resize : (n : ℕ) (xs : List (Option A)) → filled (resize n none xs) ≡ filled xs
  unfolding resize filled
  filled-resize zero xs = refl
  filled-resize (suc n) [] = filled-resize n []
  filled-resize (suc n) (none ∷ xs) = filled-resize n xs
  filled-resize (suc n) (some x ∷ xs) = ap (λ k. k + 1) (filled-resize n xs)

  pub filled-resize_for : (n : ℕ) (xs : List (Option A)) → filled (resize_for n none xs) ≡ filled xs
  unfolding resize_for
  filled-resize_for n xs = elim (Bool-cases (leb (length xs) n)) [
    | inl small ↦ rw small (filled-resize (n + 1) xs)
    | inr fits ↦ rw fits
  ]

  pub filled-fill :
      (xs : List (Option A)) (i : ℕ) (x : A)
      → i < length xs
      → get_or xs i none ≡ none
      → filled (set xs i (some x)) ≡ filled xs + 1
  unfolding filled
  filled-fill [] i x h free = absurd (omega arith)
  filled-fill (none ∷ xs) zero x h free = refl
  filled-fill (some y ∷ xs) zero x h free = absurd (cc)
  filled-fill (none ∷ xs) (suc i) x h free = filled-fill xs i x (omega arith) free
  filled-fill (some y ∷ xs) (suc i) x h free =
      ap (λ k. k + 1) (filled-fill xs i x (omega arith) free)

  pub filled-replace :
      (xs : List (Option A)) (i : ℕ) (x y : A)
      → get_or xs i none ≡ some y
      → filled (set xs i (some x)) ≡ filled xs
  unfolding filled
  filled-replace [] i x y h = absurd (cc)
  filled-replace (none ∷ xs) zero x y h = absurd (cc)
  filled-replace (some z ∷ xs) zero x y h = refl
  filled-replace (none ∷ xs) (suc i) x y h = filled-replace xs i x y h
  filled-replace (some z ∷ xs) (suc i) x y h = ap (λ k. k + 1) (filled-replace xs i x y h)
