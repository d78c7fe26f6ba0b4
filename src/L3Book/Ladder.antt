-- ===== src/L3Book/Ladder.antt =====
-- The ladders of src/book/l3_book.cpp: what the search by price finds, and what it finds after a level
-- was written, inserted or erased.
use itchcpp.Prelude.{
  ℕ, ◌≡◌, refl, List, [], ◌∷◌, Option, none, some, true, false, inl, inr, Bool-cases, ◌==◌,
  if◌then◌else◌, All, arith,
}
use itchcpp.L3Book.{Side, buy, sell, Level, new_level, before, lower_bound, is_level}
use itchcpp.L3Book.Vectors.{get_or}

-- The level of a price
unfoldable pub lookup : ℕ → List Level → Option Level
lookup price [] = none
lookup price (level ∷ levels) = if level.price == price then some level else lookup price levels

-- Every level lies behind a price.
abbrev pub Behind : Side → ℕ → List Level → Type 0
Behind side price levels = All (λ (level : Level). before side price level.price ≡ true) levels

abbrev pub Sorted : Side → List Level → Type 0
Sorted side [] = Unit
Sorted side (level ∷ levels) = Behind side level.price levels × Sorted side levels

pub before_trans :
    (s : Side) (p q r : ℕ) → before s p q ≡ true → before s q r ≡ true → before s p r ≡ true
before_trans buy p q r h k = ground arith
before_trans sell p q r h k = ground arith

pub before_ne : (s : Side) (p q : ℕ) → before s p q ≡ true → (p == q) ≡ false
before_ne buy p q h = ground arith
before_ne sell p q h = ground arith

pub before_total :
    (s : Side) (p q : ℕ) → before s p q ≡ false → (p == q) ≡ false → before s q p ≡ true
before_total buy p q h k = ground arith
before_total sell p q h k = ground arith

pub before_eq : (s : Side) (p q : ℕ) → (p == q) ≡ true → before s p q ≡ false
before_eq buy p q h = ground arith
before_eq sell p q h = ground arith

pub Behind-trans :
    (s : Side) (p q : ℕ) (ls : List Level) → before s p q ≡ true → Behind s q ls → Behind s p ls
Behind-trans s p q [] h k = tt
Behind-trans s p q (l ∷ ls) h k = (before_trans s p q l.price h k.0, Behind-trans s p q ls h k.1)

pub lookup-Behind : (s : Side) (p : ℕ) (ls : List Level) → Behind s p ls → lookup p ls ≡ none
unfolding lookup
lookup-Behind s p [] h = refl
lookup-Behind s p (l ∷ ls) h = ground (arith, before_ne s p l.price, lookup-Behind s p ls h.1)

-- Where the search stops: at the level of the price, or before the first level behind it.
module _ (s : Side) (p : ℕ) where
  pub lookup-lower_bound :
      (ls : List Level)
      → Sorted s ls
      → lookup p ls ≡ (
          if is_level ls (lower_bound s ls p) p
          then some (get_or ls (lower_bound s ls p) (new_level 0))
          else none)
  unfolding lookup lower_bound is_level
  lookup-lower_bound [] h = refl
  lookup-lower_bound (l ∷ ls) h = elim (Bool-cases (before s l.price p)) [
    | inl later ↦ rw later (ground (arith, before_ne s l.price p, lookup-lower_bound ls h.1))
    | inr here ↦ elim (Bool-cases (l.price == p)) [
      | inl same ↦ rw (here, same) (ground arith)
      | inr other ↦
          rw (here, other)
            (ground (
              arith,
              lookup-Behind s p ls
                  (Behind-trans s p l.price ls (before_total s l.price p here other) h.0),
            ))
    ]
  ]

pub lookup-price :
    (p : ℕ) (ls : List Level) (level : Level) → lookup p ls ≡ some level → level.price ≡ p
unfolding lookup
lookup-price p [] level h = cc
lookup-price p (l ∷ ls) level h = ground (arith, lookup-price p ls level)
