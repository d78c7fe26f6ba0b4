-- ===== src/L3Book/Reports.antt =====
-- `L3Book::depth` of src/book/l3_book.cpp: which levels it reports, in which order, and with what.
use itchcpp.Prelude.{ℕ, ◌<◌, ◌≡◌, ◌⊎◌, List, [], ◌∷◌, some, length, All}
use itchcpp.L3Book.{Side, L3Book, DepthLevel, orders_at}
use itchcpp.L3Book.Interface.{Index}
use itchcpp.L3Book.WellFormed.{WellFormed}
use itchcpp.L3Book.Depth.{Shown, Better}

-- A price is the price of one of the levels.
abbrev pub Listed : ℕ → List DepthLevel → Type 0
Listed q [] = ⊥
Listed q (d ∷ ds) = (d.price ≡ q) ⊎ Listed q ds

-- From the best price on, one level for each price
abbrev pub Ranked : Side → List DepthLevel → Type 0
Ranked s [] = Unit
Ranked s (d ∷ ds) = All (λ (e : DepthLevel). Better s d.price e.price) ds × Ranked s ds

abbrev AllBetter : Side → ℕ → List DepthLevel → Type 0
AllBetter s q ds = All (λ (d : DepthLevel). Better s d.price q) ds

module _ {T : Type 0} ⦃idx : Index T⦄ where
  -- A report of at most so many levels of a side, of all if the number is zero
  pub record Reported (b : L3Book T) (s : Side) (max_levels : ℕ) (ds : List DepthLevel)
      : Type 0 where
    pub shown : All (λ (d : DepthLevel). Shown b s d.price d.shares d.order_count) ds
    pub ranked : Ranked s ds
    pub complete :
        (q : ℕ)
        → Listed q ds
          ⊎ ((orders_at b s q ≡ some [])
              ⊎ ((0 < max_levels)
                  × (length ds ≡ max_levels)
                  × All (λ (d : DepthLevel). Better s d.price q) ds))
