-- ===== src/L3Book/Order.antt =====
-- The ladders of src/book/l3_book.cpp stay sorted, best price first and one level for each price.
use itchcpp.Prelude.{
  ℕ, ◌≡◌, sym, subst, List, [], ◌∷◌, true, false, inl, inr, Bool-cases, ◌==◌, arith,
}
use itchcpp.L3Book.{Side, Level, before, lower_bound, is_level}
use itchcpp.L3Book.Vectors.{set, insert_at, erase_at}
use itchcpp.L3Book.Ladder.{Behind, Sorted, before_total, Behind-trans}
use itchcpp.L3Book.Updates.{is_level_here, is_level_later}

module _ (s : Side) (p : ℕ) where
  Behind-set :
      (q : ℕ) (v : Level) (ls : List Level)
      → before s q p ≡ true
      → v.price ≡ p
      → Behind s q ls
      → Behind s q (set ls (lower_bound s ls p) v)
  unfolding lower_bound
  Behind-set q v [] b e h = tt
  Behind-set q v (l ∷ ls) b e h = elim (Bool-cases (before s l.price p)) [
    | inl later ↦ rw later (h.0, Behind-set q v ls b e h.1)
    | inr here ↦ rw here (rw e b, h.1)
  ]

  Behind-insert :
      (q : ℕ) (v : Level) (ls : List Level)
      → before s q p ≡ true
      → v.price ≡ p
      → Behind s q ls
      → Behind s q (insert_at ls (lower_bound s ls p) v)
  unfolding lower_bound
  Behind-insert q v [] b e h = (rw e b, tt)
  Behind-insert q v (l ∷ ls) b e h = elim (Bool-cases (before s l.price p)) [
    | inl later ↦ rw later (h.0, Behind-insert q v ls b e h.1)
    | inr here ↦ rw here (rw e b, h)
  ]

  Behind-erase :
      (q : ℕ) (ls : List Level) → Behind s q ls → Behind s q (erase_at ls (lower_bound s ls p))
  unfolding lower_bound
  Behind-erase q [] h = tt
  Behind-erase q (l ∷ ls) h = elim (Bool-cases (before s l.price p)) [
    | inl later ↦ rw later (h.0, Behind-erase q ls h.1)
    | inr here ↦ rw here h.1
  ]

  pub Sorted-set :
      (v : Level) (ls : List Level)
      → v.price ≡ p
      → is_level ls (lower_bound s ls p) p ≡ true
      → Sorted s ls
      → Sorted s (set ls (lower_bound s ls p) v)
  unfolding lower_bound
  Sorted-set v [] e at h = tt
  Sorted-set v (l ∷ ls) e at h = elim (Bool-cases (before s l.price p)) [
    | inl later ↦ rw later (
      Behind-set l.price v ls later e h.0,
      Sorted-set v ls e (ground (arith, is_level_later s p l ls (lower_bound s ls p))) h.1,
    )
    | inr here ↦
        let same : l.price ≡ v.price = ground (arith, is_level_here s p l ls) in
        rw here (subst (λ (n : ℕ). Behind s n ls) same h.0, h.1)
  ]

  pub Sorted-erase : (ls : List Level) → Sorted s ls → Sorted s (erase_at ls (lower_bound s ls p))
  unfolding lower_bound
  Sorted-erase [] h = tt
  Sorted-erase (l ∷ ls) h = elim (Bool-cases (before s l.price p)) [
    | inl later ↦ rw later (Behind-erase l.price ls h.0, Sorted-erase ls h.1)
    | inr here ↦ rw here h.1
  ]

  pub Sorted-insert :
      (v : Level) (ls : List Level)
      → v.price ≡ p
      → is_level ls (lower_bound s ls p) p ≡ false
      → Sorted s ls
      → Sorted s (insert_at ls (lower_bound s ls p) v)
  unfolding lower_bound
  Sorted-insert v [] e at h = (tt, tt)
  Sorted-insert v (l ∷ ls) e at h = elim (Bool-cases (before s l.price p)) [
    | inl later ↦ rw later (
      Behind-insert l.price v ls later e h.0,
      Sorted-insert v ls e (ground (arith, is_level_later s p l ls (lower_bound s ls p))) h.1,
    )
    | inr here ↦
        let other : (l.price == p) ≡ false = ground (arith, is_level_here s p l ls) in
        let first : before s p l.price ≡ true = before_total s l.price p here other in
        let behind : Behind s p ls = Behind-trans s p l.price ls first h.0 in
        rw here ((rw e first, subst (λ (n : ℕ). Behind s n ls) (sym e) behind), h)
  ]
