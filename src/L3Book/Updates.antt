-- ===== src/L3Book/Updates.antt =====
-- The ladders of src/book/l3_book.cpp after a level was written, inserted or erased at the place where
-- the search for its price stops.
use itchcpp.Prelude.{
  ℕ, zero, suc, ◌+◌, ◌<◌, ◌≤◌, ◌≡◌, refl, ap, ◌∙◌, subst, List, [], ◌∷◌, none, some, true, false,
  inl, inr, Bool-cases, ◌==◌, if◌then◌else◌, length, arith,
}
use itchcpp.L3Book.{Side, Level, new_level, before, lower_bound, is_level}
use itchcpp.L3Book.Vectors.{get_or, set, insert_at, erase_at}
use itchcpp.L3Book.Ladder.{lookup, Behind, Sorted, before_ne, before_eq, lookup-Behind}

pub is_level_nil : (i p : ℕ) → is_level [] i p ≡ false
unfolding is_level
is_level_nil i p = ground arith

-- The orders that the levels count
unfoldable pub orders_on : List Level → ℕ
orders_on [] = 0
orders_on (level ∷ levels) = level.order_count + orders_on levels

pub is_level-bound : (ls : List Level) (i p : ℕ) → is_level ls i p ≡ true → i < length ls
unfolding is_level
is_level-bound ls i p h = ground arith

pub orders_on-set :
    (ls : List Level) (i : ℕ) (v : Level)
    → i < length ls
    → orders_on (set ls i v) + (get_or ls i (new_level 0)).order_count
      ≡ orders_on ls + v.order_count
unfolding orders_on
orders_on-set [] i v h = absurd (omega arith)
orders_on-set (l ∷ ls) zero v h = omega arith
orders_on-set (l ∷ ls) (suc i) v h = omega (arith, orders_on-set ls i v (omega arith))

pub orders_on-erase :
    (ls : List Level) (i : ℕ)
    → i < length ls
    → orders_on (erase_at ls i) + (get_or ls i (new_level 0)).order_count ≡ orders_on ls
unfolding orders_on
orders_on-erase [] i h = absurd (omega arith)
orders_on-erase (l ∷ ls) zero h = omega arith
orders_on-erase (l ∷ ls) (suc i) h = omega (arith, orders_on-erase ls i (omega arith))

pub orders_on-insert :
    (ls : List Level) (i : ℕ) (v : Level)
    → orders_on (insert_at ls i v) ≡ orders_on ls + v.order_count
unfolding orders_on
orders_on-insert [] zero v = omega arith
orders_on-insert [] (suc i) v = omega arith
orders_on-insert (l ∷ ls) zero v = omega arith
orders_on-insert (l ∷ ls) (suc i) v = omega (arith, orders_on-insert ls i v)

pub lookup-le-orders_on :
    (p : ℕ) (ls : List Level) (l : Level) → lookup p ls ≡ some l → l.order_count ≤ orders_on ls
unfolding orders_on lookup
lookup-le-orders_on p [] l h = cc
lookup-le-orders_on p (k ∷ ls) l h = ground (arith, lookup-le-orders_on p ls l)

pub lookup-later :
    (s : Side) (p : ℕ) (k l : Level) (ls : List Level)
    → Behind s k.price ls
    → lookup p ls ≡ some l
    → lookup p (k ∷ ls) ≡ some l
lookup-later s p k l ls h e = elim (Bool-cases (k.price == p)) [
  | inl same ↦
      let behind : Behind s p ls =
        subst (λ (n : ℕ). Behind s n ls) {x = k.price} {y = p} (ground arith) h in
      absurd (ground (arith, lookup-Behind s p ls behind))
  | inr other ↦ unfold lookup in rw other e
]

pub length-le-orders_on :
    (s : Side) (ls : List Level)
    → Sorted s ls
    → ((p : ℕ) (l : Level) → lookup p ls ≡ some l → 0 < l.order_count)
    → length ls ≤ orders_on ls
unfolding orders_on
length-le-orders_on s [] h pos = omega arith
length-le-orders_on s (k ∷ ls) h pos =
    let first : 0 < k.order_count = pos k.price k (unfold lookup in ground arith) in
    let rest : length ls ≤ orders_on ls =
      length-le-orders_on s ls h.1 λ p l e. pos p l (lookup-later s p k l ls h.0 e) in
    omega arith

module _ (s : Side) (p : ℕ) where
  pub is_level_here : (l : Level) (ls : List Level) → is_level (l ∷ ls) 0 p ≡ (l.price == p)
  unfolding is_level
  is_level_here l ls = ground arith

  pub is_level_later :
      (l : Level) (ls : List Level) (i : ℕ) → is_level (l ∷ ls) (suc i) p ≡ is_level ls i p
  unfolding is_level
  is_level_later l ls i = ground arith

  pub lookup-set :
      (q : ℕ) (v : Level) (ls : List Level)
      → v.price ≡ p
      → is_level ls (lower_bound s ls p) p ≡ true
      → lookup q (set ls (lower_bound s ls p) v) ≡ (if p == q then some v else lookup q ls)
  unfolding lookup lower_bound
  lookup-set q v [] e h = ground (arith, is_level_nil 0 p)
  lookup-set q v (l ∷ ls) e h = elim (Bool-cases (before s l.price p)) [
    | inl later ↦ rw later (
        ground (
          arith,
          before_ne s l.price p,
          is_level_later l ls (lower_bound s ls p),
          lookup-set q v ls e,
        ))
    | inr here ↦ rw here (ground (arith, is_level_here l ls))
  ]

  pub lookup-erase :
      (q : ℕ) (ls : List Level)
      → Sorted s ls
      → is_level ls (lower_bound s ls p) p ≡ true
      → lookup q (erase_at ls (lower_bound s ls p)) ≡ (if p == q then none else lookup q ls)
  unfolding lookup lower_bound
  lookup-erase q [] o h = ground (arith, is_level_nil 0 p)
  lookup-erase q (l ∷ ls) o h = elim (Bool-cases (before s l.price p)) [
    | inl later ↦ rw later (
        ground (
          arith,
          before_ne s l.price p,
          is_level_later l ls (lower_bound s ls p),
          lookup-erase q ls o.1,
        ))
    | inr here ↦
        let e : l.price ≡ p = ground (arith, is_level_here l ls) in
        rw here (ground (arith, e, lookup-Behind s p ls (subst (λ (n : ℕ). Behind s n ls) e o.0)))
  ]

  pub lookup-insert :
      (q : ℕ) (v : Level) (ls : List Level)
      → v.price ≡ p
      → lookup q (insert_at ls (lower_bound s ls p) v) ≡ (if p == q then some v else lookup q ls)
  unfolding lookup lower_bound
  lookup-insert q v [] e = ground arith
  lookup-insert q v (l ∷ ls) e = elim (Bool-cases (before s l.price p)) [
    | inl later ↦ rw later (ground (arith, before_ne s l.price p, lookup-insert q v ls e))
    | inr here ↦ rw here (ground arith)
  ]

  -- The search finds the level where it was inserted.
  pub lower_bound-insert :
      (v : Level) (ls : List Level)
      → v.price ≡ p
      → (lower_bound s (insert_at ls (lower_bound s ls p) v) p ≡ lower_bound s ls p)
        × (is_level (insert_at ls (lower_bound s ls p) v) (lower_bound s ls p) p ≡ true)
        × (get_or (insert_at ls (lower_bound s ls p) v) (lower_bound s ls p) (new_level 0) ≡ v)
  unfolding lower_bound
  lower_bound-insert v [] e =
      (ground (arith, before_eq s v.price p), ground (arith, is_level_here v []), refl)
  lower_bound-insert v (l ∷ ls) e = elim (Bool-cases (before s l.price p)) [
    | inl later ↦
        let r = lower_bound-insert v ls e in
        rw (later, later) (ap suc r.0, is_level_later l _ _ ∙ r.1, r.2)
    | inr here ↦
        rw here
          (ground (arith, before_eq s v.price p), ground (arith, is_level_here v (l ∷ ls)), refl)
  ]
