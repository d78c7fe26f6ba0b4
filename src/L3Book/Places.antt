-- ===== src/L3Book/Places.antt =====
-- The places that src/book/l3_book.cpp keeps in its ladders: a level that was found or created and then
-- written, and one that was written or erased.
use itchcpp.Prelude.{
  ℕ, ◌+◌, ◌<◌, ◌≤◌, ◌≡◌, refl, ap, List, [], ◌∷◌, Option, none, some, true, false, inl, inr,
  Bool-cases, ◌==◌, if◌then◌else◌, length, arith,
}
use itchcpp.L3Book.{Side, Level, nil, new_level, lower_bound, is_level, find_in}
use itchcpp.L3Book.Vectors.{get_or, set, insert_at, erase_at}
use itchcpp.L3Book.Ladder.{lookup, Sorted, lookup-lower_bound}
use itchcpp.L3Book.Updates.{
  orders_on, is_level-bound, orders_on-set, orders_on-erase, orders_on-insert, lookup-set,
  lookup-erase, lookup-insert, lower_bound-insert,
}
use itchcpp.L3Book.Order.{Sorted-set, Sorted-erase, Sorted-insert}

pub lower_bound-le : (s : Side) (p : ℕ) (ls : List Level) → lower_bound s ls p ≤ length ls
unfolding lower_bound
lower_bound-le s p [] = omega arith
lower_bound-le s p (l ∷ ls) = ground (arith, lower_bound-le s p ls)

-- The level of a price, or a new one
abbrev pub level_or_new : ℕ → Option Level → Level
level_or_new p none = new_level p
level_or_new p (some level) = level

-- The ladder after `find_or_create_level`
abbrev pub prepared : Side → ℕ → List Level → List Level
prepared s p ls =
    if is_level ls (lower_bound s ls p) p
    then ls
    else insert_at ls (lower_bound s ls p) (new_level p)

-- The ladder after `unlink_node`
abbrev pub settled : Side → ℕ → List Level → Level → List Level
settled s p ls level =
    if level.order_count == 0
    then erase_at ls (lower_bound s ls p)
    else set ls (lower_bound s ls p) level

abbrev pub kept : Level → Option Level
kept level = if level.order_count == 0 then none else some level

module _ (s : Side) (p : ℕ) (ls : List Level) (sorted : Sorted s ls) where
  -- What the search returns
  pub record Searched (level : Level) : Type 0 where
    pub at_place : is_level ls (lower_bound s ls p) p ≡ true
    pub is_there : get_or ls (lower_bound s ls p) (new_level 0) ≡ level
    pub in_bounds : lower_bound s ls p < length ls
    pub priced : level.price ≡ p

  pub Searched-lookup : (level : Level) → lookup p ls ≡ some level → Searched level
  Searched-lookup level e = elim (Bool-cases (is_level ls (lower_bound s ls p) p)) [
    | inl hit ↦
        let same : get_or ls (lower_bound s ls p) (new_level 0) ≡ level =
          ground (arith, lookup-lower_bound s p ls sorted) in
        record {
          at_place = hit;
          is_there = same;
          in_bounds = is_level-bound ls (lower_bound s ls p) p hit;
          priced = unfold is_level in ground arith;
        }
    | inr off ↦ absurd (ground (arith, lookup-lower_bound s p ls sorted))
  ]

  pub is_level-absent : lookup p ls ≡ none → is_level ls (lower_bound s ls p) p ≡ false
  is_level-absent e = ground (arith, lookup-lower_bound s p ls sorted)

  pub record Written (old level : Level) (ls' : List Level) : Type 0 where
    pub looked_up : (q : ℕ) → lookup q ls' ≡ (if p == q then some level else lookup q ls)
    pub stays_sorted : Sorted s ls'
    pub counted : orders_on ls' + old.order_count ≡ orders_on ls + level.order_count

  pub prepared-Written :
      (level : Level)
      → level.price ≡ p
      → Written
          (level_or_new p (lookup p ls))
          level
          (set (prepared s p ls) (lower_bound s ls p) level)
        × (get_or (prepared s p ls) (lower_bound s ls p) (new_level 0)
            ≡ level_or_new p (lookup p ls))
  prepared-Written level e = elim (Bool-cases (is_level ls (lower_bound s ls p) p)) [
    | inl hit ↦
        let found : lookup p ls ≡ some (get_or ls (lower_bound s ls p) (new_level 0)) =
          ground (arith, lookup-lower_bound s p ls sorted) in
        rw (hit, found)
          (
            record {
              looked_up = λ q. lookup-set s p q level ls e hit;
              stays_sorted = Sorted-set s p level ls e hit sorted;
              counted =
                  orders_on-set ls (lower_bound s ls p) level
                    (is_level-bound ls (lower_bound s ls p) p hit);
            },
            refl,
          )
    | inr off ↦
        let absent : lookup p ls ≡ none = ground (arith, lookup-lower_bound s p ls sorted) in
        let price : (new_level p).price ≡ p = unfold new_level in refl in
        let ls1 : List Level = insert_at ls (lower_bound s ls p) (new_level p) in
        let (same, hit, get) = lower_bound-insert s p (new_level p) ls price in
        let hit' : is_level ls1 (lower_bound s ls1 p) p ≡ true = rw same hit in
        let zero_count : (new_level p).order_count ≡ 0 = unfold new_level in refl in
        rw (off, absent)
          (
            record {
              looked_up = λ q. ground (
                arith,
                rw same at (lookup-set s p q level ls1 e hit'),
                lookup-insert s p q (new_level p) ls price,
              );
              stays_sorted = rw same at (
                  Sorted-set s p level ls1 e hit'
                    (Sorted-insert s p (new_level p) ls price off sorted));
              counted = omega (
                arith,
                orders_on-set ls1 (lower_bound s ls p) level
                    (is_level-bound ls1 (lower_bound s ls p) p hit),
                orders_on-insert ls (lower_bound s ls p) (new_level p),
                ap (λ (l : Level). l.order_count) get,
              );
            },
            get,
          )
  ]

  pub find_in-Searched :
      (level : Level)
      → length ls ≤ nil
      → Searched level
      → (find_in s ls p ≡ lower_bound s ls p) × ((lower_bound s ls p == nil) ≡ false)
  unfolding find_in
  find_in-Searched level few found =
      (rw (found.at_place) (omega (arith, found.in_bounds)), ground (arith, found.in_bounds))

  pub find_in-absent : lookup p ls ≡ none → find_in s ls p ≡ nil
  unfolding find_in
  find_in-absent e = rw (is_level-absent e)

  pub record Settled (old level : Level) (ls' : List Level) : Type 0 where
    pub looked_up : (q : ℕ) → lookup q ls' ≡ (if p == q then kept level else lookup q ls)
    pub stays_sorted : Sorted s ls'
    pub counted : orders_on ls' + old.order_count ≡ orders_on ls + level.order_count

  pub settled-Settled :
      (old level : Level)
      → level.price ≡ p
      → Searched old
      → Settled old level (settled s p ls level)
  settled-Settled old level e found = elim (Bool-cases (level.order_count == 0)) [
    | inl gone ↦ rw gone record {
      looked_up = λ q. rw gone (lookup-erase s p q ls sorted found.at_place);
      stays_sorted = Sorted-erase s p ls sorted;
      counted =
          ground (arith, orders_on-erase ls (lower_bound s ls p) found.in_bounds, found.is_there);
    }
    | inr stays ↦ rw stays record {
      looked_up = λ q. rw stays (lookup-set s p q level ls e found.at_place);
      stays_sorted = Sorted-set s p level ls e found.at_place sorted;
      counted =
          ground
            (arith, orders_on-set ls (lower_bound s ls p) level found.in_bounds, found.is_there);
    }
  ]
