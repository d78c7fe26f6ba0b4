-- ===== src/OrderIndex/Insertion.antt =====
-- `insert` and `rehash` of include/itch/book/order_index.hpp: the larger table gives the same for every key, and the
-- insertions of `rehash` never grow the table again.
use itchcpp.Prelude.{
  ℕ, zero, suc, ◌+◌, ◌*◌, ◌<◌, ◌≤◌, ◌≡◌, refl, sym, ◌∙◌, ap, subst, List, [], ◌∷◌, false,
  Bool-cases, inl, inr, ◌==◌, if◌then◌else◌, length, arith,
}
use itchcpp.OrderIndex.{
  Slot, OrderIndex, blank_slot, slot_at, place, blank_slots, is_full, reinsert, insert_within,
  insert, new_index,
}
use itchcpp.OrderIndex.Weights.{weigh, weigh-blank, taken, holds, gives, not_given}
use itchcpp.OrderIndex.Table.{Table, Sound}
use itchcpp.OrderIndex.Placing.{Stored, Placed, place-Stored}

insert_within-place :
    (fuel : ℕ) (t : OrderIndex) (key v : ℕ)
    → is_full t ≡ false
    → insert_within (suc fuel) t key v ≡ place t key v
unfolding insert_within
insert_within-place fuel t key v h = rw h

length-blank_slots : (n : ℕ) → length (blank_slots n) ≡ n
unfolding blank_slots
length-blank_slots zero = refl
length-blank_slots (suc n) = omega (arith, length-blank_slots n)

slot_at-blank_slots : (n i : ℕ) → slot_at (blank_slots n) i ≡ blank_slot
unfolding blank_slots
slot_at-blank_slots zero i = refl
slot_at-blank_slots (suc n) zero = refl
slot_at-blank_slots (suc n) (suc i) = slot_at-blank_slots n i

blank-Table : (n : ℕ) → 0 < n → Table (blank_slots n)
blank-Table n h = record {
  chained = λ j x bj bx used lt.
      let free : (slot_at (blank_slots n) j).used ≡ false =
        ap (λ (s : Slot). s.used) (slot_at-blank_slots n j) in
      absurd (cc);
  once = λ k. omega (arith, weigh-blank (holds k) n refl);
  room = omega (arith, weigh-blank taken n refl, length-blank_slots n, h);
}

reinsert-Stored :
    (fuel : ℕ) (old : List Slot) (t : OrderIndex)
    → Table t.slots
    → t.count ≡ weigh taken t.slots
    → ((k : ℕ) → weigh (holds k) old ≤ 1)
    → (t.count + weigh taken old) * 10 < length t.slots * 7
    → Stored
        (reinsert (insert_within (suc fuel)) old t)
        (length t.slots)
        (λ j. if weigh (holds j) old == 0 then weigh (gives j) t.slots else weigh (gives j) old)
      × ((reinsert (insert_within (suc fuel)) old t).count ≤ t.count + weigh taken old)
unfolding reinsert weigh
reinsert-Stored fuel [] t w counted once fits =
    (record { table = w; counted = counted; same_length = refl; gives_is = λ j. refl }, omega arith)
reinsert-Stored fuel (s ∷ old) t w counted once fits = elim (Bool-cases s.used) [
  | inr unused ↦
      let (r, count) =
        reinsert-Stored fuel old t w counted (λ k. omega (arith, once k)) (omega (arith, fits)) in
      subst
        (λ (next : OrderIndex).
          Stored (reinsert (insert_within (suc fuel)) old next) (length t.slots) (λ j.
            if holds j s + weigh (holds j) old == 0
            then weigh (gives j) t.slots
            else gives j s + weigh (gives j) old)
          × ((reinsert (insert_within (suc fuel)) old next).count
              ≤ t.count + (taken s + weigh taken old)))
        {x = t} {y = if s.used then insert_within (suc fuel) t s.key s.value else t} (rw unused)
        (
          record {
            table = r.table;
            counted = r.counted;
            same_length = r.same_length;
            gives_is = λ j. ground (arith, r.gives_is j, unused);
          },
          omega (arith, count),
        )
  | inl used ↦
      let room : is_full t ≡ false = unfold is_full in ground (arith, fits, used) in
      let (p, grown) = place-Stored t s.key s.value w counted (ground (arith, fits, used)) in
      let (r, count) =
        reinsert-Stored fuel old (place t s.key s.value) p.table p.counted
          (λ k. omega (arith, once k)) (ground (arith, fits, used, grown, p.same_length)) in
      subst
        (λ (next : OrderIndex).
          Stored (reinsert (insert_within (suc fuel)) old next) (length t.slots) (λ j.
            if holds j s + weigh (holds j) old == 0
            then weigh (gives j) t.slots
            else gives j s + weigh (gives j) old)
          × ((reinsert (insert_within (suc fuel)) old next).count
              ≤ t.count + (taken s + weigh taken old)))
        {x = place t s.key s.value}
        {y = if s.used then insert_within (suc fuel) t s.key s.value else t}
        (rw used (sym (insert_within-place fuel t s.key s.value room)))
        (
          record {
            table = r.table;
            counted = r.counted;
            same_length = r.same_length ∙ p.same_length;
            gives_is =
                λ j. ground (arith, r.gives_is j, p.gives_is j, once j, used, not_given j old);
          },
          ground (arith, count, grown, used),
        )
]

-- `rehash` to twice the size
grown-Stored :
    (t : OrderIndex)
    → Sound t
    → Stored
        (reinsert
          (insert_within 1)
          t.slots
          (record { slots = blank_slots (length t.slots * 2); count = 0 }))
        (length t.slots * 2)
        (λ j. weigh (gives j) t.slots)
      × ((reinsert
            (insert_within 1)
            t.slots
            (record { slots = blank_slots (length t.slots * 2); count = 0 })).count
          ≤ t.count)
grown-Stored t s =
    let m : ℕ = length t.slots * 2 in
    let (r, count) =
      reinsert-Stored 0 t.slots (record { slots = blank_slots m; count = 0 })
        (blank-Table m (omega (arith, s.size))) (omega (arith, weigh-blank taken m refl))
        s.table.once (omega (arith, s.load, s.counted, s.size, length-blank_slots m)) in
    (
      record {
        table = r.table;
        counted = r.counted;
        same_length = r.same_length ∙ length-blank_slots m;
        gives_is =
            λ j. ground (arith, r.gives_is j, weigh-blank (gives j) m refl, not_given j t.slots);
      },
      omega (arith, count, s.counted),
    )

Placed-Sound :
    (t r : OrderIndex) (key v : ℕ)
    → Placed t key v r
    → 2 ≤ length t.slots
    → (t.count + 1) * 10 < length t.slots * 7
    → Sound r
Placed-Sound t r key v (p, count) size load = record {
  table = p.table;
  counted = p.counted;
  size = omega (arith, p.same_length, size);
  load = omega (arith, p.same_length, load, count);
}

pub insert-Sound :
    (t : OrderIndex) (key v : ℕ)
    → Sound t
    → Sound (insert t key v)
      × ((j : ℕ)
          → weigh (gives j) (insert t key v).slots
            ≡ (if key == j then v + 1 else weigh (gives j) t.slots))
unfolding insert insert_within
insert-Sound t key v s = elim (Bool-cases (is_full t)) [
  | inr fits ↦
      let load : (t.count + 1) * 10 < length t.slots * 7 = unfold is_full in ground (arith, fits) in
      let p : Placed t key v (place t key v) =
        place-Stored t key v s.table s.counted (omega (arith, load)) in
      rw fits (Placed-Sound t (place t key v) key v p s.size load, p.0.gives_is)
  | inl full ↦
      let g : OrderIndex =
        reinsert (insert_within 1) t.slots
          (record { slots = blank_slots (length t.slots * 2); count = 0 }) in
      let (r, count) = grown-Stored t s in
      let load : (g.count + 1) * 10 < length g.slots * 7 =
        omega (arith, count, r.same_length, s.load, s.size) in
      let p : Placed g key v (place g key v) =
        place-Stored g key v r.table r.counted (omega (arith, load)) in
      rw full (
        Placed-Sound g (place g key v) key v p (omega (arith, r.same_length, s.size)) load,
        λ j. ground (arith, p.0.gives_is j, r.gives_is j),
      )
]

pub new_index-Sound : Sound new_index
unfolding new_index
new_index-Sound = record {
  table = blank-Table 1024 (omega arith);
  counted = sym (weigh-blank taken 1024 refl);
  size = omega (arith, length-blank_slots 1024);
  load = omega (arith, length-blank_slots 1024);
}

pub new_index-gives : (j : ℕ) → weigh (gives j) new_index.slots ≡ 0
unfolding new_index
new_index-gives j = weigh-blank (gives j) 1024 refl
