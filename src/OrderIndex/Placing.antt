-- ===== src/OrderIndex/Placing.antt =====
-- `insert` of include/itch/book/order_index.hpp behind the check of the load: the value of a key is replaced, or the
-- key is put where its search stops.
use itchcpp.Prelude.{
  ℕ, ◌+◌, ◌%◌, ◌<◌, ◌≤◌, ◌≡◌, refl, sym, ◌∙◌, ap, subst, List, Bool, true, Bool-cases, inl, inr,
  ◌==◌, if◌then◌else◌, length, arith,
}
use itchcpp.L3Book.Vectors.{set, length-set, get_or-set}
use itchcpp.OrderIndex.{Slot, OrderIndex, blank_slot, slot_at, hash, home, stop, place}
use itchcpp.OrderIndex.Weights.{weigh, weigh-set, taken, holds, gives, not_given}
use itchcpp.OrderIndex.Cycle.{gap}
use itchcpp.OrderIndex.Table.{Table}
use itchcpp.OrderIndex.Removal.{Chain}
use itchcpp.OrderIndex.Probing.{Stops, stop-Stops, stop-absent, found-gives}

-- A table of a length with what it gives for each key
pub record Stored (t : OrderIndex) (n : ℕ) (given : ℕ → ℕ) : Type 0 where
  pub table : Table t.slots
  pub counted : t.count ≡ weigh taken t.slots
  pub same_length : length t.slots ≡ n
  pub gives_is : (j : ℕ) → weigh (gives j) t.slots ≡ given j

pub Chain-Table :
    (n : ℕ) (slots : List Slot) → length slots ≡ n → Chain n slots → Chain (length slots) slots
Chain-Table n slots h c = subst (λ (m : ℕ). Chain m slots) (sym h) c

module _ (slots : List Slot) (t : Table slots) where
  pub Table-Chain : Chain (length slots) slots
  unfolding home
  Table-Chain = t.chained

  -- The value of a slot is replaced.
  replaced-Chain :
      (i v : ℕ)
      → i < length slots
      → Chain (length slots) (set slots i (record (slot_at slots i) { value = v }))
  replaced-Chain i v bound j x bj bx used lt =
      let at : (y : ℕ)
          → slot_at (set slots i (record (slot_at slots i) { value = v })) y
            ≡ (if i == y then record (slot_at slots i) { value = v } else slot_at slots y) =
        λ y. get_or-set slots i y (record (slot_at slots i) { value = v }) blank_slot bound in
      let same : (y : ℕ)
          → ((slot_at (set slots i (record (slot_at slots i) { value = v })) y).used
              ≡ (slot_at slots y).used)
            × ((slot_at (set slots i (record (slot_at slots i) { value = v })) y).key
                ≡ (slot_at slots y).key) =
        λ y. elim (Bool-cases (i == y)) [
          | inr other ↦ rw (at y, other) (refl, refl)
          | inl here ↦
              let e : i ≡ y = ground arith in
              rw (at y, here)
                (ap (λ (k : ℕ). (slot_at slots k).used) e, ap (λ (k : ℕ). (slot_at slots k).key) e)
        ] in
      (same x).0
      ∙ Table-Chain j x bj bx (sym (same j).0 ∙ used) (
          subst
            (λ (k : ℕ).
              gap (length slots) (hash k % length slots) x
              < gap (length slots) (hash k % length slots) j)
            (same j).1 lt)

  -- The key is put where its search stops.
  added-Chain :
      (key v : ℕ)
      → Chain
          (length slots)
          (set slots (stop slots key) (record { key = key; value = v; used = true }))
  added-Chain key v j x bj bx used lt =
      let i : ℕ = stop slots key in
      let new : Slot = record { key = key; value = v; used = true } in
      let s : Stops slots (home slots key) key i = stop-Stops slots t key in
      let at : (y : ℕ) → slot_at (set slots i new) y ≡ (if i == y then new else slot_at slots y) =
        λ y. get_or-set slots i y new blank_slot s.bound in
      elim (Bool-cases (i == x)) [
        | inl here ↦ rw (at x, here)
        | inr apart ↦
            rw (at x, apart)
              (elim (Bool-cases (i == j)) [
                | inl this ↦
                    let e : i ≡ j = ground arith in
                    let is : slot_at (set slots i new) j ≡ new = at j ∙ rw this in
                    let near : gap (length slots) (home slots key) x
                        < gap (length slots) (home slots key) i =
                      subst
                        (λ (k : ℕ).
                          gap (length slots) (home slots key) x
                          < gap (length slots) (home slots key) k)
                        (sym e)
                        (unfold home in
                          subst
                            (λ (c : Slot).
                              gap (length slots) (hash c.key % length slots) x
                              < gap (length slots) (hash c.key % length slots) j)
                            is lt) in
                    (s.passed x bx near).0
                | inr other ↦
                    let is : slot_at (set slots i new) j ≡ slot_at slots j = at j ∙ rw other in
                    Table-Chain j x bj bx (sym (ap (λ (c : Slot). c.used) is) ∙ used) (
                      subst
                        (λ (c : Slot).
                          gap (length slots) (hash c.key % length slots) x
                          < gap (length slots) (hash c.key % length slots) j)
                        is lt)
              ])
      ]

-- What `place` promises of its result
abbrev pub Placed : OrderIndex → ℕ → ℕ → OrderIndex → Type 0
Placed t key v r =
    Stored r (length t.slots) (λ j. if key == j then v + 1 else weigh (gives j) t.slots)
    × (r.count ≤ t.count + 1)

abbrev replaced : OrderIndex → ℕ → ℕ → OrderIndex
replaced t i v = record t { slots = set t.slots i (record (slot_at t.slots i) { value = v }) }

abbrev added : OrderIndex → ℕ → ℕ → ℕ → OrderIndex
added t i key v = record t {
  slots = set t.slots i (record { key = key; value = v; used = true });
  count = t.count + 1;
}

pub place-Stored :
    (t : OrderIndex) (key v : ℕ)
    → Table t.slots
    → t.count ≡ weigh taken t.slots
    → t.count + 1 < length t.slots
    → Placed t key v (place t key v)
unfolding place
place-Stored t key v w counted room =
    let i : ℕ = stop t.slots key in
    let s : Stops t.slots (home t.slots key) key i = stop-Stops t.slots w key in
    let old : Slot = slot_at t.slots i in
    elim (Bool-cases old.used) [
      | inl used ↦
          let new : Slot = record old { value = v } in
          let same : old.key ≡ key = s.matched used in
          let (one, given) = found-gives t.slots w key i s.bound used same in
          subst (λ (b : Bool). Placed t key v (if b then replaced t i v else added t i key v))
            (sym used)
            (
              record {
                table = record {
                  chained =
                      unfold home in
                      Chain-Table (length t.slots) (set t.slots i new) (length-set t.slots i new)
                        (replaced-Chain t.slots w i v s.bound);
                  once = λ k. omega (arith, weigh-set (holds k) t.slots i new s.bound, w.once k);
                  room = omega (
                    arith,
                    weigh-set taken t.slots i new s.bound,
                    w.room,
                    length-set t.slots i new,
                  );
                };
                counted = omega (arith, counted, weigh-set taken t.slots i new s.bound);
                same_length = length-set t.slots i new;
                gives_is = λ j. elim (Bool-cases (key == j)) [
                  | inl this ↦
                      let e : key ≡ j = ground arith in
                      let total : weigh (gives j) t.slots ≡ old.value + 1 =
                        subst (λ (k : ℕ). weigh (gives k) t.slots ≡ old.value + 1) e given in
                      ground (arith, weigh-set (gives j) t.slots i new s.bound, total, same, used)
                  | inr other ↦
                      ground (arith, weigh-set (gives j) t.slots i new s.bound, same, used)
                ];
              },
              omega arith,
            )
      | inr unused ↦
          let new : Slot = record { key = key; value = v; used = true } in
          let absent : weigh (holds key) t.slots ≡ 0 = stop-absent t.slots w key unused in
          subst (λ (b : Bool). Placed t key v (if b then replaced t i v else added t i key v))
            (sym unused)
            (
              record {
                table = record {
                  chained =
                      unfold home in
                      Chain-Table (length t.slots) (set t.slots i new) (length-set t.slots i new)
                        (added-Chain t.slots w key v);
                  once = λ k. elim (Bool-cases (key == k)) [
                    | inl this ↦
                        let e : key ≡ k = ground arith in
                        let free : weigh (holds k) t.slots ≡ 0 =
                          subst (λ (m : ℕ). weigh (holds m) t.slots ≡ 0) e absent in
                        ground (arith, weigh-set (holds k) t.slots i new s.bound, free)
                    | inr other ↦
                        ground (arith, weigh-set (holds k) t.slots i new s.bound, w.once k)
                  ];
                  room = ground (
                    arith,
                    weigh-set taken t.slots i new s.bound,
                    counted,
                    room,
                    length-set t.slots i new,
                    unused,
                  );
                };
                counted = ground (arith, counted, weigh-set taken t.slots i new s.bound, unused);
                same_length = length-set t.slots i new;
                gives_is = λ j. elim (Bool-cases (key == j)) [
                  | inl this ↦
                      let e : key ≡ j = ground arith in
                      let total : weigh (gives j) t.slots ≡ 0 =
                        subst (λ (k : ℕ). weigh (gives k) t.slots ≡ 0) e
                          (not_given key t.slots absent) in
                      ground (arith, weigh-set (gives j) t.slots i new s.bound, total, unused)
                  | inr other ↦ ground (arith, weigh-set (gives j) t.slots i new s.bound, unused)
                ];
              },
              omega arith,
            )
    ]
