-- ===== src/OrderIndex/Erasure.antt =====
-- `erase` of include/itch/book/order_index.hpp: the key is gone, and nothing else changes.
use itchcpp.Prelude.{
  ℕ, ◌+◌, ◌%◌, ◌<◌, ◌≤◌, ◌≡◌, refl, sym, ◌∙◌, ap, subst, List, true, false, Bool-cases, inl, inr,
  ◌==◌, if◌then◌else◌, length, arith,
}
use itchcpp.L3Book.Vectors.{set, length-set, get_or-set}
use itchcpp.OrderIndex.{
  Slot, OrderIndex, blank_slot, slot_at, hash, home, next_slot, stop, shift_back, remove_at, erase,
}
use itchcpp.OrderIndex.Weights.{weigh, weigh-set, taken, holds, gives, free_slot, not_given}
use itchcpp.OrderIndex.Cycle.{gap, next_slot-is, next_slot-bound, gap-bound}
use itchcpp.OrderIndex.Table.{Table, Sound}
use itchcpp.OrderIndex.Removal.{Gapped, Closed}
use itchcpp.OrderIndex.Shifting.{shift_back-Closed}
use itchcpp.OrderIndex.Placing.{Chain-Table, Table-Chain}
use itchcpp.OrderIndex.Probing.{Stops, stop-Stops, stop-absent, found-gives}

abbrev freed : List Slot → ℕ → List Slot
freed slots i = set slots i (record (slot_at slots i) { used = false })

module _ (slots : List Slot) (t : Table slots) (size : 2 ≤ length slots) (i : ℕ)
    (bound : i < length slots) (used : (slot_at slots i).used ≡ true) where
  slot_at-freed :
      (y : ℕ)
      → slot_at (freed slots i) y
        ≡ (if i == y then record (slot_at slots i) { used = false } else slot_at slots y)
  slot_at-freed y =
      get_or-set slots i y (record (slot_at slots i) { used = false }) blank_slot bound

  freed-Gapped :
      (u : ℕ)
      → u < length slots
      → (slot_at slots u).used ≡ false
      → Gapped (length slots) (freed slots i) i (next_slot slots i) u
  freed-Gapped u u_bound u_free =
      let one : gap (length slots) i (next_slot slots i) ≡ 1 =
        ground (arith, next_slot-is slots i bound, size) in
      let other : (u == i) ≡ false = elim (Bool-cases (u == i)) [
        | inr apart ↦ apart
        | inl same ↦
            let e : u ≡ i = ground arith in
            let clash : (slot_at slots i).used ≡ false =
              sym (ap (λ (k : ℕ). (slot_at slots k).used) e) ∙ u_free in
            absurd (cc)
      ] in
      record {
        same_length = length-set slots i (record (slot_at slots i) { used = false });
        hole_bound = bound;
        next_bound = next_slot-bound slots i bound;
        u_bound = u_bound;
        hole_free = rw (slot_at-freed i) (ground arith);
        u_free = rw (slot_at-freed u) (ground (arith, other, u_free));
        u_other = other;
        ahead = omega (arith, one);
        run = λ x bx far near. absurd (omega (arith, one, far, near));
        reached = λ j x bj bx busy lt. elim (Bool-cases (i == j)) [
          | inl this ↦
              let free : (slot_at (freed slots i) j).used ≡ false =
                rw (slot_at-freed j, this) refl in
              absurd (cc)
          | inr apart ↦
              let is : slot_at (freed slots i) j ≡ slot_at slots j = slot_at-freed j ∙ rw apart in
              let reached : (slot_at slots x).used ≡ true =
                Table-Chain slots t j x bj bx (sym (ap (λ (c : Slot). c.used) is) ∙ busy) (
                  subst
                    (λ (c : Slot).
                      gap (length slots) (hash c.key % length slots) x
                      < gap (length slots) (hash c.key % length slots) j)
                    is lt) in
              elim (Bool-cases (i == x)) [
                | inl here ↦ inr (ground arith, ground (arith, one, bound, bj))
                | inr away ↦ inl (rw (slot_at-freed x, away) reached)
              ]
        ];
      }

  removed-Closed :
      Closed
        (length slots)
        (freed slots i)
        (shift_back (length slots) (freed slots i) i (next_slot slots i))
  removed-Closed =
      let (u, u_bound, u_free) = free_slot slots t.room in
      shift_back-Closed (length slots) (length slots) (freed slots i) i (next_slot slots i) u
        (freed-Gapped u u_bound u_free)
        (gap-bound (length slots) (next_slot slots i) u (next_slot-bound slots i bound) u_bound)

pub erase-Sound :
    (t : OrderIndex) (key : ℕ)
    → Sound t
    → Sound (erase t key)
      × ((j : ℕ)
          → weigh (gives j) (erase t key).slots ≡ (if key == j then 0 else weigh (gives j) t.slots))
unfolding erase remove_at
erase-Sound t key s =
    let i : ℕ = stop t.slots key in
    let p : Stops t.slots (home t.slots key) key i = stop-Stops t.slots s.table key in
    elim (Bool-cases (slot_at t.slots i).used) [
      | inr unused ↦ rw unused (
        s,
        λ j. elim (Bool-cases (key == j)) [
          | inr other ↦ rw other
          | inl this ↦ rw this (
              subst (λ (k : ℕ). weigh (gives k) t.slots ≡ 0) (ground arith)
                (not_given key t.slots (stop-absent t.slots s.table key unused)))
        ],
      )
      | inl used ↦
          let gone : Slot = record (slot_at t.slots i) { used = false } in
          let result : List Slot =
            shift_back (length t.slots) (freed t.slots i) i (next_slot t.slots i) in
          let c : Closed (length t.slots) (freed t.slots i) result =
            removed-Closed t.slots s.table s.size i p.bound used in
          let same : (slot_at t.slots i).key ≡ key = p.matched used in
          let (one, given) = found-gives t.slots s.table key i p.bound used same in
          let total : weigh taken result + 1 ≡ weigh taken t.slots = ground (
            arith,
            c.weight_same taken (λ x h. rw h),
            weigh-set taken t.slots i gone p.bound,
            used,
          ) in
          rw used (
            record {
              table = record {
                chained = unfold home in Chain-Table (length t.slots) result c.same_length c.chain;
                once = λ k. omega (
                  arith,
                  c.weight_same (holds k) (λ x h. rw h),
                  weigh-set (holds k) t.slots i gone p.bound,
                  s.table.once k,
                );
                room = omega (arith, total, s.table.room, c.same_length);
              };
              counted = omega (arith, total, s.counted);
              size = omega (arith, s.size, c.same_length);
              load = omega (arith, s.load, c.same_length);
            },
            λ j. elim (Bool-cases (key == j)) [
              | inr other ↦ ground (
                arith,
                c.weight_same (gives j) (λ x h. rw h),
                weigh-set (gives j) t.slots i gone p.bound,
                same,
                used,
              )
              | inl this ↦
                  let all : weigh (gives j) t.slots ≡ (slot_at t.slots i).value + 1 =
                    subst (λ (k : ℕ). weigh (gives k) t.slots ≡ (slot_at t.slots i).value + 1)
                      (ground arith) given in
                  ground (
                    arith,
                    c.weight_same (gives j) (λ x h. rw h),
                    weigh-set (gives j) t.slots i gone p.bound,
                    same,
                    used,
                    all,
                  )
            ],
          )
    ]
