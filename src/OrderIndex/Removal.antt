-- ===== src/OrderIndex/Removal.antt =====
-- `remove_at` of include/itch/book/order_index.hpp: the shift behind the hole keeps what the table holds, and every
-- key can be reached again.
use itchcpp.Prelude.{
  ℕ, ◌+◌, ◌%◌, ◌<◌, ◌≤◌, ◌≡◌, ◌⊎◌, refl, sym, ◌∙◌, ap, subst, List, true, false, not, ◌&&◌,
  Bool-cases, inl, inr, ◌==◌, ltb, leb, if◌then◌else◌, length, arith,
}
use native.Mathlib.Nat.{mod-lt}
use itchcpp.OrderIndex.{Slot, slot_at, hash, next_slot, movable}
use itchcpp.OrderIndex.Weights.{weigh}
use itchcpp.OrderIndex.Cycle.{
  gap, next_slot-is, gap_injective, gap_self, gap-bound, inside_first, on_the_way,
}

-- Every used slot can be reached from the home of its key.
abbrev pub Chain : ℕ → List Slot → Type 0
Chain n slots =
    (j x : ℕ)
    → j < n
    → x < n
    → (slot_at slots j).used ≡ true
    → gap n (hash (slot_at slots j).key % n) x < gap n (hash (slot_at slots j).key % n) j
    → (slot_at slots x).used ≡ true

-- The loop of `remove_at`: the keys that cannot be reached are behind the slots it has seen.
pub record Gapped (n : ℕ) (slots : List Slot) (hole next u : ℕ) : Type 0 where
  pub same_length : length slots ≡ n
  pub hole_bound : hole < n
  pub next_bound : next < n
  pub u_bound : u < n
  pub hole_free : (slot_at slots hole).used ≡ false
  pub u_free : (slot_at slots u).used ≡ false
  pub u_other : (u == hole) ≡ false
  pub ahead : 0 < gap n hole next
  pub run :
      (x : ℕ)
      → x < n
      → 0 < gap n hole x
      → gap n hole x < gap n hole next
      → (slot_at slots x).used ≡ true
  pub reached :
      (j x : ℕ)
      → j < n
      → x < n
      → (slot_at slots j).used ≡ true
      → gap n (hash (slot_at slots j).key % n) x < gap n (hash (slot_at slots j).key % n) j
      → ((slot_at slots x).used ≡ true) ⊎ ((x ≡ hole) × (gap n hole next ≤ gap n hole j))

-- What the loop returns: the same weights, and no key is cut off.
pub record Closed (n : ℕ) (slots result : List Slot) : Type 0 where
  pub same_length : length result ≡ n
  pub weight_same :
      (w : Slot → ℕ) → ((s : Slot) → s.used ≡ false → w s ≡ 0) → weigh w result ≡ weigh w slots
  pub chain : Chain n result

pub movable-between :
    (n hole next c : ℕ)
    → hole < n
    → next < n
    → c < n
    → movable hole next c ≡ not (ltb 0 (gap n hole c) && leb (gap n hole c) (gap n hole next))
unfolding movable
movable-between n hole next c h i j = ground arith

module _ (n : ℕ) (slots : List Slot) (hole next u : ℕ) (g : Gapped n slots hole next u) where
  pub hash-bound : (k : ℕ) → hash k % n < n
  hash-bound k = mod-lt (hash k) (omega (arith, g.hole_bound))

  -- The loop ends: the slot behind the run is unused.
  pub ended-Closed : (slot_at slots next).used ≡ false → Closed n slots slots
  ended-Closed unused = record {
    same_length = g.same_length;
    weight_same = λ w h. refl;
    chain = λ j x bj bx used lt. elim (g.reached j x bj bx used lt) [
      | inl reached ↦ reached
      | inr (here, far) ↦
          let c : ℕ = hash (slot_at slots j).key % n in
          elim (Bool-cases (gap n hole next == gap n hole j)) [
            | inl equal ↦
                let same : next ≡ j =
                  gap_injective n hole next j g.hole_bound g.next_bound bj (ground arith) in
                let clash : (slot_at slots j).used ≡ false =
                  sym (ap (λ (k : ℕ). (slot_at slots k).used) same) ∙ unused in
                absurd (cc)
            | inr apart ↦
                let passes : gap n c hole < gap n c j =
                  subst (λ (k : ℕ). gap n c k < gap n c j) here lt in
                let way : gap n c next < gap n c j =
                  on_the_way n hole next c j g.hole_bound g.next_bound (hash-bound _) bj passes
                    (ground arith) in
                elim (g.reached j next bj g.next_bound used way) [
                  | inl busy ↦ absurd (cc)
                  | inr (at_hole, more) ↦
                      let zero_gap : gap n hole next ≡ 0 =
                        ap (gap n hole) at_hole ∙ gap_self n hole in
                      absurd (omega (arith, zero_gap, g.ahead))
                ]
          ]
    ];
  }

  module _ (used : (slot_at slots next).used ≡ true) where
    pub u_not_next : (u == next) ≡ false
    u_not_next = elim (Bool-cases (u == next)) [
      | inl same ↦
          let here : u ≡ next = ground arith in
          let clash : (slot_at slots next).used ≡ false =
            sym (ap (λ (k : ℕ). (slot_at slots k).used) here) ∙ g.u_free in
          absurd (cc)
      | inr other ↦ other
    ]

    pub u_beyond : gap n hole next < gap n hole u
    u_beyond = elim (Bool-cases (ltb (gap n hole next) (gap n hole u))) [
      | inl beyond ↦ ground arith
      | inr within ↦ elim (Bool-cases (gap n hole u == gap n hole next)) [
        | inl equal ↦
            let same : u ≡ next =
              gap_injective n hole u next g.hole_bound g.u_bound g.next_bound (ground arith) in
            absurd (ground (arith, u_not_next))
        | inr apart ↦
            let some_gap : 0 < gap n hole u = ground (arith, g.u_other, g.hole_bound, g.u_bound) in
            let busy : (slot_at slots u).used ≡ true = g.run u g.u_bound some_gap (ground arith) in
            let free : (slot_at slots u).used ≡ false = g.u_free in absurd (cc)
      ]
    ]

    pub next-is : next_slot slots next ≡ (if next + 1 == n then 0 else next + 1)
    next-is =
        ground (
          arith,
          next_slot-is slots next (omega (arith, g.next_bound, g.same_length)),
          g.same_length,
        )

    -- The entry stays: its home lies behind the hole.
    pub kept-Gapped :
        movable hole next (hash (slot_at slots next).key % n) ≡ false
        → Gapped n slots hole (next_slot slots next) u
    kept-Gapped stays =
        let c : ℕ = hash (slot_at slots next).key % n in
        let between : (0 < gap n hole c) × (gap n hole c ≤ gap n hole next) =
          let e : movable hole next c
              ≡ not (ltb 0 (gap n hole c) && leb (gap n hole c) (gap n hole next)) =
            movable-between n hole next c g.hole_bound g.next_bound (hash-bound _) in
          (ground arith, ground arith) in
        let farther : gap n hole (next_slot slots next) ≡ gap n hole next + 1 = ground (
          arith,
          next-is,
          u_beyond,
          gap-bound n hole u g.hole_bound g.u_bound,
          g.hole_bound,
          g.next_bound,
        ) in
        record {
          same_length = g.same_length;
          hole_bound = g.hole_bound;
          next_bound = ground (arith, next-is, g.next_bound);
          u_bound = g.u_bound;
          hole_free = g.hole_free;
          u_free = g.u_free;
          u_other = g.u_other;
          ahead = omega (arith, farther);
          run = λ x bx far near. elim (Bool-cases (gap n hole x == gap n hole next)) [
            | inl equal ↦
                let same : next ≡ x =
                  gap_injective n hole next x g.hole_bound g.next_bound bx (ground arith) in
                subst (λ (k : ℕ). (slot_at slots k).used ≡ true) same used
            | inr apart ↦ g.run x bx far (ground (arith, farther))
          ];
          reached = λ j x bj bx busy lt. elim (g.reached j x bj bx busy lt) [
            | inl fine ↦ inl fine
            | inr (here, far) ↦ elim (Bool-cases (gap n hole next == gap n hole j)) [
              | inr apart ↦ inr (here, ground (arith, farther))
              | inl equal ↦
                  let same : next ≡ j =
                    gap_injective n hole next j g.hole_bound g.next_bound bj (ground arith) in
                  let way : gap n c hole < gap n c next =
                    subst
                      (λ (k : ℕ).
                        gap n (hash (slot_at slots k).key % n) hole
                        < gap n (hash (slot_at slots k).key % n) k)
                      (sym same)
                      (subst
                        (λ (y : ℕ).
                          gap n (hash (slot_at slots j).key % n) y
                          < gap n (hash (slot_at slots j).key % n) j)
                        here lt) in
                  let before : gap n c next < gap n c hole =
                    inside_first n hole next c g.hole_bound g.next_bound (hash-bound _) between.0
                      between.1 in
                  absurd (omega (arith, way, before))
            ]
          ];
        }
