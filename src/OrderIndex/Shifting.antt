-- ===== src/OrderIndex/Shifting.antt =====
-- The loop of `remove_at` of include/itch/book/order_index.hpp: one entry moves into the hole, and the loop from its
-- start to its end.
use itchcpp.Prelude.{
  ℕ, zero, suc, ◌+◌, ◌%◌, ◌<◌, ◌≤◌, ◌≡◌, ◌⊎◌, refl, sym, ◌∙◌, ap, subst, List, true, false, not,
  ◌&&◌, Bool-cases, inl, inr, ◌==◌, ltb, leb, if◌then◌else◌, length, arith,
}
use itchcpp.L3Book.Vectors.{set, length-set, get_or-set}
use itchcpp.OrderIndex.{Slot, blank_slot, slot_at, hash, home, next_slot, movable, shift_back}
use itchcpp.OrderIndex.Weights.{weigh, weigh-set}
use itchcpp.OrderIndex.Cycle.{gap, outside_first}
use itchcpp.OrderIndex.Removal.{
  Gapped, Closed, movable-between, hash-bound, ended-Closed, u_not_next, next-is, kept-Gapped,
}

-- The slots after the move
abbrev pub moved : List Slot → ℕ → ℕ → List Slot
moved slots hole next =
    set (set slots hole (slot_at slots next)) next (record (slot_at slots next) { used = false })

module _ (n : ℕ) (slots : List Slot) (hole next u : ℕ) (g : Gapped n slots hole next u)
    (used : (slot_at slots next).used ≡ true) where
  slot_at-moved :
      (x : ℕ)
      → slot_at (moved slots hole next) x ≡ (
          if next == x
          then record (slot_at slots next) { used = false }
          else if hole == x
          then slot_at slots next
          else slot_at slots x)
  slot_at-moved x =
      let size : length (set slots hole (slot_at slots next)) ≡ n =
        length-set slots hole (slot_at slots next) ∙ g.same_length in
      get_or-set (set slots hole (slot_at slots next)) next x
        (record (slot_at slots next) { used = false }) blank_slot
        (omega (arith, size, g.next_bound))
      ∙ ap (λ (s : Slot). if next == x then record (slot_at slots next) { used = false } else s)
          (get_or-set slots hole x (slot_at slots next) blank_slot
            (omega (arith, g.same_length, g.hole_bound)))

  moved-length : length (moved slots hole next) ≡ n
  moved-length =
      length-set (set slots hole (slot_at slots next)) next
        (record (slot_at slots next) { used = false })
      ∙ length-set slots hole (slot_at slots next)
      ∙ g.same_length

  hole_not_next : (next == hole) ≡ false
  hole_not_next = elim (Bool-cases (next == hole)) [
    | inl same ↦ absurd (ground (arith, g.ahead))
    | inr other ↦ other
  ]

  moved-weight :
      (w : Slot → ℕ)
      → ((s : Slot) → s.used ≡ false → w s ≡ 0)
      → weigh w (moved slots hole next) ≡ weigh w slots
  moved-weight w h =
      let mid : List Slot = set slots hole (slot_at slots next) in
      let first : weigh w mid + w (slot_at slots hole) ≡ weigh w slots + w (slot_at slots next) =
        weigh-set w slots hole (slot_at slots next) (omega (arith, g.same_length, g.hole_bound)) in
      let second : weigh w (moved slots hole next) + w (slot_at mid next)
          ≡ weigh w mid + w (record (slot_at slots next) { used = false }) =
        weigh-set w mid next (record (slot_at slots next) { used = false })
          (omega
            (arith, length-set slots hole (slot_at slots next), g.same_length, g.next_bound)) in
      let there : slot_at mid next ≡ slot_at slots next = ground (
        arith,
        hole_not_next,
        get_or-set slots hole next (slot_at slots next) blank_slot
            (omega (arith, g.same_length, g.hole_bound)),
      ) in
      omega (
        arith,
        first,
        second,
        ap w there,
        h (slot_at slots hole) g.hole_free,
        h (record (slot_at slots next) { used = false }) refl,
      )

  used-moved :
      (x : ℕ)
      → (next == x) ≡ false
      → ((slot_at slots x).used ≡ true) ⊎ (x ≡ hole)
      → (slot_at (moved slots hole next) x).used ≡ true
  used-moved x other h =
      rw (slot_at-moved x, other)
        (elim (Bool-cases (hole == x)) [
          | inl here ↦ rw here used
          | inr apart ↦ elim h [
            | inl busy ↦ rw apart busy
            | inr same ↦ absurd (ground (arith, same))
          ]
        ])

  -- The entry of `next` moves: the hole is on its way.
  moved-Gapped :
      movable hole next (hash (slot_at slots next).key % n) ≡ true
      → Gapped n (moved slots hole next) next (next_slot slots next) u
  moved-Gapped moves =
      let c : ℕ = hash (slot_at slots next).key % n in
      let outside : (gap n hole c ≡ 0) ⊎ (gap n hole next < gap n hole c) =
        let e : movable hole next c
            ≡ not (ltb 0 (gap n hole c) && leb (gap n hole c) (gap n hole next)) =
          movable-between n hole next c g.hole_bound g.next_bound
            (hash-bound n slots hole next u g _) in
        elim (Bool-cases (gap n hole c == 0)) [
          | inl none ↦ inl (ground arith)
          | inr some_gap ↦ inr (ground arith)
        ] in
      let nearer : gap n c hole < gap n c next =
        outside_first n hole next c g.hole_bound g.next_bound (hash-bound n slots hole next u g _)
          g.ahead outside in
      let one : gap n next (next_slot slots next) ≡ 1 =
        ground
          (arith, next-is n slots hole next u g used, g.hole_bound, g.next_bound, hole_not_next) in
      record {
        same_length = moved-length;
        hole_bound = g.next_bound;
        next_bound = ground (arith, next-is n slots hole next u g used, g.next_bound);
        u_bound = g.u_bound;
        hole_free = rw (slot_at-moved next) (ground arith);
        u_free =
            rw (slot_at-moved u)
              (ground (arith, u_not_next n slots hole next u g used, g.u_other, g.u_free));
        u_other = u_not_next n slots hole next u g used;
        ahead = omega (arith, one);
        run = λ x bx far near. absurd (omega (arith, one, far, near));
        reached = λ j x bj bx busy lt. reach c nearer one j x bj bx busy lt;
      }
    where
      reach :
          (c : ℕ)
          → gap n (hash (slot_at slots next).key % n) hole
            < gap n (hash (slot_at slots next).key % n) next
          → gap n next (next_slot slots next) ≡ 1
          → (j x : ℕ) → j < n
          → x < n
          → (slot_at (moved slots hole next) j).used ≡ true
          → gap n (hash (slot_at (moved slots hole next) j).key % n) x
            < gap n (hash (slot_at (moved slots hole next) j).key % n) j
          → ((slot_at (moved slots hole next) x).used ≡ true)
            ⊎ ((x ≡ next) × (gap n next (next_slot slots next) ≤ gap n next j))
      reach c nearer one j x bj bx busy lt = elim (Bool-cases (next == j)) [
        | inl this ↦
            let free : (slot_at (moved slots hole next) j).used ≡ false =
              rw (slot_at-moved j, this) refl in
            absurd (cc)
        | inr other ↦ elim (Bool-cases (hole == j)) [
          | inl here ↦
              let at_hole : hole ≡ j = ground arith in
              let is : slot_at (moved slots hole next) j ≡ slot_at slots next =
                slot_at-moved j ∙ rw (other, here) in
              let home_gap : gap n (hash (slot_at slots next).key % n) x
                  < gap n (hash (slot_at slots next).key % n) j =
                subst (λ (s : Slot). gap n (hash s.key % n) x < gap n (hash s.key % n) j) is lt in
              let before : gap n (hash (slot_at slots next).key % n) x
                  < gap n (hash (slot_at slots next).key % n) hole =
                subst
                  (λ (k : ℕ).
                    gap n (hash (slot_at slots next).key % n) x
                    < gap n (hash (slot_at slots next).key % n) k)
                  (sym at_hole) home_gap in
              let not_next : (next == x) ≡ false = elim (Bool-cases (next == x)) [
                | inr apart ↦ apart
                | inl same ↦
                    let e : gap n (hash (slot_at slots next).key % n) next
                        ≡ gap n (hash (slot_at slots next).key % n) x =
                      ap (gap n (hash (slot_at slots next).key % n)) {x = next} {y = x}
                        (ground arith) in
                    absurd (omega (arith, e, before, nearer))
              ] in
              elim (g.reached next x g.next_bound bx used (omega (arith, before, nearer))) [
                | inl fine ↦ inl (used-moved x not_next (inl fine))
                | inr (same, far) ↦ inl (used-moved x not_next (inr same))
              ]
          | inr apart ↦
              let is : slot_at (moved slots hole next) j ≡ slot_at slots j =
                slot_at-moved j ∙ rw (other, apart) in
              let busy_before : (slot_at slots j).used ≡ true =
                sym (ap (λ (s : Slot). s.used) is) ∙ busy in
              let lt_before : gap n (hash (slot_at slots j).key % n) x
                  < gap n (hash (slot_at slots j).key % n) j =
                subst (λ (s : Slot). gap n (hash s.key % n) x < gap n (hash s.key % n) j) is lt in
              elim (Bool-cases (next == x)) [
                | inl same ↦ inr (ground arith, ground (arith, one, other, g.next_bound, bj))
                | inr not_next ↦ elim (g.reached j x bj bx busy_before lt_before) [
                  | inl fine ↦ inl (used-moved x not_next (inl fine))
                  | inr (at_hole, far) ↦ inl (used-moved x not_next (inr at_hole))
                ]
              ]
        ]
      ]

pub shift_back-Closed :
    (n fuel : ℕ) (slots : List Slot) (hole next u : ℕ)
    → Gapped n slots hole next u
    → gap n next u < fuel
    → Closed n slots (shift_back fuel slots hole next)
unfolding shift_back home
shift_back-Closed n zero slots hole next u g short = absurd (omega arith)
shift_back-Closed n (suc fuel) slots hole next u g short =
    elim (Bool-cases (slot_at slots next).used) [
      | inr unused ↦ rw unused (ended-Closed n slots hole next u g unused)
      | inl used ↦
          let nearer : gap n (next_slot slots next) u < fuel = ground (
            arith,
            next-is n slots hole next u g used,
            u_not_next n slots hole next u g used,
            short,
            g.u_bound,
            g.next_bound,
          ) in
          elim (Bool-cases (movable hole next (hash (slot_at slots next).key % n))) [
            | inl moves ↦
                let judged : movable hole next (hash (slot_at slots next).key % length slots)
                    ≡ true =
                  ap (λ (k : ℕ). movable hole next (hash (slot_at slots next).key % k))
                    g.same_length
                  ∙ moves in
                let c : Closed n (moved slots hole next)
                    (shift_back fuel (moved slots hole next) next (next_slot slots next)) =
                  shift_back-Closed n fuel (moved slots hole next) next (next_slot slots next) u
                    (moved-Gapped n slots hole next u g used moves) nearer in
                rw (used, judged)
                  (record {
                    same_length = c.same_length;
                    weight_same =
                        λ w h. c.weight_same w h ∙ moved-weight n slots hole next u g used w h;
                    chain = c.chain;
                  })
            | inr stays ↦
                let judged : movable hole next (hash (slot_at slots next).key % length slots)
                    ≡ false =
                  ap (λ (k : ℕ). movable hole next (hash (slot_at slots next).key % k))
                    g.same_length
                  ∙ stays in
                rw (used, judged)
                  (shift_back-Closed n fuel slots hole (next_slot slots next) u
                    (kept-Gapped n slots hole next u g used stays) nearer)
          ]
    ]
