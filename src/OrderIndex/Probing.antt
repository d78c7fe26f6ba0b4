-- ===== src/OrderIndex/Probing.antt =====
-- The search of include/itch/book/order_index.hpp: it ends at the slot of the key, or at an unused one if the key
-- is in no slot.
use itchcpp.Prelude.{
  ℕ, zero, suc, ◌+◌, ◌-◌, ◌<◌, ◌≤◌, ◌≡◌, ◌∙◌, ap, subst, List, true, false, Bool-cases, inl, inr,
  ◌==◌, leb, if◌then◌else◌, length, arith,
}
use itchcpp.L3Book.Interface.{npos}
use itchcpp.L3Book.Vectors.{set}
use itchcpp.OrderIndex.{Slot, OrderIndex, blank_slot, slot_at, home, next_slot, probe, stop, find}
use itchcpp.OrderIndex.Weights.{weigh, weigh-set, weigh-nothing, holds, gives, free_slot, not_given}
use itchcpp.OrderIndex.Cycle.{
  gap, next_slot-bound, home-bound, gap_injective, gap_self, gap-bound, gap-next,
}
use itchcpp.OrderIndex.Table.{Table}

-- The first slot from the start that is unused or has the key
pub record Stops (slots : List Slot) (start key s : ℕ) : Type 0 where
  pub bound : s < length slots
  pub passed :
      (x : ℕ)
      → x < length slots
      → gap (length slots) start x < gap (length slots) start s
      → ((slot_at slots x).used ≡ true) × (((slot_at slots x).key == key) ≡ false)
  pub matched : (slot_at slots s).used ≡ true → (slot_at slots s).key ≡ key

probe-Stops :
    (slots : List Slot) (start key u fuel i : ℕ)
    → start < length slots
    → i < length slots
    → u < length slots
    → (slot_at slots u).used ≡ false
    → gap (length slots) start i ≤ gap (length slots) start u
    → gap (length slots) start u < gap (length slots) start i + fuel
    → ((x : ℕ)
        → x < length slots
        → gap (length slots) start x < gap (length slots) start i
        → ((slot_at slots x).used ≡ true) × (((slot_at slots x).key == key) ≡ false))
    → Stops slots start key (probe slots fuel i key)
unfolding probe
probe-Stops slots start key u zero i a b c free le lt passed = absurd (omega arith)
probe-Stops slots start key u (suc fuel) i a b c free le lt passed =
    elim (Bool-cases (slot_at slots i).used) [
      | inr unused ↦ rw unused (record { bound = b; passed = passed; matched = λ h. absurd (cc) })
      | inl used ↦ elim (Bool-cases ((slot_at slots i).key == key)) [
        | inl same ↦
            rw (used, same) (record { bound = b; passed = passed; matched = λ h. ground arith })
        | inr other ↦
            let n : ℕ = length slots in
            let apart : (gap n start i == gap n start u) ≡ false =
              elim (Bool-cases (gap n start i == gap n start u)) [
                | inl equal ↦
                    let here : i ≡ u = gap_injective n start i u a b c (ground arith) in
                    let clash : (slot_at slots i).used ≡ false =
                      ap (λ (k : ℕ). (slot_at slots k).used) here ∙ free in
                    absurd (cc)
                | inr different ↦ different
              ] in
            let nearer : gap n start i < gap n start u = ground arith in
            let far : gap n start u < n = gap-bound n start u a c in
            let farther : gap n start (next_slot slots i) ≡ gap n start i + 1 =
              gap-next slots start i a b (omega (arith, far, nearer)) in
            rw (used, other)
              (probe-Stops slots start key u fuel (next_slot slots i) a (next_slot-bound slots i b)
                c free (omega (arith, farther, nearer)) (omega (arith, farther, lt))
                (λ x d near. elim (Bool-cases (gap n start x == gap n start i)) [
                  | inl equal ↦
                      let here : i ≡ x = gap_injective n start i x a b d (ground arith) in
                      subst
                        (λ (k : ℕ).
                          ((slot_at slots k).used ≡ true)
                          × (((slot_at slots k).key == key) ≡ false))
                        here (used, other)
                  | inr different ↦ passed x d (ground (arith, farther))
                ]))
      ]
    ]

module _ (slots : List Slot) (t : Table slots) where
  some_slot : 0 < length slots
  some_slot = omega (arith, t.room)

  pub stop-Stops : (key : ℕ) → Stops slots (home slots key) key (stop slots key)
  unfolding stop
  stop-Stops key =
      let (u, bound, free) = free_slot slots t.room in
      let start : ℕ = home slots key in
      let h : start < length slots = home-bound slots key some_slot in
      probe-Stops slots start key u (length slots) start h h bound free
        (omega (arith, gap_self (length slots) start))
        (omega (arith, gap_self (length slots) start, gap-bound (length slots) start u h bound))
        (λ x d near. absurd (omega (arith, near, gap_self (length slots) start)))

  -- Where the search ends at an unused slot, no slot has the key.
  pub stop-absent :
      (key : ℕ) → (slot_at slots (stop slots key)).used ≡ false → weigh (holds key) slots ≡ 0
  stop-absent key unused =
      let s : Stops slots (home slots key) key (stop slots key) = stop-Stops key in
      let n : ℕ = length slots in
      let start : ℕ = home slots key in
      let h : start < n = home-bound slots key some_slot in
      weigh-nothing (holds key) slots (λ j bound. elim (Bool-cases (slot_at slots j).used) [
        | inr free ↦ rw free
        | inl used ↦ elim (Bool-cases ((slot_at slots j).key == key)) [
          | inr other ↦ rw (used, other)
          | inl same ↦
              let key_same : (slot_at slots j).key ≡ key = ground arith in
              elim (Bool-cases (leb (gap n start j) (gap n start (stop slots key)))) [
                | inr beyond ↦
                    let busy : (slot_at slots (stop slots key)).used ≡ true =
                      t.chained j (stop slots key) bound s.bound used
                        (rw key_same (ground arith)) in
                    absurd (cc)
                | inl within ↦ elim (Bool-cases (gap n start j == gap n start (stop slots key))) [
                  | inl equal ↦
                      let here : j ≡ stop slots key =
                        gap_injective n start j (stop slots key) h bound s.bound (ground arith) in
                      let clash : (slot_at slots j).used ≡ false =
                        ap (λ (k : ℕ). (slot_at slots k).used) here ∙ unused in
                      absurd (cc)
                  | inr nearer ↦ let (busy, wrong) = s.passed j bound (ground arith) in absurd (cc)
                ]
              ]
        ]
      ])

  -- Where a slot has the key, its value is all that is held for it.
  pub found-gives :
      (key i : ℕ)
      → i < length slots
      → (slot_at slots i).used ≡ true
      → (slot_at slots i).key ≡ key
      → (weigh (holds key) slots ≡ 1) × (weigh (gives key) slots ≡ (slot_at slots i).value + 1)
  found-gives key i bound used same =
      let one : holds key (slot_at slots i) ≡ 1 = rw used (ground arith) in
      let more : gives key (slot_at slots i) ≡ (slot_at slots i).value + 1 =
        rw used (ground arith) in
      let rest : weigh (holds key) (set slots i blank_slot) + holds key (slot_at slots i)
          ≡ weigh (holds key) slots + 0 =
        weigh-set (holds key) slots i blank_slot bound in
      let none_left : weigh (holds key) (set slots i blank_slot) ≡ 0 =
        omega (arith, rest, one, t.once key) in
      let given : weigh (gives key) (set slots i blank_slot) + gives key (slot_at slots i)
          ≡ weigh (gives key) slots + 0 =
        weigh-set (gives key) slots i blank_slot bound in
      (
        omega (arith, rest, one, none_left),
        omega (arith, given, more, not_given key (set slots i blank_slot) none_left),
      )

-- What `find` makes of what is held for a key
abbrev pub read : ℕ → ℕ
read m = if m == 0 then npos else m - 1

pub find-read :
    (t : OrderIndex) (key : ℕ) → Table t.slots → find t key ≡ read (weigh (gives key) t.slots)
unfolding find
find-read t key w =
    let s : Stops t.slots (home t.slots key) key (stop t.slots key) = stop-Stops t.slots w key in
    elim (Bool-cases (slot_at t.slots (stop t.slots key)).used) [
      | inl used ↦
          let (once, given) =
            found-gives t.slots w key (stop t.slots key) s.bound used (s.matched used) in
          rw used (ground (arith, given))
      | inr unused ↦
          let empty : weigh (gives key) t.slots ≡ 0 =
            not_given key t.slots (stop-absent t.slots w key unused) in
          rw unused (ground (arith, empty))
    ]
