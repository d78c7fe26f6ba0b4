-- ===== src/OrderIndex/Table.antt =====
-- The tables that include/itch/book/order_index.hpp keeps: every key can be reached from its home over used slots, no
-- key is held twice, and there is an unused slot.
use itchcpp.Prelude.{ℕ, ◌*◌, ◌<◌, ◌≤◌, ◌≡◌, List, true, length}
use itchcpp.OrderIndex.{Slot, OrderIndex, slot_at, home}
use itchcpp.OrderIndex.Weights.{weigh, taken, holds}
use itchcpp.OrderIndex.Cycle.{gap}

pub record Table (slots : List Slot) : Type 0 where
  pub chained :
      (j x : ℕ)
      → j < length slots
      → x < length slots
      → (slot_at slots j).used ≡ true
      → gap (length slots) (home slots (slot_at slots j).key) x
        < gap (length slots) (home slots (slot_at slots j).key) j
      → (slot_at slots x).used ≡ true
  pub once : (k : ℕ) → weigh (holds k) slots ≤ 1
  pub room : weigh taken slots < length slots

-- The table with its count, and its load
pub record Sound (t : OrderIndex) : Type 0 where
  pub table : Table t.slots
  pub counted : t.count ≡ weigh taken t.slots
  pub size : 2 ≤ length t.slots
  pub load : t.count * 10 < length t.slots * 7
