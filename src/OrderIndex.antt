-- ===== src/OrderIndex.antt =====
-- The class `OrderIndex` of include/itch/book/order_index.hpp: a hash table with linear probing and deletion by
-- backward shift. The size of the table is a power of two, so `& m_mask` is the remainder by it. The
-- loops have as much fuel as the table has slots.
mod Tests
pub mod Weights
pub mod Cycle
pub mod Probing
pub mod Table
pub mod Placing
pub mod Insertion
pub mod Removal
pub mod Shifting
pub mod Erasure
pub mod Laws
use itchcpp.Prelude.{
  ℕ, zero, suc, ◌+◌, ◌-◌, ◌*◌, ◌/◌, ◌%◌, ◌^◌, List, [], ◌∷◌, Bool, true, false, not, ◌&&◌, ◌||◌,
  ltb, leb, ◌==◌, if◌then◌else◌, length,
}
use Prim.Native.Nat.{bit_xor}
use itchcpp.L3Book.Interface.{npos}
use itchcpp.L3Book.Vectors.{get_or, set}

pub record Slot : Type 0 where
  pub key : ℕ
  pub value : ℕ
  pub used : Bool

pub record OrderIndex : Type 0 where
  pub slots : List Slot
  pub count : ℕ

-- Slot {}
abbrev pub blank_slot : Slot
blank_slot = record { key = 0; value = 0; used = false }

abbrev pub slot_at : List Slot → ℕ → Slot
slot_at slots i = get_or slots i blank_slot

-- OrderIndex::hash, on a key modulo 2^64
unfoldable pub hash : ℕ → ℕ
hash key =
    let a = bit_xor (key % 2 ^ 64) (key % 2 ^ 64 / 2 ^ 33) in
    let b = a * 18397679294719823053 % 2 ^ 64 in
    let c = bit_xor b (b / 2 ^ 33) in
    let d = c * 14181476777654086739 % 2 ^ 64 in bit_xor d (d / 2 ^ 33)

-- hash(key) & m_mask
unfoldable pub home : List Slot → ℕ → ℕ
home slots key = hash key % length slots

-- (slot + 1) & m_mask
unfoldable pub next_slot : List Slot → ℕ → ℕ
next_slot slots i = (i + 1) % length slots

-- The loop of `find`, `insert` and `erase`: the slot where it stops, unused or with the key
unfoldable pub probe : List Slot → ℕ → ℕ → ℕ → ℕ
unfolding next_slot
probe slots zero i key = i
probe slots (suc fuel) i key =
    let rest = probe slots fuel (next_slot slots i) key in
    if not (slot_at slots i).used then i else if (slot_at slots i).key == key then i else rest

-- Where the search for a key stops
unfoldable pub stop : List Slot → ℕ → ℕ
unfolding probe home
stop slots key = probe slots (length slots) (home slots key) key

unfoldable pub find : OrderIndex → ℕ → ℕ
unfolding stop
find t key =
    let found = slot_at t.slots (stop t.slots key) in if found.used then found.value else npos

-- `insert` behind the check of the load
unfoldable pub place : OrderIndex → ℕ → ℕ → OrderIndex
unfolding stop
place t key value =
    let i = stop t.slots key in
    if (slot_at t.slots i).used
    then record t { slots = set t.slots i (record (slot_at t.slots i) { value = value }) }
    else record t {
      slots = set t.slots i (record { key = key; value = value; used = true });
      count = t.count + 1;
    }

unfoldable pub blank_slots : ℕ → List Slot
blank_slots zero = []
blank_slots (suc n) = blank_slot ∷ blank_slots n

-- The load is too high for another key.
unfoldable pub is_full : OrderIndex → Bool
is_full t = leb (length t.slots * 7) ((t.count + 1) * 10)

-- The insertions of `rehash`
unfoldable pub reinsert : (OrderIndex → ℕ → ℕ → OrderIndex) → List Slot → OrderIndex → OrderIndex
reinsert put [] t = t
reinsert put (s ∷ old) t = reinsert put old (if s.used then put t s.key s.value else t)

-- `insert`, with the insertions that its `rehash` makes, nested at most as deep as the fuel
unfoldable pub insert_within : ℕ → OrderIndex → ℕ → ℕ → OrderIndex
unfolding reinsert place is_full blank_slots
insert_within zero t key value = t
insert_within (suc fuel) t key value =
    let empty : OrderIndex = record { slots = blank_slots (length t.slots * 2); count = 0 } in
    let grown = reinsert (insert_within fuel) t.slots empty in
    place (if is_full t then grown else t) key value

unfoldable pub insert : OrderIndex → ℕ → ℕ → OrderIndex
unfolding insert_within
insert t key value = insert_within 2 t key value

-- Whether the entry at `next`, with its home, belongs into the hole
unfoldable pub movable : ℕ → ℕ → ℕ → Bool
movable hole next home_slot =
    if leb hole next
    then leb home_slot hole || ltb next home_slot
    else leb home_slot hole && ltb next home_slot

-- The loop of `remove_at`
unfoldable pub shift_back : ℕ → List Slot → ℕ → ℕ → List Slot
unfolding next_slot movable home
shift_back zero slots hole next = slots
shift_back (suc fuel) slots hole next =
    let moved =
      set (set slots hole (slot_at slots next)) next
        (record (slot_at slots next) { used = false }) in
    let kept = shift_back fuel slots hole (next_slot slots next) in
    let shifted = shift_back fuel moved next (next_slot slots next) in
    if not (slot_at slots next).used
    then slots
    else if movable hole next (home slots (slot_at slots next).key)
    then shifted
    else kept

unfoldable pub remove_at : OrderIndex → ℕ → OrderIndex
unfolding shift_back
remove_at t hole =
    let freed = set t.slots hole (record (slot_at t.slots hole) { used = false }) in
    record {
      slots = shift_back (length t.slots) freed hole (next_slot t.slots hole);
      count = t.count - 1;
    }

unfoldable pub erase : OrderIndex → ℕ → OrderIndex
unfolding stop remove_at
erase t key = let i = stop t.slots key in if (slot_at t.slots i).used then remove_at t i else t

unfoldable pub clear_slots : List Slot → List Slot
clear_slots [] = []
clear_slots (s ∷ slots) = record s { used = false } ∷ clear_slots slots

unfoldable pub clear : OrderIndex → OrderIndex
unfolding clear_slots
clear t = record { slots = clear_slots t.slots; count = 0 }

unfoldable pub is_empty : OrderIndex → Bool
is_empty t = t.count == 0

-- rehash(INITIAL_CAPACITY) of no slots
unfoldable pub new_index : OrderIndex
unfolding blank_slots
new_index = record { slots = blank_slots 1024; count = 0 }
