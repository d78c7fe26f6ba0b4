-- ===== src/OrderIndex/Laws.antt =====
-- The class `OrderIndex` of include/itch/book/order_index.hpp is a map: what `find` returns after `insert` and
-- `erase`, and the interface of the books filled with it.
use itchcpp.Prelude.{ℕ, ◌≡◌, Bool-cases, inl, inr, ◌==◌, if◌then◌else◌, arith}
use itchcpp.L3Book.Interface.{Index, npos}
use itchcpp.OrderIndex.{OrderIndex, find, insert, erase, new_index, is_empty}
use itchcpp.OrderIndex.Table.{Sound}
use itchcpp.OrderIndex.Probing.{find-read}
use itchcpp.OrderIndex.Insertion.{insert-Sound, new_index-Sound, new_index-gives}
use itchcpp.OrderIndex.Erasure.{erase-Sound}

-- From a table that satisfies the invariant, inserting a key, whether the table grows or not, keeps the
-- invariant; then `find` returns the value for the key, and for every other key what it returned before.
pub find-insert :
    (t : OrderIndex) (key v j : ℕ)
    → Sound t
    → Sound (insert t key v) × (find (insert t key v) j ≡ (if key == j then v else find t j))
find-insert t key v j s =
    let (kept, given) = insert-Sound t key v s in
    (
      kept,
      elim (Bool-cases (key == j)) [
        | inl this ↦ ground (arith, find-read (insert t key v) j kept.table, given j)
        | inr other ↦
            ground (arith, find-read (insert t key v) j kept.table, given j, find-read t j s.table)
      ],
    )

-- From a table that satisfies the invariant, erasing a key keeps the invariant; then `find` returns the
-- sentinel for the key, and for every other key what it returned before.
pub find-erase :
    (t : OrderIndex) (key j : ℕ)
    → Sound t
    → Sound (erase t key) × (find (erase t key) j ≡ (if key == j then npos else find t j))
find-erase t key j s =
    let (kept, given) = erase-Sound t key s in
    (
      kept,
      elim (Bool-cases (key == j)) [
        | inl this ↦ ground (arith, find-read (erase t key) j kept.table, given j)
        | inr other ↦
            ground (arith, find-read (erase t key) j kept.table, given j, find-read t j s.table)
      ],
    )

find-new_index : (j : ℕ) → find new_index j ≡ npos
find-new_index j = ground (arith, find-read new_index j new_index-Sound.table, new_index-gives j)

-- A table with its invariant
pub record SoundIndex : Type 0 where
  pub index : OrderIndex
  pub sound : Sound index

-- The interface of the books, with the operations of the class
instance pub order_index : Index SoundIndex
order_index = record {
  none_stored = record { index = new_index; sound = new_index-Sound };
  find = λ t k. find t.index k;
  insert =
      λ t k v. record { index = insert t.index k v; sound = (find-insert t.index k v 0 t.sound).0 };
  erase = λ t k. record { index = erase t.index k; sound = (find-erase t.index k 0 t.sound).0 };
  is_empty = λ t. is_empty t.index;
  find-none_stored = find-new_index;
  find-insert = λ t k v j. (find-insert t.index k v j t.sound).1;
  find-erase = λ t k j. (find-erase t.index k j t.sound).1;
}
