-- ===== src/OrderIndex/Tests.antt =====
-- Runs of the index of include/itch/book/order_index.hpp, and the theorems at them.
use itchcpp.Prelude.{◌≡◌, refl}
use itchcpp.L3Book.Interface.{npos}
use itchcpp.OrderIndex.{OrderIndex, blank_slots, find, insert, erase, hash, movable, new_index}
use itchcpp.OrderIndex.Table.{Sound}
use itchcpp.OrderIndex.Insertion.{new_index-Sound}
use itchcpp.OrderIndex.Laws.{find-insert, find-erase}

-- Three keys in a table of four slots, which grows; then one is erased.
abbrev small : OrderIndex
small = record { slots = blank_slots 4; count = 0 }

abbrev three : OrderIndex
three = erase (insert (insert (insert small 11 1) 22 2) 33 3) 22

three_found : (find three 11 ≡ 1) × (find three 22 ≡ npos) × (find three 33 ≡ 3)
unfolding find insert erase hash blank_slots movable
three_found = (refl, refl, refl)

filled-Sound : Sound (insert new_index 11 1)
filled-Sound = (find-insert new_index 11 1 11 new_index-Sound).0

find-insert_example : Sound (insert new_index 11 1) × (find (insert new_index 11 1) 11 ≡ 1)
find-insert_example = find-insert new_index 11 1 11 new_index-Sound

find-erase_example :
    Sound (erase (insert new_index 11 1) 11) × (find (erase (insert new_index 11 1) 11) 11 ≡ npos)
find-erase_example = find-erase (insert new_index 11 1) 11 11 filled-Sound
