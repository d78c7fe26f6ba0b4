-- ===== src/L3Book/Interface.antt =====
-- What include/itch/book/l3_book.hpp uses of the class `OrderIndex` of
-- include/itch/book/order_index.hpp, with the laws of a map. `find` returns `npos` for a key that is
-- absent. `OrderIndex/Laws.antt` fills the interface with that class.
use itchcpp.Prelude.{ℕ, ◌-◌, ◌^◌, ◌≡◌, Bool, ◌==◌, if◌then◌else◌}

-- OrderIndex::NPOS
abbrev pub npos : ℕ
npos = 2 ^ 32 - 1

pub record Index (T : Type 0) : Type 0 where
  pub none_stored : T
  pub find : T → ℕ → ℕ
  pub insert : T → ℕ → ℕ → T
  pub erase : T → ℕ → T
  pub is_empty : T → Bool
  pub find-none_stored : (k : ℕ) → find none_stored k ≡ npos
  pub find-insert : (t : T) (k v j : ℕ) → find (insert t k v) j ≡ (if k == j then v else find t j)
  pub find-erase : (t : T) (k j : ℕ) → find (erase t k) j ≡ (if k == j then npos else find t j)
