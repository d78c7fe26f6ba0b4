-- ===== src/L3Book/Pairs.antt =====
-- A list of pairs as the index of the book of include/itch/book/l3_book.hpp: it satisfies the laws of the
-- interface.
use itchcpp.Prelude.{ℕ, ◌≡◌, refl, List, [], ◌∷◌, Bool, true, false, ◌==◌, if◌then◌else◌, arith}
use itchcpp.L3Book.Interface.{Index, npos}

abbrev pub Pairs : Type 0
Pairs = List (ℕ × ℕ)

unfoldable pub find_pair : Pairs → ℕ → ℕ
find_pair [] k = npos
find_pair ((j, v) ∷ ps) k = if j == k then v else find_pair ps k

unfoldable pub erase_pair : Pairs → ℕ → Pairs
erase_pair [] k = []
erase_pair ((j, v) ∷ ps) k = let rest = erase_pair ps k in if j == k then rest else (j, v) ∷ rest

pub find_pair-erase :
    (ps : Pairs) (k j : ℕ)
    → find_pair (erase_pair ps k) j ≡ (if k == j then npos else find_pair ps j)
unfolding find_pair erase_pair
find_pair-erase [] k j = ground arith
find_pair-erase ((i, v) ∷ ps) k j = ground (arith, find_pair-erase ps k j)

pub find_pair-insert :
    (ps : Pairs) (k v j : ℕ) → find_pair ((k, v) ∷ ps) j ≡ (if k == j then v else find_pair ps j)
unfolding find_pair
find_pair-insert ps k v j = refl

pub find_pair-nil : (k : ℕ) → find_pair [] k ≡ npos
unfolding find_pair
find_pair-nil k = refl

unfoldable pub no_pairs : Pairs → Bool
no_pairs [] = true
no_pairs (p ∷ ps) = false

instance abbrev pub pairs : Index Pairs
pairs = record {
  none_stored = [];
  find = find_pair;
  insert = λ t k v. (k, v) ∷ t;
  erase = erase_pair;
  is_empty = no_pairs;
  find-none_stored = find_pair-nil;
  find-insert = find_pair-insert;
  find-erase = find_pair-erase;
}
