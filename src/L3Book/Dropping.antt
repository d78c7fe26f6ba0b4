-- ===== src/L3Book/Dropping.antt =====
-- `unlink_node`, `free_node` and the erasure from the index of src/book/l3_book.cpp, in one equation.
use itchcpp.Prelude.{
  ℕ, ◌≡◌, refl, ap, subst, List, [], ◌∷◌, ◌++◌, Option, none, some, true, false, inl, inr,
  Bool-cases, ◌==◌, arith,
}
use itchcpp.L3Book.{
  Level, L3Book, nil, blank_node, node_at, lower_bound, sub64, pred32, side_levels, put_levels,
  find_level, level_of, settle_level, unlink_from, unlink_node, free_node, drop_node,
}
use itchcpp.L3Book.Interface.{Index, npos}
use itchcpp.L3Book.Vectors.{set}
use itchcpp.L3Book.Segments.{has}
use itchcpp.L3Book.Ladder.{lookup}
use itchcpp.L3Book.Places.{settled, Searched, Searched-lookup, find_in-Searched}
use itchcpp.L3Book.Unlinking.{unlinked}
use itchcpp.L3Book.WellFormed.{cells, Holds, Fits, Found, WellFormed}
use itchcpp.L3Book.AddKeeps.{levels-bound}

abbrev pub shrunk : Level → ℕ → Level
shrunk level n = record level {
  total_shares = sub64 level.total_shares n;
  order_count = pred32 level.order_count;
}

-- A queue around one of its nodes
pub record Around (i : ℕ) (queue : List ℕ) : Type 0 where
  pub front : List ℕ
  pub back : List ℕ
  pub whole : queue ≡ front ++ i ∷ back

pub has-Around : (i : ℕ) (queue : List ℕ) → has i queue ≡ true → Around i queue
has-Around i [] m = absurd (cc)
has-Around i (x ∷ xs) m = elim (Bool-cases (i == x)) [
  | inl same ↦ record { front = []; back = xs; whole = ap (λ (n : ℕ). n ∷ xs) (ground arith) }
  | inr other ↦
      let r : Around i xs = has-Around i xs (ground arith) in
      record { front = x ∷ r.front; back = r.back; whole = ap (λ (l : List ℕ). x ∷ l) r.whole }
]

module _ {T : Type 0} ⦃idx : Index T⦄ where
  abbrev pub shrunk_ladder : L3Book T → ℕ → Level → List Level
  shrunk_ladder b i level =
      settled (node_at b.pool i).side (node_at b.pool i).price
        (side_levels b (node_at b.pool i).side)
        (shrunk (unlinked b.pool i level).1 (node_at b.pool i).shares)

  abbrev pub dropped : L3Book T → ℕ → ℕ → Level → L3Book T
  dropped b i ref level = record (put_levels b (node_at b.pool i).side (shrunk_ladder b i level)) {
    pool = set (unlinked b.pool i level).0 i (record blank_node { next = b.free_head });
    free_head = i;
    index = idx.erase b.index ref;
  }

  -- The order `i` that the index gives for `ref`, in the queue of its level
  pub record Target (b : L3Book T) (w : WellFormed b) (i ref : ℕ) : Type 0 where
    pub known : idx.find b.index ref ≡ i
    pub valid : (i == npos) ≡ false
    pub named : (cells b i).reference_number ≡ ref
    pub level : Level
    pub is_level : lookup (cells b i).price (side_levels b (cells b i).side) ≡ some level
    pub describes : Holds (cells b) level (w.queues (cells b i).side (cells b i).price)
    pub around : Around i (w.queues (cells b i).side (cells b i).price)

  pub find-Target :
      (b : L3Book T) (w : WellFormed b) (ref : ℕ)
      → (idx.find b.index ref == npos) ≡ false
      → Target b w (idx.find b.index ref) ref
  find-Target b w ref valid =
      pick (lookup (cells b i).price (side_levels b (cells b i).side)) refl
        (w.fits (cells b i).side (cells b i).price)
    where
      i : ℕ
      i = idx.find b.index ref

      fo : Found (cells b) w.queues ref i
      fo = w.found ref valid

      pick :
          (o : Option Level)
          → lookup (cells b i).price (side_levels b (cells b i).side) ≡ o
          → Fits (cells b) o (w.queues (cells b i).side (cells b i).price)
          → Target b w i ref
      pick none e h = absurd (cc (subst (λ (l : List ℕ). has i l ≡ true) h fo.queued))
      pick (some level) e h = record {
        known = refl;
        valid = valid;
        named = fo.named;
        level = level;
        is_level = e;
        describes = h;
        around = has-Around i (w.queues (cells b i).side (cells b i).price) fo.queued;
      }

module _ {T : Type 0} ⦃idx : Index T⦄ (b : L3Book T) (w : WellFormed b) (i ref : ℕ)
    (t : Target b w i ref) where
  pub searched :
      Searched
        (cells b i).side
        (cells b i).price
        (side_levels b (cells b i).side)
        (w.sorted (cells b i).side)
        t.level
  searched =
      Searched-lookup (cells b i).side (cells b i).price (side_levels b (cells b i).side)
        (w.sorted (cells b i).side) t.level t.is_level

  pub find_level-Target :
      (find_level b (cells b i).side (cells b i).price
        ≡ lower_bound (cells b i).side (side_levels b (cells b i).side) (cells b i).price)
      × ((lower_bound (cells b i).side (side_levels b (cells b i).side) (cells b i).price == nil)
          ≡ false)
  unfolding find_level
  find_level-Target =
      find_in-Searched (cells b i).side (cells b i).price (side_levels b (cells b i).side)
        (w.sorted (cells b i).side) t.level
        (omega (arith, levels-bound b w (cells b i).side, w.room)) searched

  pub drop_node-dropped : drop_node b i ref ≡ dropped b i ref t.level
  unfolding drop_node unlink_node unlink_from free_node settle_level level_of side_levels
  drop_node-dropped = rw (find_level-Target.0, find_level-Target.1, searched.is_there)
