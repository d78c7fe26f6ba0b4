-- ===== src/L3Book/Operations.antt =====
-- Every operation of the class `L3Book` of src/book/l3_book.cpp keeps the invariant.
use itchcpp.Prelude.{
  ℕ, suc, ◌<◌, ◌≤◌, ◌≡◌, min, true, false, inl, inr, Bool-cases, ◌==◌, length, arith,
}
use native.Mathlib.Decide.{dec_lt}
use itchcpp.L3Book.{
  Side, L3Book, nil, node_at, add_order, execute_order, delete_order, replace_order, drop_node,
  take_shares, contains,
}
use itchcpp.L3Book.Interface.{Index, npos}
use itchcpp.L3Book.WellFormed.{cells, WellFormed}
use itchcpp.L3Book.AddKeeps.{add_order-WellFormed, add_order-size}
use itchcpp.L3Book.Dropping.{Target, find-Target, drop_node-dropped}
use itchcpp.L3Book.DropKeeps.{dropped-size, drop_node-WellFormed}
use itchcpp.L3Book.TakeKeeps.{take_shares-taken, taken-size, take_shares-WellFormed}

module _ {T : Type 0} ⦃idx : Index T⦄ (b : L3Book T) where
  pub add_order-present :
      (ref : ℕ) (s : Side) (shares price : ℕ)
      → contains b ref ≡ true
      → add_order b ref s shares price ≡ b
  unfolding add_order contains
  add_order-present ref s shares price there = rw there

  pub execute_order-absent :
      (ref shares : ℕ) → (idx.find b.index ref == npos) ≡ true → execute_order b ref shares ≡ (b, 0)
  unfolding execute_order
  execute_order-absent ref shares unknown = rw unknown

module _ {T : Type 0} ⦃idx : Index T⦄ (b : L3Book T) (w : WellFormed b) where
  -- What an execution does, by what the index gives and the shares that rest
  pub execute-drops :
      (ref shares : ℕ)
      → (idx.find b.index ref == npos) ≡ false
      → (node_at b.pool (idx.find b.index ref)).shares ≤ shares
      → execute_order b ref shares
        ≡ (drop_node b (idx.find b.index ref) ref, (node_at b.pool (idx.find b.index ref)).shares)
  unfolding execute_order
  execute-drops ref shares known enough =
      let all : min shares (node_at b.pool (idx.find b.index ref)).shares
          ≡ (node_at b.pool (idx.find b.index ref)).shares =
        omega arith in
      rw (known, all) (ground arith)

  pub execute-takes :
      (ref shares : ℕ)
      → (idx.find b.index ref == npos) ≡ false
      → shares < (node_at b.pool (idx.find b.index ref)).shares
      → execute_order b ref shares ≡ (
        take_shares b (idx.find b.index ref) (node_at b.pool (idx.find b.index ref)) shares,
        shares,
      )
  unfolding execute_order
  execute-takes ref shares known fewer =
      let some_left : min shares (node_at b.pool (idx.find b.index ref)).shares ≡ shares =
        omega arith in
      rw (known, some_left) (ground arith)

  pub delete_order-drops :
      (ref : ℕ)
      → (idx.find b.index ref == npos) ≡ false
      → delete_order b ref ≡ drop_node b (idx.find b.index ref) ref
  unfolding delete_order
  delete_order-drops ref known = rw known

  pub delete_order-absent :
      (ref : ℕ) → (idx.find b.index ref == npos) ≡ true → delete_order b ref ≡ b
  unfolding delete_order
  delete_order-absent ref unknown = rw unknown

-- The invariant, and a pool that is no larger than `n`
module _ {T : Type 0} ⦃idx : Index T⦄ where
  pub record Keeps (n : ℕ) (b : L3Book T) : Type 0 where
    pub well_formed : WellFormed b
    pub pool_size : length b.pool ≤ n

  pub add_order-Keeps :
      (n : ℕ) (b : L3Book T) (ref : ℕ) (s : Side) (shares price : ℕ)
      → n < nil
      → Keeps n b
      → Keeps (suc n) (add_order b ref s shares price)
  add_order-Keeps n b ref s shares price small k = elim (Bool-cases (contains b ref)) [
    | inl there ↦
        rw (add_order-present b ref s shares price there)
          (record { well_formed = k.well_formed; pool_size = omega (arith, k.pool_size) })
    | inr absent ↦
        let room : length b.pool < nil = omega (arith, k.pool_size) in
        record {
          well_formed = add_order-WellFormed b k.well_formed ref s shares price room absent;
          pool_size =
              omega
                (arith, add_order-size b k.well_formed ref s shares price room absent, k.pool_size);
        }
  ]

  drop_node-Keeps :
      (n : ℕ) (b : L3Book T) (ref : ℕ)
      → (idx.find b.index ref == npos) ≡ false
      → Keeps n b
      → Keeps n (drop_node b (idx.find b.index ref) ref)
  drop_node-Keeps n b ref known k =
      let t : Target b k.well_formed (idx.find b.index ref) ref =
        find-Target b k.well_formed ref known in
      record {
        well_formed = drop_node-WellFormed b k.well_formed (idx.find b.index ref) ref t;
        pool_size =
            rw (drop_node-dropped b k.well_formed (idx.find b.index ref) ref t) (
              omega
                (arith, dropped-size b k.well_formed (idx.find b.index ref) ref t, k.pool_size));
      }

  pub delete_order-Keeps :
      (n : ℕ) (b : L3Book T) (ref : ℕ) → Keeps n b → Keeps n (delete_order b ref)
  delete_order-Keeps n b ref k = elim (Bool-cases (idx.find b.index ref == npos)) [
    | inl unknown ↦ rw (delete_order-absent b k.well_formed ref unknown) k
    | inr known ↦
        rw (delete_order-drops b k.well_formed ref known) (drop_node-Keeps n b ref known k)
  ]

  pub execute_order-Keeps :
      (n : ℕ) (b : L3Book T) (ref shares : ℕ) → Keeps n b → Keeps n (execute_order b ref shares).0
  execute_order-Keeps n b ref shares k = elim (Bool-cases (idx.find b.index ref == npos)) [
    | inl unknown ↦ rw (execute_order-absent b ref shares unknown) k
    | inr known ↦
        let i : ℕ = idx.find b.index ref in
        let t : Target b k.well_formed i ref = find-Target b k.well_formed ref known in
        elim (dec_lt shares (cells b i).shares) [
          | yes fewer ↦ rw (execute-takes b k.well_formed ref shares known fewer) (record {
            well_formed = take_shares-WellFormed b k.well_formed i ref t shares fewer;
            pool_size =
                rw (take_shares-taken b k.well_formed i ref t shares fewer)
                  (omega (arith, taken-size b k.well_formed i ref t shares fewer, k.pool_size));
          })
          | no enough ↦
              rw (execute-drops b k.well_formed ref shares known (omega arith))
                (drop_node-Keeps n b ref known k)
        ]
  ]

  pub replace_order-Keeps :
      (n : ℕ) (b : L3Book T) (old_ref new_ref shares price : ℕ)
      → n < nil
      → Keeps n b
      → Keeps (suc n) (replace_order b old_ref new_ref shares price)
  unfolding replace_order
  replace_order-Keeps n b old_ref new_ref shares price small k =
      elim (Bool-cases (idx.find b.index old_ref == npos)) [
        | inl unknown ↦
            rw unknown
              (record { well_formed = k.well_formed; pool_size = omega (arith, k.pool_size) })
        | inr known ↦ rw known (
            add_order-Keeps n (delete_order b old_ref) new_ref
              (node_at b.pool (idx.find b.index old_ref)).side shares price small
              (delete_order-Keeps n b old_ref k))
      ]
