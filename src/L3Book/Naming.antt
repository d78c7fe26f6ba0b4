-- ===== src/L3Book/Naming.antt =====
-- The operations of src/book/l3_book.cpp keep the symbol of the book.
use itchcpp.Prelude.{ℕ, ◌≡◌, refl, ◌∙◌, inl, inr, Bool-cases, ◌==◌, min, arith}
use itchcpp.L3Book.{
  L3Book, OrderNode, Side, allocate_node, free_node, find_or_create_level, append_node, unlink_from,
  unlink_node, take_shares, place_node, add_order, drop_node, execute_order, reduce_order,
  delete_order, replace_order, node_at, fill_node,
}
use itchcpp.L3Book.Interface.{Index, npos}

module _ {T : Type 0} where
  symbol-allocate_node : (b : L3Book T) → (allocate_node b).0.symbol ≡ b.symbol
  unfolding allocate_node
  symbol-allocate_node b = ground arith

  symbol-find_or_create_level :
      (b : L3Book T) (side : Side) (price : ℕ)
      → (find_or_create_level b side price).0.symbol ≡ b.symbol
  unfolding find_or_create_level
  symbol-find_or_create_level b side price = ground arith

  symbol-append_node :
      (b : L3Book T) (side : Side) (level_index i shares : ℕ)
      → (append_node b side level_index i shares).symbol ≡ b.symbol
  unfolding append_node
  symbol-append_node b side level_index i shares = refl

  symbol-unlink_node : (b : L3Book T) (i : ℕ) → (unlink_node b i).symbol ≡ b.symbol
  unfolding unlink_node unlink_from
  symbol-unlink_node b i = ground arith

  symbol-take_shares :
      (b : L3Book T) (i : ℕ) (node : OrderNode) (removed : ℕ)
      → (take_shares b i node removed).symbol ≡ b.symbol
  unfolding take_shares
  symbol-take_shares b i node removed = ground arith

module _ {T : Type 0} ⦃idx : Index T⦄ where
  symbol-place_node :
      (b : L3Book T) (i ref : ℕ) (side : Side) (shares price : ℕ)
      → (place_node b i ref side shares price).symbol ≡ b.symbol
  unfolding place_node fill_node
  symbol-place_node b i ref side shares price =
      let filled : L3Book T = fill_node b i ref side shares price in
      let created : L3Book T × ℕ = find_or_create_level filled side price in
      symbol-append_node created.0 side created.1 i shares
      ∙ symbol-find_or_create_level filled side price

  pub symbol-add_order :
      (b : L3Book T) (ref : ℕ) (side : Side) (shares price : ℕ)
      → (add_order b ref side shares price).symbol ≡ b.symbol
  unfolding add_order
  symbol-add_order b ref side shares price = elim (Bool-cases (idx.find b.index ref == npos)) [
    | inl free ↦ rw free (
        symbol-place_node (allocate_node b).0 (allocate_node b).1 ref side shares price
        ∙ symbol-allocate_node b)
    | inr used ↦ rw used
  ]

  symbol-drop_node : (b : L3Book T) (i ref : ℕ) → (drop_node b i ref).symbol ≡ b.symbol
  unfolding drop_node free_node
  symbol-drop_node b i ref = symbol-unlink_node b i

  pub symbol-execute_order :
      (b : L3Book T) (ref shares : ℕ) → (execute_order b ref shares).0.symbol ≡ b.symbol
  unfolding execute_order
  symbol-execute_order b ref shares = ground (
    arith,
    symbol-drop_node b (idx.find b.index ref) ref,
    symbol-take_shares b (idx.find b.index ref) (node_at b.pool (idx.find b.index ref))
        (min shares (node_at b.pool (idx.find b.index ref)).shares),
  )

  pub symbol-reduce_order :
      (b : L3Book T) (ref shares : ℕ) → (reduce_order b ref shares).0.symbol ≡ b.symbol
  unfolding reduce_order
  symbol-reduce_order b ref shares = symbol-execute_order b ref shares

  pub symbol-delete_order : (b : L3Book T) (ref : ℕ) → (delete_order b ref).symbol ≡ b.symbol
  unfolding delete_order
  symbol-delete_order b ref = ground (arith, symbol-drop_node b (idx.find b.index ref) ref)

  pub symbol-replace_order :
      (b : L3Book T) (old_ref new_ref shares price : ℕ)
      → (replace_order b old_ref new_ref shares price).symbol ≡ b.symbol
  unfolding replace_order
  symbol-replace_order b old_ref new_ref shares price =
      elim (Bool-cases (idx.find b.index old_ref == npos)) [
        | inl absent ↦ rw absent
        | inr present ↦ rw present (
            symbol-add_order (delete_order b old_ref) new_ref
              (node_at b.pool (idx.find b.index old_ref)).side shares price
            ∙ symbol-delete_order b old_ref)
      ]
