-- ===== src/L3Book/Adding.antt =====
-- `add_order` of src/book/l3_book.cpp, in one equation: what becomes of the pool, the ladder and the
-- index.
use itchcpp.Prelude.{ℕ, ◌+◌, ◌≤◌, ◌%◌, ◌^◌, ◌≡◌, refl, List, inl, inr, Bool-cases, length, arith}
use itchcpp.L3Book.{
  Side, buy, sell, OrderNode, Level, L3Book, nil, node_at, new_level, lower_bound, is_level,
  link_last, side_levels, put_levels, find_or_create_level, level_of, append_node, fill_node,
  place_node,
}
use itchcpp.L3Book.Interface.{Index}
use itchcpp.L3Book.Vectors.{get_or, set, insert_at}
use itchcpp.L3Book.Ladder.{lookup, Sorted}
use itchcpp.L3Book.Places.{prepared, level_or_new, lower_bound-le, prepared-Written}

abbrev pub order_node : OrderNode → ℕ → Side → ℕ → ℕ → OrderNode
order_node node ref s n p = record node { reference_number = ref; shares = n; price = p; side = s }

abbrev pub grown : Level → ℕ → Level
grown level n = record level {
  total_shares = (level.total_shares + n) % 2 ^ 64;
  order_count = (level.order_count + 1) % 2 ^ 32;
}

module _ {T : Type 0} ⦃idx : Index T⦄ where
  abbrev pub filled : L3Book T → ℕ → ℕ → Side → ℕ → ℕ → List OrderNode
  filled b i ref s n p = set b.pool i (order_node (node_at b.pool i) ref s n p)

  abbrev pub queued : L3Book T → ℕ → ℕ → Side → ℕ → ℕ → List OrderNode × Level
  queued b i ref s n p =
      link_last (filled b i ref s n p) i (level_or_new p (lookup p (side_levels b s)))

  abbrev pub laddered : L3Book T → ℕ → ℕ → Side → ℕ → ℕ → List Level
  laddered b i ref s n p =
      set (prepared s p (side_levels b s)) (lower_bound s (side_levels b s) p)
        (grown (queued b i ref s n p).1 n)

  abbrev pub placed : L3Book T → ℕ → ℕ → Side → ℕ → ℕ → L3Book T
  placed b i ref s n p =
      record (put_levels (record b { pool = (queued b i ref s n p).0 }) s
        (laddered b i ref s n p)) { index = idx.insert b.index ref i }

  pub place_node-placed :
      (b : L3Book T) (i ref : ℕ) (s : Side) (n p : ℕ)
      → Sorted s (side_levels b s)
      → length (side_levels b s) ≤ nil
      → place_node b i ref s n p ≡ placed b i ref s n p
  unfolding place_node find_or_create_level append_node level_of fill_node side_levels
  place_node-placed b i ref buy n p sorted few =
      let ls : List Level = b.bids in
      let k : ℕ = lower_bound buy ls p in
      let small : k % 2 ^ 32 ≡ k = omega (arith, lower_bound-le buy p ls) in
      let get : get_or (prepared buy p ls) k (new_level 0) ≡ level_or_new p (lookup p ls) =
        (prepared-Written buy p ls sorted (new_level p) (unfold new_level in refl)).1 in
      elim (Bool-cases (is_level ls k p)) [
        | inl hit ↦
            let found : get_or ls k (new_level 0) ≡ level_or_new p (lookup p ls) = rw hit at get in
            rw (hit, small, found)
        | inr off ↦
            let made : get_or (insert_at ls k (new_level p)) k (new_level 0)
                ≡ level_or_new p (lookup p ls) =
              rw off at get in
            rw (off, small, made)
      ]
  place_node-placed b i ref sell n p sorted few =
      let ls : List Level = b.asks in
      let k : ℕ = lower_bound sell ls p in
      let small : k % 2 ^ 32 ≡ k = omega (arith, lower_bound-le sell p ls) in
      let get : get_or (prepared sell p ls) k (new_level 0) ≡ level_or_new p (lookup p ls) =
        (prepared-Written sell p ls sorted (new_level p) (unfold new_level in refl)).1 in
      elim (Bool-cases (is_level ls k p)) [
        | inl hit ↦
            let found : get_or ls k (new_level 0) ≡ level_or_new p (lookup p ls) = rw hit at get in
            rw (hit, small, found)
        | inr off ↦
            let made : get_or (insert_at ls k (new_level p)) k (new_level 0)
                ≡ level_or_new p (lookup p ls) =
              rw off at get in
            rw (off, small, made)
      ]
