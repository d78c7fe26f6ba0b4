-- ===== src/L3Book/Sequences.antt =====
-- Sequences of operations of the class `L3Book` of src/book/l3_book.cpp against the list of arrivals.
use itchcpp.Prelude.{
  ℕ, suc, ◌+◌, ◌<◌, ◌≤◌, ◌≡◌, refl, ◌∙◌, ap, subst, List, [], ◌∷◌, some, length, arith,
}
use itchcpp.L3Book.{
  Side, L3Book, nil, new_book, add_order, execute_order, reduce_order, delete_order, replace_order,
  orders_at,
}
use itchcpp.L3Book.Interface.{Index}
use itchcpp.L3Book.WellFormed.{WellFormed}
use itchcpp.L3Book.Arrivals.{Arrivals, at, append, remove, execute, executed, replace}
use itchcpp.L3Book.Views.{orders_at-views}
use itchcpp.L3Book.Refinement.{
  Refines, add_order-Refines, delete_order-Refines, execute_order-Refines, replace_order-Refines,
  new_book-Refines,
}

-- The operations that change a book
pub data Op : Type 0 where
  add : ℕ → Side → ℕ → ℕ → Op
  execution : ℕ → ℕ → Op
  reduction : ℕ → ℕ → Op
  deletion : ℕ → Op
  replacement : ℕ → ℕ → ℕ → ℕ → Op

-- The same on the list of arrivals
unfoldable pub arrive : Op → Arrivals → Arrivals × ℕ
arrive (add ref s n p) es = (append ref s n p es, 0)
arrive (execution ref n) es = (execute ref n es, executed ref n es)
arrive (reduction ref n) es = (execute ref n es, executed ref n es)
arrive (deletion ref) es = (remove ref es, 0)
arrive (replacement old_ref ref n p) es = (replace old_ref ref n p es, 0)

unfoldable pub arrivals : List Op → Arrivals → Arrivals × List ℕ
arrivals [] es = (es, [])
arrivals (op ∷ ops) es =
    let (es', n) = arrive op es in let (es'', ns) = arrivals ops es' in (es'', n ∷ ns)

module _ {T : Type 0} ⦃idx : Index T⦄ where
  -- What an operation returns, zero if it returns nothing
  unfoldable pub apply : Op → L3Book T → L3Book T × ℕ
  apply (add ref s n p) b = (add_order b ref s n p, 0)
  apply (execution ref n) b = execute_order b ref n
  apply (reduction ref n) b = reduce_order b ref n
  apply (deletion ref) b = (delete_order b ref, 0)
  apply (replacement old_ref ref n p) b = (replace_order b old_ref ref n p, 0)

  unfoldable pub run : List Op → L3Book T → L3Book T × List ℕ
  run [] b = (b, [])
  run (op ∷ ops) b = let (b', n) = apply op b in let (b'', ns) = run ops b' in (b'', n ∷ ns)

  widen : (n : ℕ) (b : L3Book T) (es : Arrivals) → Refines n b es → Refines (suc n) b es
  widen n b es r = record {
    well_formed = r.well_formed;
    pool_size = omega (arith, r.pool_size);
    shows = r.shows;
  }

  apply-Refines :
      (op : Op) (n : ℕ) (b : L3Book T) (es : Arrivals)
      → n < nil
      → Refines n b es
      → Refines (suc n) (apply op b).0 (arrive op es).0 × ((apply op b).1 ≡ (arrive op es).1)
  unfolding apply arrive reduce_order
  apply-Refines (add ref s k p) n b es small r = (add_order-Refines n b es ref s k p small r, refl)
  apply-Refines (execution ref k) n b es small r =
      let (after, same) = execute_order-Refines n b es ref k r in
      (widen n (execute_order b ref k).0 (execute ref k es) after, same)
  apply-Refines (reduction ref k) n b es small r =
      let (after, same) = execute_order-Refines n b es ref k r in
      (widen n (execute_order b ref k).0 (execute ref k es) after, same)
  apply-Refines (deletion ref) n b es small r =
      (widen n (delete_order b ref) (remove ref es) (delete_order-Refines n b es ref r), refl)
  apply-Refines (replacement old_ref ref k p) n b es small r =
      (replace_order-Refines n b es old_ref ref k p small r, refl)

  run-Refines :
      (ops : List Op) (n : ℕ) (b : L3Book T) (es : Arrivals)
      → n + length ops ≤ nil
      → Refines n b es
      → Refines (n + length ops) (run ops b).0 (arrivals ops es).0
        × ((run ops b).1 ≡ (arrivals ops es).1)
  unfolding run arrivals
  run-Refines [] n b es small r =
      (subst (λ (k : ℕ). Refines k b es) {x = n} {y = n + 0} (omega arith) r, refl)
  run-Refines (op ∷ ops) n b es small r =
      let (after, same) = apply-Refines op n b es (omega arith) r in
      let (end, results) =
        run-Refines ops (suc n) (apply op b).0 (arrive op es).0 (omega arith) after in
      (rw (add-suc n (length ops)) end, rw (same, results))
    where
      add-suc : (n k : ℕ) → n + suc k ≡ suc n + k
      add-suc n k = omega arith

module _ (T : Type 0) ⦃idx : Index T⦄ where
  -- Over any order index with the laws of a map, which `OrderIndex` satisfies:
  -- from an empty book, any operations, at most 2^32 - 1 of them, show at each side and price the
  -- orders of the list of arrivals, oldest first, and return the shares that the list returns.
  pub run-arrivals :
      (symbol : List ℕ) (ops : List Op) (c : Side) (q : ℕ)
      → length ops ≤ nil
      → (orders_at (run ops (new_book {T = T} symbol)).0 c q ≡ some (at c q (arrivals ops []).0))
        × ((run ops (new_book {T = T} symbol)).1 ≡ (arrivals ops []).1)
  run-arrivals symbol ops c q small =
      let (r, same) =
        run-Refines ops 0 (new_book symbol) [] (omega arith) (new_book-Refines symbol) in
      (
        orders_at-views (run ops (new_book {T = T} symbol)).0 r.well_formed c q
            ∙ ap some (r.shows c q),
        same,
      )

  -- Over any order index with the laws of a map, which `OrderIndex` satisfies:
  -- from an empty book, any operations, at most 2^32 - 1 of them, lead to a book that satisfies the
  -- invariant.
  pub run-WellFormed :
      (symbol : List ℕ) (ops : List Op)
      → length ops ≤ nil
      → WellFormed (run ops (new_book {T = T} symbol)).0
  run-WellFormed symbol ops small =
      (run-Refines ops 0 (new_book symbol) [] (omega arith) (new_book-Refines symbol)).0.well_formed
