-- ===== src/L3Book/Allocation.antt =====
-- The free list of src/book/l3_book.cpp: a node that is allocated was free or is new.
use itchcpp.Prelude.{
  ℕ, suc, ◌+◌, ◌%◌, ◌^◌, ◌<◌, ◌≤◌, ◌≡◌, refl, ◌∙◌, ap, subst, List, [], ◌∷◌, ◌++◌, true, false, inl,
  inr, Bool-cases, ◌==◌, if◌then◌else◌, length, length-append, arith,
}
use itchcpp.L3Book.{Side, L3Book, nil, blank_node, node_at, allocate_node}
use itchcpp.L3Book.Interface.{Index}
use itchcpp.L3Book.Vectors.{set, length-set, get_or-set, get_or-append_last, get_or-length}
use itchcpp.L3Book.Segments.{has, has_ne, Cells}
use itchcpp.L3Book.WellFormed.{cells, FreeList, WellFormed, Unused, Resting}

pub FreeList-frame :
    (f g : Cells) (xs : List ℕ) (head : ℕ)
    → ((j : ℕ) → has j xs ≡ true → g j ≡ f j)
    → FreeList f xs head
    → FreeList g xs head
FreeList-frame f g [] head same h = h
FreeList-frame f g (x ∷ xs) head same (h, out, rest) =
    let e : g x ≡ f x = same x (ground arith) in
    (h, out, rw e (FreeList-frame f g xs (f x).next (λ j m. same j (ground arith)) rest))

module _ {T : Type 0} ⦃idx : Index T⦄ where
  -- The pool after the allocation of the node `i`
  pub record Allocated (b b' : L3Book T) (i : ℕ) (w : WellFormed b) : Type 0 where
    pub free' : List ℕ
    pub list' : FreeList (cells b') free' b'.free_head
    pub from_free : (j : ℕ) → has j free' ≡ true → has j w.free ≡ true
    pub taken : has i free' ≡ false
    pub blank : cells b' i ≡ blank_node
    pub others : (j : ℕ) → (i == j) ≡ false → cells b' j ≡ cells b j
    pub bound : i < length b'.pool
    pub grows : length b.pool ≤ length b'.pool
    pub by_one : length b'.pool ≤ suc (length b.pool)
    pub room' : length b'.pool ≤ nil
    pub fresh : (s : Side) (p : ℕ) → has i (w.queues s p) ≡ false
    pub counted : length free' + suc (length b.pool) ≡ length w.free + length b'.pool
    pub bids_same : b'.bids ≡ b.bids
    pub asks_same : b'.asks ≡ b.asks
    pub index_same : b'.index ≡ b.index
    pub symbol_same : b'.symbol ≡ b.symbol

  pub Unused-not_queued :
      (b : L3Book T) (w : WellFormed b) (i : ℕ)
      → Unused (cells b) (length b.pool) (idx.find b.index) i
      → (s : Side) (p : ℕ) → has i (w.queues s p) ≡ false
  Unused-not_queued b w i u s p = elim (Bool-cases (has i (w.queues s p))) [
    | inl queued ↦
        let r : Resting (cells b) (length b.pool) (idx.find b.index) s p i =
          w.resting s p i queued in
        absurd (ground (arith, u.unknown, r.known))
    | inr out ↦ out
  ]

  bound-not_queued :
      (b : L3Book T) (w : WellFormed b) (i : ℕ)
      → length b.pool ≤ i
      → (s : Side) (p : ℕ) → has i (w.queues s p) ≡ false
  bound-not_queued b w i h s p = elim (Bool-cases (has i (w.queues s p))) [
    | inl queued ↦
        let r : Resting (cells b) (length b.pool) (idx.find b.index) s p i =
          w.resting s p i queued in
        absurd (omega (arith, r.bound))
    | inr out ↦ out
  ]

  allocate-reused :
      (b : L3Book T) (w : WellFormed b) (x : ℕ) (xs : List ℕ)
      → w.free ≡ x ∷ xs
      → Allocated b (allocate_node b).0 (allocate_node b).1 w
  unfolding allocate_node
  allocate-reused b w x xs e =
      let list : FreeList (cells b) (x ∷ xs) b.free_head =
        subst (λ (l : List ℕ). FreeList (cells b) l b.free_head) e w.free_list in
      let u : Unused (cells b) (length b.pool) (idx.find b.index) x =
        w.unused x (rw e (ground arith)) in
      let some_free : (b.free_head == nil) ≡ false = ground (arith, list.0, u.bound, w.room) in
      let same : (j : ℕ)
          → node_at (set b.pool x blank_node) j
            ≡ (if x == j then blank_node else node_at b.pool j) =
        λ j. get_or-set b.pool x j blank_node blank_node u.bound in
      rw (some_free, list.0)
        record {
          free' = xs;
          list' =
              FreeList-frame (cells b) (node_at (set b.pool x blank_node)) xs
                (node_at b.pool x).next (λ j m. ground (arith, same j, has_ne x j xs list.1 m))
                list.2;
          from_free = λ j m. rw e (ground arith);
          taken = list.1;
          blank = ground (arith, same x);
          others = λ j ne. ground (arith, same j);
          bound = rw (length-set b.pool x blank_node) (u.bound);
          grows = omega (arith, length-set b.pool x blank_node);
          by_one = omega (arith, length-set b.pool x blank_node);
          room' = rw (length-set b.pool x blank_node) (w.room);
          fresh = Unused-not_queued b w x u;
          counted = omega (arith, ap length e, length-set b.pool x blank_node);
          bids_same = refl;
          asks_same = refl;
          index_same = refl;
          symbol_same = refl;
        }

  allocate-new :
      (b : L3Book T) (w : WellFormed b)
      → w.free ≡ []
      → length b.pool < nil
      → Allocated b (allocate_node b).0 (allocate_node b).1 w
  unfolding allocate_node
  allocate-new b w e small =
      let none_free : (b.free_head == nil) ≡ true =
        ground (arith, subst (λ (l : List ℕ). FreeList (cells b) l b.free_head) e w.free_list) in
      let i_eq : length b.pool % 2 ^ 32 ≡ length b.pool = omega arith in
      let size : length (b.pool ++ blank_node ∷ []) ≡ suc (length b.pool) =
        omega (arith, length-append b.pool (blank_node ∷ [])) in
      rw (none_free, i_eq)
        record {
          free' = [];
          list' = ground arith;
          from_free = λ j m. cc;
          taken = refl;
          blank =
              get_or-append_last b.pool (length b.pool) blank_node
              ∙ get_or-length b.pool blank_node;
          others = λ j ne. get_or-append_last b.pool j blank_node;
          bound = omega (arith, size);
          grows = omega (arith, size);
          by_one = omega (arith, size);
          room' = omega (arith, size);
          fresh = bound-not_queued b w (length b.pool) (omega arith);
          counted = omega (arith, ap length e, size);
          bids_same = refl;
          asks_same = refl;
          index_same = refl;
          symbol_same = refl;
        }

  pub allocate_node-Allocated :
      (b : L3Book T) (w : WellFormed b)
      → length b.pool < nil
      → Allocated b (allocate_node b).0 (allocate_node b).1 w
  allocate_node-Allocated b w small = pick w.free refl
    where
      pick : (l : List ℕ) → w.free ≡ l → Allocated b (allocate_node b).0 (allocate_node b).1 w
      pick [] e = allocate-new b w e small
      pick (x ∷ xs) e = allocate-reused b w x xs e
