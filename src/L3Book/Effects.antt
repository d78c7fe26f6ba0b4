-- ===== src/L3Book/Effects.antt =====
-- What the operations of src/book/l3_book.cpp do to the orders at every price.
use itchcpp.Prelude.{
  ℕ, ◌<◌, ◌≡◌, sym, ◌∙◌, ap, subst, List, [], ◌∷◌, ◌++◌, map-append, true, false, inl, inr,
  Bool-cases, ◌==◌, if◌then◌else◌, arith,
}
use itchcpp.L3Book.{Side, OrderNode, OrderView, L3Book, nil, node_at}
use itchcpp.L3Book.Interface.{Index, npos}
use itchcpp.L3Book.Segments.{has, has_ne, has-append, Cells, Seg}
use itchcpp.L3Book.Queues.{SameOrder}
use itchcpp.L3Book.WellFormed.{cells, here, WellFormed}
use itchcpp.L3Book.Allocation.{Allocated}
use itchcpp.L3Book.Levels.{here-eq}
use itchcpp.L3Book.Adding.{placed, queued}
use itchcpp.L3Book.Placement.{order_kept, order_new}
use itchcpp.L3Book.AddKeeps.{placed-WellFormed, placed-queues}
use itchcpp.L3Book.Dropping.{Target, dropped}
use itchcpp.L3Book.Removal
use itchcpp.L3Book.Removal.{Seg-once}
use itchcpp.L3Book.DropKeeps.{dropped-WellFormed, dropped-queues}
use itchcpp.L3Book.TakeKeeps.{taken, taken-WellFormed, taken-queues, node_taken, same_node}
use itchcpp.L3Book.Arrivals.{remove_view, lower_view, less}
use itchcpp.L3Book.Views.{view_of, views, views-frame, remove_view-queue, lower_view-queue}

view-SameOrder : (x y : OrderNode) → SameOrder x y → view_of y ≡ view_of x
view-SameOrder x y o = ground (arith, o.ref_same, o.shares_same, o.price_same)

module _ {T : Type 0} ⦃idx : Index T⦄ (b b1 : L3Book T) (w : WellFormed b) (i ref : ℕ) (s : Side)
    (n p : ℕ) (a : Allocated b b1 i w) (absent : idx.find b.index ref ≡ npos) where
  new_view :
      view_of (node_at (queued b1 i ref s n p).0 i)
      ≡ record { reference_number = ref; shares = n; price = p }
  new_view = view-SameOrder _ _ (order_new b b1 w i ref s n p a)

  views_kept :
      (c : Side) (q : ℕ)
      → views (node_at (queued b1 i ref s n p).0) (w.queues c q) ≡ views (cells b) (w.queues c q)
  views_kept c q = views-frame (cells b) (node_at (queued b1 i ref s n p).0) (w.queues c q) (λ x m.
      view-SameOrder _ _
        (order_kept b b1 w i ref s n p a x (has_ne i x (w.queues c q) (a.fresh c q) m)))

  pub placed-views :
      (c : Side) (q : ℕ)
      → views
          (cells (placed b1 i ref s n p))
          ((placed-WellFormed b b1 w i ref s n p a absent).queues c q)
        ≡ (if here s p c q
            then views (cells b) (w.queues c q)
              ++ record { reference_number = ref; shares = n; price = p } ∷ []
            else views (cells b) (w.queues c q))
  placed-views c q =
      ap (views (cells (placed b1 i ref s n p))) (placed-queues b b1 w i ref s n p a absent c q)
      ∙ elim (Bool-cases (here s p c q)) [
        | inl this ↦
            let (e, k) = here-eq s p c q this in
            rw (this, sym e, sym k)
              (map-append (λ x. view_of (node_at (queued b1 i ref s n p).0 x)) (w.queues s p)
                  (i ∷ [])
                ∙ ap
                    (λ (vs : List OrderView).
                      vs ++ view_of (node_at (queued b1 i ref s n p).0 i) ∷ [])
                    (views_kept s p)
                ∙ ap (λ (v : OrderView). views (cells b) (w.queues s p) ++ v ∷ []) new_view)
        | inr other ↦ rw other (views_kept c q)
      ]

module _ {T : Type 0} ⦃idx : Index T⦄ (b : L3Book T) (w : WellFormed b) (i ref : ℕ)
    (t : Target b w i ref) where
  -- No other order has the reference number.
  other_named :
      (c : Side) (q x : ℕ)
      → has x (w.queues c q) ≡ true
      → (i == x) ≡ false
      → ((cells b x).reference_number == ref) ≡ false
  other_named c q x m ne = ground (
    arith,
    Removal.other_ref b w i ref t x (cells b x).reference_number (w.resting c q x m).known ne,
  )

  once : has i (t.around.front ++ t.around.back) ≡ false
  once = Seg-once (cells b) t.around.front t.around.back i nil t.level.head t.level.tail nil (
      subst (λ (l : List ℕ). Seg (cells b) nil l t.level.head t.level.tail nil) t.around.whole
        t.describes.links)

  front_named :
      (x : ℕ) → has x t.around.front ≡ true → ((cells b x).reference_number == ref) ≡ false
  front_named x m =
      let ne : (i == x) ≡ false =
        has_ne i x t.around.front (ground (arith, once, has-append i t.around.front t.around.back))
          m in
      other_named (cells b i).side (cells b i).price x
        (rw (t.around.whole) (ground (arith, has-append x t.around.front (i ∷ t.around.back)))) ne

  pub dropped-views :
      (c : Side) (q : ℕ)
      → views (cells (dropped b i ref t.level)) ((dropped-WellFormed b w i ref t).queues c q) ≡ (
          if here (cells b i).side (cells b i).price c q
          then remove_view ref (views (cells b) (w.queues c q))
          else views (cells b) (w.queues c q))
  dropped-views c q =
      let f : Cells = cells b in
      let g : Cells = cells (dropped b i ref t.level) in
      let same : (x : ℕ) → (i == x) ≡ false → view_of (g x) ≡ view_of (f x) =
        λ x ne. view-SameOrder _ _ (Removal.order_kept b w i ref t x ne) in
      ap (views g) (dropped-queues b w i ref t c q)
      ∙ elim (Bool-cases (here (f i).side (f i).price c q)) [
        | inl this ↦
            let (e, k) = here-eq (f i).side (f i).price c q this in
            let removed : remove_view ref (views f (w.queues (f i).side (f i).price))
                ≡ views f (t.around.front ++ t.around.back) =
              ap (λ (l : List ℕ). remove_view ref (views f l)) t.around.whole
              ∙ remove_view-queue f g i ref t.named t.around.front t.around.back front_named in
            rw this (
              views-frame f g (t.around.front ++ t.around.back)
                (λ x m. same x (has_ne i x (t.around.front ++ t.around.back) once m))
              ∙ sym removed
              ∙ ap (λ (d : Side). remove_view ref (views f (w.queues d (f i).price))) e
              ∙ ap (λ (r : ℕ). remove_view ref (views f (w.queues c r))) k)
        | inr other ↦ rw other (
            views-frame f g (w.queues c q) (λ x m.
              same x (has_ne i x (w.queues c q) (Removal.elsewhere b w i ref t c q other) m)))
      ]

  pub taken-views :
      (n : ℕ) (fewer : n < (cells b i).shares) (c : Side) (q : ℕ)
      → views
          (cells (taken b w i ref t n fewer))
          ((taken-WellFormed b w i ref t n fewer).queues c q)
        ≡ (if here (cells b i).side (cells b i).price c q
            then lower_view ref n (views (cells b) (w.queues c q))
            else views (cells b) (w.queues c q))
  taken-views n fewer c q =
      let f : Cells = cells b in
      let g : Cells = cells (taken b w i ref t n fewer) in
      let same : (x : ℕ) → (i == x) ≡ false → view_of (g x) ≡ view_of (f x) =
        λ x ne. ap view_of (same_node b w i ref t n fewer x ne) in
      let lowered : view_of (g i) ≡ less (view_of (f i)) n =
        ground (arith, node_taken b w i ref t n fewer i) in
      ap (views g) (taken-queues b w i ref t n fewer c q)
      ∙ elim (Bool-cases (here (f i).side (f i).price c q)) [
        | inl this ↦
            let (e, k) = here-eq (f i).side (f i).price c q this in
            let low : lower_view ref n (views f (w.queues (f i).side (f i).price))
                ≡ views g (w.queues (f i).side (f i).price) =
              ap (λ (l : List ℕ). lower_view ref n (views f l)) t.around.whole
              ∙ lower_view-queue f g i ref t.named n t.around.front t.around.back front_named same
                  once lowered
              ∙ ap (views g) (sym t.around.whole) in
            rw (this, sym e, sym k) (sym low)
        | inr other ↦ rw other (
            views-frame f g (w.queues c q) (λ x m.
              same x (has_ne i x (w.queues c q) (Removal.elsewhere b w i ref t c q other) m)))
      ]
