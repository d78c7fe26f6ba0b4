-- ===== src/L3Book/Refinement.antt =====
-- The class `L3Book` of src/book/l3_book.cpp refines the list of arrivals: any sequence of its operations
-- shows the orders, and returns the shares, that the list does.
use itchcpp.Prelude.{
  ℕ, suc, ◌<◌, ◌≤◌, ◌≡◌, refl, sym, ◌∙◌, ap, subst, List, [], ◌∷◌, ◌++◌, none, some, true, false,
  inl, inr, Bool-cases, Option-cases, lt→ltb, le→ltb_false, ◌==◌, if◌then◌else◌, length, arith,
}
use native.Mathlib.Decide.{dec_lt}
use itchcpp.L3Book.{
  Side, OrderView, L3Book, nil, node_at, new_book, allocate_node, add_order, execute_order,
  delete_order, replace_order, drop_node, take_shares, contains,
}
use itchcpp.L3Book.Interface.{Index, npos}
use itchcpp.L3Book.WellFormed.{
  cells, here, Resting, Found, WellFormed, new_book-WellFormed, new_book-queues,
}
use itchcpp.L3Book.Allocation.{Allocated, allocate_node-Allocated}
use itchcpp.L3Book.Adding.{placed}
use itchcpp.L3Book.AddKeeps.{placed-WellFormed, add_order-placed, add_order-size}
use itchcpp.L3Book.Dropping.{Target, find-Target, drop_node-dropped}
use itchcpp.L3Book.DropKeeps.{dropped-size, dropped-WellFormed}
use itchcpp.L3Book.TakeKeeps.{take_shares-taken, taken-size, taken-WellFormed}
use itchcpp.L3Book.Operations.{
  add_order-present, execute_order-absent, execute-drops, execute-takes, delete_order-drops,
  delete_order-absent,
}
use itchcpp.L3Book.Arrivals.{
  Entry, Arrivals, locate, at, remove, lower, append, execute, executed, replace, first,
  remove_view, lower_view, at-append, first-at, locate-first, at-remove, at-lower, append-new,
  append-old, execute-lower, execute-remove, execute-none, executed-some, executed-none,
  replace-some, replace-none, remove-none,
}
use itchcpp.L3Book.Views.{view_of, views, At, first-views, first-has}
use itchcpp.L3Book.Effects.{placed-views, dropped-views, taken-views}

module _ {T : Type 0} ⦃idx : Index T⦄ where
  -- The book shows the arrivals, and its pool has at most `n` nodes.
  pub record Refines (n : ℕ) (b : L3Book T) (es : Arrivals) : Type 0 where
    pub well_formed : WellFormed b
    pub pool_size : length b.pool ≤ n
    pub shows : (c : Side) (q : ℕ) → views (cells b) (well_formed.queues c q) ≡ at c q es

  -- The first arrival of a reference number is the order that the index leads to.
  record Located (b : L3Book T) (ref : ℕ) (es : Arrivals) : Type 0 where
    entry : Entry
    is_first : locate ref es ≡ some entry
    same_side : entry.side ≡ (cells b (idx.find b.index ref)).side
    same_view : entry.view ≡ view_of (cells b (idx.find b.index ref))

  here_entry :
      {A : Type 0} (n : ℕ) (b : L3Book T) (es : Arrivals) (ref : ℕ) (l : Located b ref es)
      (c : Side) (q : ℕ) (x y : A)
      → (if here l.entry.side l.entry.view.price c q then x else y) ≡ (
          if here (cells b (idx.find b.index ref)).side (cells b (idx.find b.index ref)).price c q
          then x
          else y)
  here_entry n b es ref l c q x y = rw (l.same_side, ap (λ (v : OrderView). v.price) l.same_view)

  entry-Located :
      (n : ℕ) (b : L3Book T) (es : Arrivals) (ref : ℕ) (e : Entry)
      → Refines n b es
      → locate ref es ≡ some e
      → Located b ref es × ((idx.find b.index ref == npos) ≡ false)
  entry-Located n b es ref e r h =
      let f : first ref (views (cells b) (r.well_formed.queues e.side e.view.price)) ≡ some e.view =
        ap (first ref) (r.shows e.side e.view.price) ∙ first-at ref es e h in
      let a : At (cells b) ref e.view (r.well_formed.queues e.side e.view.price) =
        first-views (cells b) ref e.view (r.well_formed.queues e.side e.view.price) f in
      let rest : Resting (cells b) (length b.pool) (idx.find b.index) e.side e.view.price a.node =
        r.well_formed.resting e.side e.view.price a.node a.is_in in
      let same : idx.find b.index ref ≡ a.node = ap (idx.find b.index) (sym a.named) ∙ rest.known in
      (
        record {
          entry = e;
          is_first = h;
          same_side = rw same (sym rest.on_side);
          same_view = rw same a.shown;
        },
        ground (arith, rest.bound, r.well_formed.room, same),
      )

  locate-unknown :
      (n : ℕ) (b : L3Book T) (es : Arrivals) (ref : ℕ)
      → Refines n b es
      → (idx.find b.index ref == npos) ≡ true
      → locate ref es ≡ none
  locate-unknown n b es ref r unknown = elim (Option-cases (locate ref es)) [
    | inl absent ↦ absent
    | inr (e, h) ↦ absurd (cc (unknown, (entry-Located n b es ref e r h).1))
  ]

  locate-known :
      (n : ℕ) (b : L3Book T) (es : Arrivals) (ref : ℕ)
      → Refines n b es
      → (idx.find b.index ref == npos) ≡ false
      → Located b ref es
  locate-known n b es ref r known = elim (Option-cases (locate ref es)) [
    | inr (e, h) ↦ (entry-Located n b es ref e r h).0
    | inl absent ↦
        let x : ℕ = idx.find b.index ref in
        let fo : Found (cells b) r.well_formed.queues ref x = r.well_formed.found ref known in
        let nothing : first ref
              (views (cells b) (r.well_formed.queues (cells b x).side (cells b x).price))
            ≡ none =
          ap (first ref) (r.shows (cells b x).side (cells b x).price)
          ∙ locate-first ref (cells b x).side (cells b x).price es absent in
        absurd (
          first-has (cells b) x (r.well_formed.queues (cells b x).side (cells b x).price) fo.queued
            (rw (fo.named) nothing))
  ]

  pub add_order-Refines :
      (n : ℕ) (b : L3Book T) (es : Arrivals) (ref : ℕ) (s : Side) (shares price : ℕ)
      → n < nil
      → Refines n b es
      → Refines (suc n) (add_order b ref s shares price) (append ref s shares price es)
  add_order-Refines n b es ref s shares price small r =
      elim (Bool-cases (idx.find b.index ref == npos)) [
        | inr known ↦
            let l : Located b ref es = locate-known n b es ref r known in
            rw
              (
                add_order-present b ref s shares price (unfold contains in rw known),
                append-old ref es s shares price l.entry l.is_first,
              )
              (record {
                well_formed = r.well_formed;
                pool_size = omega (arith, r.pool_size);
                shows = r.shows;
              })
        | inl unknown ↦
            let w : WellFormed b = r.well_formed in
            let room : length b.pool < nil = omega (arith, r.pool_size) in
            let new : contains b ref ≡ false = unfold contains in rw unknown in
            let absent : idx.find b.index ref ≡ npos = ground arith in
            let a : Allocated b (allocate_node b).0 (allocate_node b).1 w =
              allocate_node-Allocated b w room in
            let e : add_order b ref s shares price
                ≡ placed (allocate_node b).0 (allocate_node b).1 ref s shares price =
              add_order-placed b w ref s shares price room new in
            let size : length (add_order b ref s shares price).pool ≤ suc (length b.pool) =
              add_order-size b w ref s shares price room new in
            rw (append-new ref es s shares price (locate-unknown n b es ref r unknown)) (
              subst
                (λ (b' : L3Book T). Refines (suc n) b' (
                  es
                  ++ record {
                    side = s;
                    view = record { reference_number = ref; shares = shares; price = price };
                  }
                    ∷ []))
                (sym e)
                (record {
                  well_formed =
                      placed-WellFormed b (allocate_node b).0 w (allocate_node b).1 ref s shares
                        price a absent;
                  pool_size =
                      subst (λ (b' : L3Book T). length b'.pool ≤ suc n) e
                        (omega (arith, size, r.pool_size));
                  shows = λ c q.
                      placed-views b (allocate_node b).0 w (allocate_node b).1 ref s shares price a
                        absent c q
                      ∙ rw (r.shows c q) (sym (at-append c q es _));
                }))
      ]

  -- A known order was dropped from the book, and from the list.
  drop_node-Refines :
      (n : ℕ) (b : L3Book T) (es : Arrivals) (ref : ℕ)
      → (idx.find b.index ref == npos) ≡ false
      → Refines n b es
      → Refines n (drop_node b (idx.find b.index ref) ref) (remove ref es)
  drop_node-Refines n b es ref known r =
      let i : ℕ = idx.find b.index ref in
      let w : WellFormed b = r.well_formed in
      let t : Target b w i ref = find-Target b w ref known in
      let l : Located b ref es = locate-known n b es ref r known in
      subst (λ (b' : L3Book T). Refines n b' (remove ref es)) (sym (drop_node-dropped b w i ref t))
        (record {
          well_formed = dropped-WellFormed b w i ref t;
          pool_size = omega (arith, dropped-size b w i ref t, r.pool_size);
          shows = λ c q.
              dropped-views b w i ref t c q
              ∙ rw (r.shows c q) (
                  sym (
                    at-remove ref c q es l.entry l.is_first
                    ∙ here_entry n b es ref l c q (remove_view ref (at c q es)) (at c q es)));
        })

  pub delete_order-Refines :
      (n : ℕ) (b : L3Book T) (es : Arrivals) (ref : ℕ)
      → Refines n b es
      → Refines n (delete_order b ref) (remove ref es)
  delete_order-Refines n b es ref r = elim (Bool-cases (idx.find b.index ref == npos)) [
    | inl unknown ↦
        rw
          (
            delete_order-absent b r.well_formed ref unknown,
            remove-none ref es (locate-unknown n b es ref r unknown),
          )
          r
    | inr known ↦
        rw (delete_order-drops b r.well_formed ref known) (drop_node-Refines n b es ref known r)
  ]

  take_shares-Refines :
      (n : ℕ) (b : L3Book T) (es : Arrivals) (ref shares : ℕ)
      → (idx.find b.index ref == npos) ≡ false
      → shares < (cells b (idx.find b.index ref)).shares
      → Refines n b es
      → Refines n
          (take_shares b (idx.find b.index ref) (node_at b.pool (idx.find b.index ref)) shares)
          (lower ref shares es)
  take_shares-Refines n b es ref shares known fewer r =
      let i : ℕ = idx.find b.index ref in
      let w : WellFormed b = r.well_formed in
      let t : Target b w i ref = find-Target b w ref known in
      let l : Located b ref es = locate-known n b es ref r known in
      subst (λ (b' : L3Book T). Refines n b' (lower ref shares es))
        (sym (take_shares-taken b w i ref t shares fewer))
        (record {
          well_formed = taken-WellFormed b w i ref t shares fewer;
          pool_size = omega (arith, taken-size b w i ref t shares fewer, r.pool_size);
          shows = λ c q.
              taken-views b w i ref t shares fewer c q
              ∙ rw (r.shows c q) (
                  sym (
                    at-lower ref c q shares es l.entry l.is_first
                    ∙ here_entry n b es ref l c q (lower_view ref shares (at c q es)) (at c q es)));
        })

  -- An execution: the book, and the shares that it returns.
  pub execute_order-Refines :
      (n : ℕ) (b : L3Book T) (es : Arrivals) (ref shares : ℕ)
      → Refines n b es
      → Refines n (execute_order b ref shares).0 (execute ref shares es)
        × ((execute_order b ref shares).1 ≡ executed ref shares es)
  execute_order-Refines n b es ref shares r = elim (Bool-cases (idx.find b.index ref == npos)) [
    | inl unknown ↦
        let none_there : locate ref es ≡ none = locate-unknown n b es ref r unknown in
        rw
          (
            execute_order-absent b ref shares unknown,
            execute-none ref es shares none_there,
            executed-none ref es shares none_there,
          )
          (r, refl)
    | inr known ↦
        let l : Located b ref es = locate-known n b es ref r known in
        let rests : l.entry.view.shares ≡ (cells b (idx.find b.index ref)).shares =
          ap (λ (v : OrderView). v.shares) l.same_view in
        elim (dec_lt shares (cells b (idx.find b.index ref)).shares) [
          | yes fewer ↦
              rw
                (
                  execute-takes b r.well_formed ref shares known fewer,
                  execute-lower ref es shares l.entry l.is_first
                      (lt→ltb shares l.entry.view.shares (omega (arith, rests))),
                  executed-some ref es shares l.entry l.is_first,
                )
                (take_shares-Refines n b es ref shares known fewer r, omega (arith, rests))
          | no enough ↦
              rw
                (
                  execute-drops b r.well_formed ref shares known (omega arith),
                  execute-remove ref es shares l.entry l.is_first
                      (le→ltb_false shares l.entry.view.shares (omega (arith, rests))),
                  executed-some ref es shares l.entry l.is_first,
                )
                (drop_node-Refines n b es ref known r, omega (arith, rests))
        ]
  ]

  pub replace_order-Refines :
      (n : ℕ) (b : L3Book T) (es : Arrivals) (old_ref new_ref shares price : ℕ)
      → n < nil
      → Refines n b es
      → Refines
          (suc n)
          (replace_order b old_ref new_ref shares price)
          (replace old_ref new_ref shares price es)
  unfolding replace_order
  replace_order-Refines n b es old_ref new_ref shares price small r =
      elim (Bool-cases (idx.find b.index old_ref == npos)) [
        | inl unknown ↦
            rw
              (
                unknown,
                replace-none old_ref es new_ref shares price
                    (locate-unknown n b es old_ref r unknown),
              )
              (record {
                well_formed = r.well_formed;
                pool_size = omega (arith, r.pool_size);
                shows = r.shows;
              })
        | inr known ↦
            let l : Located b old_ref es = locate-known n b es old_ref r known in
            rw (known, replace-some old_ref es new_ref shares price l.entry l.is_first, l.same_side)
              (add_order-Refines n (delete_order b old_ref) (remove old_ref es) new_ref
                (cells b (idx.find b.index old_ref)).side shares price small
                (delete_order-Refines n b es old_ref r))
      ]

  pub new_book-Refines : (symbol : List ℕ) → Refines 0 (new_book symbol) []
  unfolding new_book at
  new_book-Refines symbol = record {
    well_formed = new_book-WellFormed symbol;
    pool_size = omega arith;
    shows = λ c q. ap (views (cells {T = T} (new_book symbol))) (new_book-queues T symbol c q);
  }
