-- ===== src/L3Book/Levels.antt =====
-- How a change of one queue of src/book/l3_book.cpp leaves the others: what the invariant asks of the
-- level that changed, and what it keeps of the rest.
use itchcpp.Prelude.{
  ℕ, ◌+◌, ◌≤◌, ◌≡◌, refl, sym, ◌∙◌, ap, List, [], ◌∷◌, Option, none, some, true, false, inl, inr,
  Bool-cases, ◌==◌, if◌then◌else◌, length, arith,
}
use itchcpp.L3Book.{Side, buy, sell, OrderNode, Level, L3Book, nil, side_levels, put_levels}
use itchcpp.L3Book.Interface.{Index}
use itchcpp.L3Book.Segments.{has, has_ne, Cells, Seg-frame}
use itchcpp.L3Book.Ladder.{lookup, Sorted}
use itchcpp.L3Book.Updates.{orders_on}
use itchcpp.L3Book.WellFormed.{cells, same_side, here, sum_shares, Fits, Resting, WellFormed}

abbrev pub Queues : Type 0
Queues = Side → ℕ → List ℕ

abbrev pub put_queue : Queues → Side → ℕ → List ℕ → Queues
put_queue queues s p queue c q = if here s p c q then queue else queues c q

pub here_refl : (s : Side) (p : ℕ) → here s p s p ≡ true
here_refl buy p = ground arith
here_refl sell p = ground arith

pub here-eq : (s : Side) (p : ℕ) (c : Side) (q : ℕ) → here s p c q ≡ true → (s ≡ c) × (p ≡ q)
here-eq buy p buy q h = (refl, ground arith)
here-eq buy p sell q h = cc
here-eq sell p buy q h = cc
here-eq sell p sell q h = (refl, ground arith)

pub same_side-eq : (s c : Side) → same_side s c ≡ true → s ≡ c
same_side-eq buy buy h = refl
same_side-eq buy sell h = cc
same_side-eq sell buy h = cc
same_side-eq sell sell h = refl

pub sum_shares-frame :
    (f g : Cells) (xs : List ℕ)
    → ((x : ℕ) → has x xs ≡ true → (g x).shares ≡ (f x).shares)
    → sum_shares g xs ≡ sum_shares f xs
unfolding sum_shares
sum_shares-frame f g [] same = refl
sum_shares-frame f g (x ∷ xs) same =
    let rest : sum_shares g xs ≡ sum_shares f xs =
      sum_shares-frame f g xs (λ y m. same y (ground arith)) in
    let e : (g x).shares ≡ (f x).shares = same x (ground arith) in omega arith

pub Fits-frame :
    (f g : Cells) (o : Option Level) (queue : List ℕ)
    → ((x : ℕ) → has x queue ≡ true → g x ≡ f x)
    → Fits f o queue
    → Fits g o queue
Fits-frame f g none queue same h = h
Fits-frame f g (some l) queue same h = record {
  some_orders = h.some_orders;
  links = Seg-frame f g nil queue l.head l.tail nil same h.links;
  total =
      rw (sum_shares-frame f g queue (λ x m. ap (λ (n : OrderNode). n.shares) (same x m))) h.total;
  count = h.count;
}

module _ {T : Type 0} where
  pub side_levels-put :
      (b : L3Book T) (s c : Side) (ls : List Level)
      → side_levels (put_levels b s ls) c ≡ (if same_side s c then ls else side_levels b c)
  unfolding side_levels
  side_levels-put b buy buy ls = refl
  side_levels-put b buy sell ls = refl
  side_levels-put b sell buy ls = refl
  side_levels-put b sell sell ls = refl

  -- The orders that both ladders count
  abbrev pub total_orders : L3Book T → ℕ
  total_orders b = orders_on b.bids + orders_on b.asks

  pub total_orders-put :
      (b : L3Book T) (s : Side) (ls : List Level)
      → total_orders (put_levels b s ls) + orders_on (side_levels b s)
        ≡ total_orders b + orders_on ls
  unfolding side_levels
  total_orders-put b buy ls = omega arith
  total_orders-put b sell ls = omega arith

  pub side_levels-le-total :
      (b : L3Book T) (s : Side) → orders_on (side_levels b s) ≤ total_orders b
  unfolding side_levels
  side_levels-le-total b buy = omega arith
  side_levels-le-total b sell = omega arith

  -- One ladder was rewritten: the level of one price is another one.
  pub lookup-put :
      (b : L3Book T) (s : Side) (p : ℕ) (o : Option Level) (ls : List Level)
      → ((q : ℕ) → lookup q ls ≡ (if p == q then o else lookup q (side_levels b s)))
      → (c : Side) (q : ℕ)
      → lookup q (side_levels (put_levels b s ls) c)
        ≡ (if here s p c q then o else lookup q (side_levels b c))
  lookup-put b buy p o ls h buy q = rw (side_levels-put b buy buy ls) (h q)
  lookup-put b buy p o ls h sell q = rw (side_levels-put b buy sell ls)
  lookup-put b sell p o ls h buy q = rw (side_levels-put b sell buy ls)
  lookup-put b sell p o ls h sell q = rw (side_levels-put b sell sell ls) (h q)

  pub Sorted-put :
      (b : L3Book T) (s : Side) (ls : List Level)
      → ((c : Side) → Sorted c (side_levels b c))
      → Sorted s ls
      → (c : Side) → Sorted c (side_levels (put_levels b s ls) c)
  Sorted-put b buy ls h k buy = rw (side_levels-put b buy buy ls) k
  Sorted-put b buy ls h k sell = rw (side_levels-put b buy sell ls) (h sell)
  Sorted-put b sell ls h k buy = rw (side_levels-put b sell buy ls) (h buy)
  Sorted-put b sell ls h k sell = rw (side_levels-put b sell sell ls) k

module _ {T : Type 0} ⦃idx : Index T⦄ (b : L3Book T) (w : WellFormed b) where
  -- No node is in two queues.
  pub queues-apart :
      (s : Side) (p : ℕ) (c : Side) (q x : ℕ)
      → here s p c q ≡ false
      → has x (w.queues c q) ≡ true
      → has x (w.queues s p) ≡ false
  queues-apart s p c q x other m = elim (Bool-cases (has x (w.queues s p))) [
    | inl both ↦
        let r : Resting (cells b) (length b.pool) (idx.find b.index) c q x = w.resting c q x m in
        let t : Resting (cells b) (length b.pool) (idx.find b.index) s p x = w.resting s p x both in
        let e : s ≡ c = sym t.on_side ∙ r.on_side in
        let k : p ≡ q = sym t.at_price ∙ r.at_price in
        let again : here s p c q ≡ true = rw (sym e, sym k) (here_refl s p) in absurd (cc)
    | inr out ↦ out
  ]

  -- The levels describe the queues again.
  pub Fits-put :
      (g : Cells) (levels : Side → List Level) (s : Side) (p i : ℕ) (o : Option Level)
      (queue : List ℕ)
      → ((c : Side) (q : ℕ)
          → lookup q (levels c) ≡ (if here s p c q then o else lookup q (side_levels b c)))
      → Fits g o queue
      → ((j : ℕ) → has j (i ∷ w.queues s p) ≡ false → g j ≡ cells b j)
      → ((c : Side) (q : ℕ) → here s p c q ≡ false → has i (w.queues c q) ≡ false)
      → (c : Side) (q : ℕ) → Fits g (lookup q (levels c)) (put_queue w.queues s p queue c q)
  Fits-put g levels s p i o queue looked new same elsewhere c q = elim (Bool-cases (here s p c q)) [
    | inl this ↦ rw (looked c q, this) new
    | inr other ↦
        rw (looked c q, other)
          (Fits-frame (cells b) g (lookup q (side_levels b c)) (w.queues c q)
            (λ j m. same j (outside j m other)) (w.fits c q))
  ]
    where
      outside :
          (j : ℕ)
          → has j (w.queues c q) ≡ true
          → here s p c q ≡ false
          → has j (i ∷ w.queues s p) ≡ false
      outside j m other =
          ground (
            arith,
            queues-apart s p c q j other m,
            has_ne i j (w.queues c q) (elsewhere c q other) m,
          )

pub put_queue_self :
    (queues : Queues) (s : Side) (p : ℕ) (c : Side) (q : ℕ)
    → put_queue queues s p (queues s p) c q ≡ queues c q
put_queue_self queues s p c q = elim (Bool-cases (here s p c q)) [
  | inl this ↦
      let (e, k) = here-eq s p c q this in
      rw this (ap (λ (d : Side). queues d p) e ∙ ap (queues c) k)
  | inr other ↦ rw other
]
