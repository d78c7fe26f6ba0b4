-- ===== src/L3Book/Views.antt =====
-- The orders at a price, read through the links of src/book/l3_book.cpp: the queue of the invariant, oldest
-- first.
use itchcpp.Prelude.{
  ℕ, ◌≤◌, ◌≡◌, ◌≢◌, refl, ap, List, [], ◌∷◌, ◌++◌, map, Option, none, some, true, false, inl, inr,
  Bool-cases, ◌==◌, length, arith,
}
use itchcpp.L3Book.{
  Side, OrderNode, OrderView, Level, L3Book, nil, node_at, side_levels, find_level, level_of,
  follow_queue, orders_at,
}
use itchcpp.L3Book.Interface.{Index}
use itchcpp.L3Book.Segments.{has, has_ne, Cells, Seg}
use itchcpp.L3Book.Ladder.{lookup}
use itchcpp.L3Book.Places.{Searched, Searched-lookup, find_in-Searched, find_in-absent}
use itchcpp.L3Book.WellFormed.{cells, Fits, WellFormed}
use itchcpp.L3Book.AddKeeps.{levels-bound}
use itchcpp.L3Book.Arrivals.{first, remove_view, lower_view, less}

abbrev pub view_of : OrderNode → OrderView
view_of node = record {
  reference_number = node.reference_number;
  shares = node.shares;
  price = node.price;
}

abbrev pub views : Cells → List ℕ → List OrderView
views f xs = map (λ x. view_of (f x)) xs

pub follow_queue-views :
    (pool : List OrderNode) (front : ℕ) (xs : List ℕ) (head tail : ℕ)
    → ((x : ℕ) → has x xs ≡ true → (x == nil) ≡ false)
    → Seg (node_at pool) front xs head tail nil
    → follow_queue pool (length xs) head ≡ some (views (node_at pool) xs)
unfolding follow_queue
follow_queue-views pool front [] head tail valid (h, t) = rw h
follow_queue-views pool front (x ∷ xs) head tail valid (h, out, p, s) =
    let more : (head == nil) ≡ false = rw h (valid x (ground arith)) in
    let rest : follow_queue pool (length xs) (node_at pool head).next
        ≡ some (views (node_at pool) xs) =
      rw h (
        follow_queue-views pool x xs (node_at pool x).next tail (λ y m. valid y (ground arith))
          s) in
    rw (more, rest, h)

pub views-frame :
    (f g : Cells) (xs : List ℕ)
    → ((x : ℕ) → has x xs ≡ true → view_of (g x) ≡ view_of (f x))
    → views g xs ≡ views f xs
views-frame f g [] same = refl
views-frame f g (x ∷ xs) same =
    let rest : views g xs ≡ views f xs = views-frame f g xs (λ y m. same y (ground arith)) in
    let e : view_of (g x) ≡ view_of (f x) = same x (ground arith) in rw (rest, e)

-- The first order of a reference number is that of a node.
pub record At (f : Cells) (ref : ℕ) (v : OrderView) (xs : List ℕ) : Type 0 where
  pub node : ℕ
  pub is_in : has node xs ≡ true
  pub named : (f node).reference_number ≡ ref
  pub shown : v ≡ view_of (f node)

pub first-views :
    (f : Cells) (ref : ℕ) (v : OrderView) (xs : List ℕ)
    → first ref (views f xs) ≡ some v
    → At f ref v xs
unfolding first
first-views f ref v [] h = absurd (cc)
first-views f ref v (x ∷ xs) h = elim (Bool-cases ((f x).reference_number == ref)) [
  | inl found ↦
      let same : some (view_of (f x)) ≡ some v = rw found at h in
      record { node = x; is_in = ground arith; named = ground arith; shown = cc }
  | inr other ↦
      let r : At f ref v xs = first-views f ref v xs (rw other at h) in
      record { node = r.node; is_in = ground (arith, r.is_in); named = r.named; shown = r.shown }
]

pub first-has :
    (f : Cells) (x : ℕ) (xs : List ℕ)
    → has x xs ≡ true
    → first (f x).reference_number (views f xs) ≢ none
unfolding first
first-has f x [] m h = cc
first-has f x (y ∷ ys) m h = elim (Bool-cases (x == y)) [
  | inl same ↦
      let e : x ≡ y = ground arith in ground (arith, ap (λ (z : ℕ). (f z).reference_number) e)
  | inr other ↦ ground (arith, first-has f x ys)
]

-- A queue around a node whose reference number no node before it has
module _ (f g : Cells) (i ref : ℕ) (named : (f i).reference_number ≡ ref) where
  pub remove_view-queue :
      (front back : List ℕ)
      → ((x : ℕ) → has x front ≡ true → ((f x).reference_number == ref) ≡ false)
      → remove_view ref (views f (front ++ i ∷ back)) ≡ views f (front ++ back)
  unfolding remove_view
  remove_view-queue [] back other = ground arith
  remove_view-queue (x ∷ front) back other =
      rw (other x (ground arith), remove_view-queue front back (λ y m. other y (ground arith)))

  pub lower_view-queue :
      (n : ℕ) (front back : List ℕ)
      → ((x : ℕ) → has x front ≡ true → ((f x).reference_number == ref) ≡ false)
      → ((x : ℕ) → (i == x) ≡ false → view_of (g x) ≡ view_of (f x))
      → has i (front ++ back) ≡ false
      → view_of (g i) ≡ less (view_of (f i)) n
      → lower_view ref n (views f (front ++ i ∷ back)) ≡ views g (front ++ i ∷ back)
  unfolding lower_view
  lower_view-queue n [] back other same out lowered =
      let hit : ((f i).reference_number == ref) ≡ true = ground arith in
      let rest : views g back ≡ views f back =
        views-frame f g back (λ x m. same x (has_ne i x back out m)) in
      rw (hit, lowered, rest)
  lower_view-queue n (x ∷ front) back other same out lowered =
      let skip : view_of (g x) ≡ view_of (f x) = same x (ground arith) in
      rw (
        other x (ground arith),
        skip,
        lower_view-queue n front back (λ y m. other y (ground arith)) same (ground arith) lowered,
      )

module _ {T : Type 0} ⦃idx : Index T⦄ (b : L3Book T) (w : WellFormed b) where
  pub queue-valid : (s : Side) (p x : ℕ) → has x (w.queues s p) ≡ true → (x == nil) ≡ false
  queue-valid s p x m = ground (arith, (w.resting s p x m).bound, w.room)

  -- The loop of `orders_at` ends, with the orders of the queue.
  pub orders_at-views : (s : Side) (p : ℕ) → orders_at b s p ≡ some (views (cells b) (w.queues s p))
  unfolding orders_at find_level level_of
  orders_at-views s p = pick (lookup p (side_levels b s)) refl (w.fits s p)
    where
      few : length (side_levels b s) ≤ nil
      few = omega (arith, levels-bound b w s, w.room)

      pick :
          (o : Option Level)
          → lookup p (side_levels b s) ≡ o
          → Fits (cells b) o (w.queues s p)
          → orders_at b s p ≡ some (views (cells b) (w.queues s p))
      pick none e h = rw (find_in-absent s p (side_levels b s) (w.sorted s) e, h)
      pick (some level) e h =
          let found : Searched s p (side_levels b s) (w.sorted s) level =
            Searched-lookup s p (side_levels b s) (w.sorted s) level e in
          let (place, valid) =
            find_in-Searched s p (side_levels b s) (w.sorted s) level few found in
          rw (place, valid, found.is_there, h.count)
            (follow_queue-views b.pool nil (w.queues s p) level.head level.tail (queue-valid s p)
              h.links)
