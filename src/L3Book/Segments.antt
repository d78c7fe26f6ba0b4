-- ===== src/L3Book/Segments.antt =====
-- The intrusive queues of src/book/l3_book.cpp: segments of nodes that are linked both ways.
use itchcpp.Prelude.{
  ℕ, ◌≡◌, refl, ◌∙◌, List, [], ◌∷◌, ◌++◌, Bool, true, false, ◌||◌, ◌==◌, if◌then◌else◌, arith,
}
use itchcpp.L3Book.{OrderNode}

abbrev pub has : ℕ → List ℕ → Bool
has i [] = false
has i (x ∷ xs) = (i == x) || has i xs

abbrev pub Disjoint : List ℕ → List ℕ → Type 0
Disjoint xs ys = (i : ℕ) → has i xs ≡ true → has i ys ≡ false

abbrev pub Cells : Type 0
Cells = ℕ → OrderNode

-- From `head` the links lead through the distinct nodes `xs` to `tail`; the first node has `first` as
-- its previous one, and the last one `last` as its next.
abbrev pub Seg : Cells → ℕ → List ℕ → ℕ → ℕ → ℕ → Type 0
Seg f first [] head tail last = (head ≡ last) × (tail ≡ first)
Seg f first (x ∷ xs) head tail last =
    (head ≡ x) × (has x xs ≡ false) × ((f x).prev ≡ first) × Seg f x xs (f x).next tail last

pub has-append : (i : ℕ) (xs ys : List ℕ) → has i (xs ++ ys) ≡ (has i xs || has i ys)
has-append i [] ys = refl
has-append i (x ∷ xs) ys = ground (arith, has-append i xs ys)

pub has_ne : (i j : ℕ) (xs : List ℕ) → has i xs ≡ false → has j xs ≡ true → (i == j) ≡ false
has_ne i j [] out m = cc
has_ne i j (x ∷ xs) out m = ground (arith, has_ne i j xs)

pub Seg-frame :
    (f g : Cells) (first : ℕ) (xs : List ℕ) (head tail last : ℕ)
    → ((i : ℕ) → has i xs ≡ true → g i ≡ f i)
    → Seg f first xs head tail last
    → Seg g first xs head tail last
Seg-frame f g first [] head tail last same s = s
Seg-frame f g first (x ∷ xs) head tail last same (h, out, p, s) =
    let e : g x ≡ f x = same x (ground arith) in
    (
      h,
      out,
      rw e p,
      rw e (Seg-frame f g x xs (f x).next tail last (λ i m. same i (ground arith)) s),
    )

pub Seg-append :
    (f : Cells) (first : ℕ) (xs ys : List ℕ) (head tail mid tail' last : ℕ)
    → Seg f first xs head tail mid
    → Seg f tail ys mid tail' last
    → Disjoint xs ys
    → Seg f first (xs ++ ys) head tail' last
Seg-append f first [] ys head tail mid tail' last (h, t) r apart = rw (h, ← t) r
Seg-append f first (x ∷ xs) ys head tail mid tail' last (h, out, p, s) r apart = (
  h,
  rw (has-append x xs ys, out) (apart x (ground arith)),
  p,
  Seg-append f x xs ys (f x).next tail mid tail' last s r (λ i m. apart i (ground arith)),
)

-- A segment in two: the place where they meet, and what lies on either side of it.
pub record Split (f : Cells) (first : ℕ) (xs ys : List ℕ) (head tail last : ℕ) : Type 0 where
  pub mid_tail : ℕ
  pub mid_head : ℕ
  pub front : Seg f first xs head mid_tail mid_head
  pub back : Seg f mid_tail ys mid_head tail last
  pub apart : Disjoint xs ys

pub Seg-Split :
    (f : Cells) (first : ℕ) (xs ys : List ℕ) (head tail last : ℕ)
    → Seg f first (xs ++ ys) head tail last
    → Split f first xs ys head tail last
Seg-Split f first [] ys head tail last s = record {
  mid_tail = first;
  mid_head = head;
  front = (refl, refl);
  back = s;
  apart = λ i m. cc;
}
Seg-Split f first (x ∷ xs) ys head tail last (h, out, p, s) =
    let r = Seg-Split f x xs ys (f x).next tail last s in
    record {
      mid_tail = r.mid_tail;
      mid_head = r.mid_head;
      front = (h, ground (arith, has-append x xs ys), p, r.front);
      back = r.back;
      apart = λ i m. ground (arith, has-append x xs ys, r.apart i);
    }

pub tail-has :
    (f : Cells) (first x : ℕ) (xs : List ℕ) (head tail last : ℕ)
    → Seg f first (x ∷ xs) head tail last
    → has tail (x ∷ xs) ≡ true
tail-has f first x [] head tail last (h, out, p, (n, t)) = ground arith
tail-has f first x (y ∷ ys) head tail last (h, out, p, s) =
    ground (arith, tail-has f x y ys (f x).next tail last s)

-- The last node is given another next one.
pub Seg-set_last :
    (f g : Cells) (first x : ℕ) (xs : List ℕ) (head tail last last' : ℕ)
    → ((i : ℕ) → g i ≡ (if tail == i then record (f i) { next = last' } else f i))
    → Seg f first (x ∷ xs) head tail last
    → Seg g first (x ∷ xs) head tail last'
Seg-set_last f g first x [] head tail last last' same (h, out, p, (n, t)) = ground (arith, same x)
Seg-set_last f g first x (y ∷ ys) head tail last last' same (h, out, p, s) =
    let ne : (tail == x) ≡ false = ground (arith, tail-has f x y ys (f x).next tail last s) in
    let e : g x ≡ f x = rw (same x, ne) in
    (h, out, rw e p, rw e (Seg-set_last f g x y ys (f x).next tail last last' same s))

-- The first node is given another previous one.
pub Seg-set_first :
    (f g : Cells) (first first' x : ℕ) (xs : List ℕ) (head tail last : ℕ)
    → ((i : ℕ) → g i ≡ (if head == i then record (f i) { prev = first' } else f i))
    → Seg f first (x ∷ xs) head tail last
    → Seg g first' (x ∷ xs) head tail last
Seg-set_first f g first first' x xs head tail last same (h, out, p, s) =
    let e : g x ≡ record (f x) { prev = first' } = ground (arith, same x) in
    (h, out, rw e, rw e (Seg-frame f g x xs (f x).next tail last (λ i m. ground (arith, same i)) s))

-- A node is linked behind the last one.
pub Seg-snoc :
    (f g : Cells) (node : OrderNode) (first x : ℕ) (xs : List ℕ) (head tail i last : ℕ)
    → has i (x ∷ xs) ≡ false
    → node.prev ≡ tail
    → node.next ≡ last
    → ((j : ℕ)
        → g j ≡ (if i == j then node else if tail == j then record (f j) { next = i } else f j))
    → Seg f first (x ∷ xs) head tail last
    → Seg g first (x ∷ xs ++ i ∷ []) head i last
Seg-snoc f g node first x xs head tail i last out p n same s =
    let h : Cells = λ j. if tail == j then record (f j) { next = i } else f j in
    let front : Seg h first (x ∷ xs) head tail i =
      Seg-set_last f h first x xs head tail last i (λ j. refl) s in
    Seg-append g first (x ∷ xs) (i ∷ []) head tail i i last
      (Seg-frame h g first (x ∷ xs) head tail i (λ j m. rw (same j, has_ne i j (x ∷ xs) out m))
        front)
      (refl, refl, ground (arith, same i), (ground (arith, same i), refl))
      (λ j m. ground (arith, has_ne i j (x ∷ xs) out m))

pub Seg-links :
    (f g : Cells) (first : ℕ) (xs : List ℕ) (head tail last : ℕ)
    → ((i : ℕ) → ((g i).next ≡ (f i).next) × ((g i).prev ≡ (f i).prev))
    → Seg f first xs head tail last
    → Seg g first xs head tail last
Seg-links f g first [] head tail last same s = s
Seg-links f g first (x ∷ xs) head tail last same (h, out, p, s) =
    (h, out, (same x).1 ∙ p, rw ((same x).0) (Seg-links f g x xs (f x).next tail last same s))
