-- ===== src/L3Book/Arrivals.antt =====
-- What the book of include/itch/book/l3_book.hpp promises: the resting orders in the order of their arrival.
-- Adding appends, an execution takes shares from the first order of its reference number, and the
-- orders at a price are those of the list with this side and price.
use itchcpp.Prelude.{
  ℕ, ◌-◌, ◌≡◌, refl, sym, ap, List, [], ◌∷◌, ◌++◌, Option, none, some, true, false, inl, inr,
  Bool-cases, ltb, ◌==◌, if◌then◌else◌, min, arith,
}
use itchcpp.L3Book.{Side, OrderView}
use itchcpp.L3Book.WellFormed.{here}
use itchcpp.L3Book.Levels.{here_refl}

pub record Entry : Type 0 where
  pub side : Side
  pub view : OrderView

abbrev pub Arrivals : Type 0
Arrivals = List Entry

unfoldable pub locate : ℕ → Arrivals → Option Entry
locate ref [] = none
locate ref (e ∷ es) = if e.view.reference_number == ref then some e else locate ref es

-- The orders of one side and price
unfoldable pub at : Side → ℕ → Arrivals → List OrderView
at c q [] = []
at c q (e ∷ es) =
    let rest = at c q es in if here e.side e.view.price c q then e.view ∷ rest else rest

unfoldable pub remove : ℕ → Arrivals → Arrivals
remove ref [] = []
remove ref (e ∷ es) =
    let rest = remove ref es in if e.view.reference_number == ref then es else e ∷ rest

abbrev pub less : OrderView → ℕ → OrderView
less v n = record v { shares = v.shares - n }

unfoldable pub lower : ℕ → ℕ → Arrivals → Arrivals
lower ref n [] = []
lower ref n (e ∷ es) =
    let rest = lower ref n es in
    if e.view.reference_number == ref then record e { view = less e.view n } ∷ es else e ∷ rest

unfoldable pub append : ℕ → Side → ℕ → ℕ → Arrivals → Arrivals
append ref s n p es = elim (locate ref es) [
  | some e ↦ es
  | none ↦
      es
      ++ record { side = s; view = record { reference_number = ref; shares = n; price = p } } ∷ []
]

unfoldable pub execute : ℕ → ℕ → Arrivals → Arrivals
execute ref n es = elim (locate ref es) [
  | none ↦ es
  | some e ↦ if ltb n e.view.shares then lower ref n es else remove ref es
]

unfoldable pub executed : ℕ → ℕ → Arrivals → ℕ
executed ref n es = elim (locate ref es) [ none ↦ 0 | some e ↦ min n e.view.shares ]

unfoldable pub replace : ℕ → ℕ → ℕ → ℕ → Arrivals → Arrivals
replace old_ref ref n p es = elim (locate old_ref es) [
  | none ↦ es
  | some e ↦ append ref e.side n p (remove old_ref es)
]

-- The same on the orders of one price
unfoldable pub first : ℕ → List OrderView → Option OrderView
first ref [] = none
first ref (v ∷ vs) = if v.reference_number == ref then some v else first ref vs

unfoldable pub remove_view : ℕ → List OrderView → List OrderView
remove_view ref [] = []
remove_view ref (v ∷ vs) =
    let rest = remove_view ref vs in if v.reference_number == ref then vs else v ∷ rest

unfoldable pub lower_view : ℕ → ℕ → List OrderView → List OrderView
lower_view ref n [] = []
lower_view ref n (v ∷ vs) =
    let rest = lower_view ref n vs in if v.reference_number == ref then less v n ∷ vs else v ∷ rest

pub at-append :
    (c : Side) (q : ℕ) (es : Arrivals) (e : Entry)
    → at c q (es ++ e ∷ [])
      ≡ (if here e.side e.view.price c q then at c q es ++ e.view ∷ [] else at c q es)
unfolding at
at-append c q [] e = refl
at-append c q (d ∷ es) e = elim (Bool-cases (here d.side d.view.price c q)) [
  | inl this ↦
      rw (at-append c q es e, this)
        (elim (Bool-cases (here e.side e.view.price c q)) [
          | inl that ↦ rw that
          | inr other ↦ rw other
        ])
  | inr other ↦ rw (other) (at-append c q es e)
]

pub first-at :
    (ref : ℕ) (es : Arrivals) (e : Entry)
    → locate ref es ≡ some e
    → first ref (at e.side e.view.price es) ≡ some e.view
unfolding locate first at
first-at ref [] e h = cc
first-at ref (d ∷ es) e h = elim (Bool-cases (d.view.reference_number == ref)) [
  | inl found ↦
      let same : d ≡ e = ground arith in rw (sym same, here_refl d.side d.view.price, found)
  | inr other ↦ elim (Bool-cases (here d.side d.view.price e.side e.view.price)) [
    | inl this ↦ rw (this, other) (first-at ref es e (rw other at h))
    | inr that ↦ rw that (first-at ref es e (rw other at h))
  ]
]

pub locate-first :
    (ref : ℕ) (c : Side) (q : ℕ) (es : Arrivals)
    → locate ref es ≡ none
    → first ref (at c q es) ≡ none
unfolding locate first at
locate-first ref c q [] h = refl
locate-first ref c q (d ∷ es) h = elim (Bool-cases (d.view.reference_number == ref)) [
  | inl found ↦ absurd (cc (rw found at h))
  | inr other ↦ elim (Bool-cases (here d.side d.view.price c q)) [
    | inl this ↦ rw (this, other) (locate-first ref c q es (rw other at h))
    | inr that ↦ rw that (locate-first ref c q es (rw other at h))
  ]
]

module _ (ref : ℕ) (c : Side) (q : ℕ) where
  pub at-remove :
      (es : Arrivals) (e : Entry)
      → locate ref es ≡ some e
      → at c q (remove ref es)
        ≡ (if here e.side e.view.price c q then remove_view ref (at c q es) else at c q es)
  unfolding locate at remove remove_view
  at-remove [] e h = cc
  at-remove (d ∷ es) e h = elim (Bool-cases (d.view.reference_number == ref)) [
    | inl found ↦
        let same : d ≡ e = ground arith in
        rw (sym same, found)
          (elim (Bool-cases (here d.side d.view.price c q)) [
            | inl this ↦ rw (this, found)
            | inr that ↦ rw that
          ])
    | inr other ↦
        let ih : at c q (remove ref es)
            ≡ (if here e.side e.view.price c q then remove_view ref (at c q es) else at c q es) =
          at-remove es e (rw other at h) in
        rw other (elim (Bool-cases (here d.side d.view.price c q)) [
          | inl this ↦
              rw (this, other, ih)
                (elim (Bool-cases (here e.side e.view.price c q)) [
                  | inl that ↦ rw that
                  | inr that ↦ rw that
                ])
          | inr that ↦ rw that ih
        ])
  ]

  pub at-lower :
      (n : ℕ) (es : Arrivals) (e : Entry)
      → locate ref es ≡ some e
      → at c q (lower ref n es)
        ≡ (if here e.side e.view.price c q then lower_view ref n (at c q es) else at c q es)
  unfolding locate at lower lower_view
  at-lower n [] e h = cc
  at-lower n (d ∷ es) e h = elim (Bool-cases (d.view.reference_number == ref)) [
    | inl found ↦
        let same : d ≡ e = ground arith in
        rw (sym same, found)
          (elim (Bool-cases (here d.side d.view.price c q)) [
            | inl this ↦ rw (this, found)
            | inr that ↦ rw that
          ])
    | inr other ↦
        let ih : at c q (lower ref n es)
            ≡ (if here e.side e.view.price c q then lower_view ref n (at c q es) else at c q es) =
          at-lower n es e (rw other at h) in
        rw other (elim (Bool-cases (here d.side d.view.price c q)) [
          | inl this ↦
              rw (this, other, ih)
                (elim (Bool-cases (here e.side e.view.price c q)) [
                  | inl that ↦ rw that
                  | inr that ↦ rw that
                ])
          | inr that ↦ rw that ih
        ])
  ]

module _ (ref : ℕ) (es : Arrivals) where
  pub append-new :
      (s : Side) (n p : ℕ)
      → locate ref es ≡ none
      → append ref s n p es
        ≡ es
          ++ record { side = s; view = record { reference_number = ref; shares = n; price = p } }
            ∷ []
  unfolding append
  append-new s n p h = rw (h, append)

  pub append-old :
      (s : Side) (n p : ℕ) (e : Entry) → locate ref es ≡ some e → append ref s n p es ≡ es
  unfolding append
  append-old s n p e h = rw (h, append)

  pub execute-lower :
      (n : ℕ) (e : Entry)
      → locate ref es ≡ some e
      → ltb n e.view.shares ≡ true
      → execute ref n es ≡ lower ref n es
  unfolding execute
  execute-lower n e h k = rw (h, execute, k)

  pub execute-remove :
      (n : ℕ) (e : Entry)
      → locate ref es ≡ some e
      → ltb n e.view.shares ≡ false
      → execute ref n es ≡ remove ref es
  unfolding execute
  execute-remove n e h k = rw (h, execute, k)

  pub execute-none : (n : ℕ) → locate ref es ≡ none → execute ref n es ≡ es
  unfolding execute
  execute-none n h = rw (h, execute)

  pub executed-some :
      (n : ℕ) (e : Entry) → locate ref es ≡ some e → executed ref n es ≡ min n e.view.shares
  unfolding executed
  executed-some n e h = rw (h, executed)

  pub executed-none : (n : ℕ) → locate ref es ≡ none → executed ref n es ≡ 0
  unfolding executed
  executed-none n h = rw (h, executed)

  pub replace-some :
      (new_ref n p : ℕ) (e : Entry)
      → locate ref es ≡ some e
      → replace ref new_ref n p es ≡ append new_ref e.side n p (remove ref es)
  unfolding replace
  replace-some new_ref n p e h = rw (h, replace)

  pub replace-none : (new_ref n p : ℕ) → locate ref es ≡ none → replace ref new_ref n p es ≡ es
  unfolding replace
  replace-none new_ref n p h = rw (h, replace)

pub remove-none : (ref : ℕ) (es : Arrivals) → locate ref es ≡ none → remove ref es ≡ es
unfolding locate remove
remove-none ref [] h = refl
remove-none ref (e ∷ es) h = elim (Bool-cases (e.view.reference_number == ref)) [
  | inl found ↦ absurd (cc (rw found at h))
  | inr other ↦ rw other (ap (λ (l : Arrivals). e ∷ l) (remove-none ref es (rw other at h)))
]
