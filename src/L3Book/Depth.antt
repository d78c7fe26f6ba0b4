-- ===== src/L3Book/Depth.antt =====
-- The aggregated view of include/itch/book/l3_book.hpp: the best bid and offer of src/book/l3_book.cpp against the
-- orders at each price.
use itchcpp.Prelude.{
  ℕ, zero, suc, take, ◌+◌, ◌<◌, ◌%◌, ◌^◌, ◌≡◌, refl, sym, ◌∙◌, ap, subst, List, [], ◌∷◌, map,
  Option, none, some, Bool, true, false, length, length-map, All, arith,
}
use itchcpp.L3Book.{
  Side, buy, sell, OrderView, Level, Bbo, L3Book, before, side_levels, show_bid, show_ask,
  blank_bbo, bbo, orders_at,
}
use itchcpp.L3Book.Interface.{Index}
use itchcpp.L3Book.Segments.{Cells}
use itchcpp.L3Book.Ladder.{lookup, Sorted, lookup-price, lookup-Behind, before_ne, Behind-trans}
use itchcpp.L3Book.Updates.{lookup-later}
use itchcpp.L3Book.WellFormed.{cells, sum_shares, Fits, Holds, WellFormed}
use itchcpp.L3Book.Views.{view_of, views, orders_at-views}

unfoldable pub total : List OrderView → ℕ
total [] = 0
total (v ∷ vs) = v.shares + total vs

total-views : (f : Cells) (xs : List ℕ) → total (views f xs) ≡ sum_shares f xs
unfolding total sum_shares
total-views f [] = refl
total-views f (x ∷ xs) = omega (arith, total-views f xs)

pub All-levels {κ} :
    (P : Level → Type κ) (s : Side) (ls : List Level)
    → Sorted s ls
    → ((p : ℕ) (l : Level) → lookup p ls ≡ some l → P l)
    → All P ls
unfolding lookup
All-levels P s [] h every = tt
All-levels P s (l ∷ ls) h every = (
  every l.price l (ground arith),
  All-levels P s ls h.1 (λ p k e. every p k (lookup-later s p l k ls h.0 e)),
)

pub All-take {ℓ κ} :
    {A : Type ℓ} (P : A → Type κ) (n : ℕ) (xs : List A) → All P xs → All P (take n xs)
All-take P zero xs h = tt
All-take P (suc n) [] h = tt
All-take P (suc n) (x ∷ xs) h = (h.0, All-take P n xs h.1)

pub All-map {ℓ κ μ} :
    {A : Type ℓ} {B : Type κ} (P : B → Type μ) (f : A → B) (xs : List A)
    → All (λ x. P (f x)) xs
    → All P (map f xs)
All-map P f [] h = tt
All-map P f (x ∷ xs) h = (h.0, All-map P f xs h.1)

show_ask-keeps :
    (asks : List Level) (r : Bbo)
    → ((show_ask asks r).has_bid ≡ r.has_bid)
      × ((show_ask asks r).bid_price ≡ r.bid_price)
      × ((show_ask asks r).bid_shares ≡ r.bid_shares)
unfolding show_ask
show_ask-keeps [] r = (refl, refl, refl)
show_ask-keeps (l ∷ ls) r = (refl, refl, refl)

show_bid-no_ask : (bids : List Level) → (show_bid bids blank_bbo).has_ask ≡ false
unfolding show_bid
show_bid-no_ask [] = refl
show_bid-no_ask (l ∷ ls) = refl

-- A buyer's price is better when it is higher, a seller's when it is lower.
abbrev pub Better : Side → ℕ → ℕ → Type 0
Better buy p q = q < p
Better sell p q = p < q

before_of_Better : (s : Side) (p q : ℕ) → Better s p q → before s p q ≡ true
before_of_Better buy p q h = ground arith
before_of_Better sell p q h = ground arith

pub Better-of_before : (s : Side) (p q : ℕ) → before s p q ≡ true → Better s p q
Better-of_before buy p q h = ground arith
Better-of_before sell p q h = ground arith

module _ {T : Type 0} ⦃idx : Index T⦄ where
  -- There are orders at the price, with these shares together.
  pub record Shown (b : L3Book T) (s : Side) (price shares count : ℕ) : Type 0 where
    pub orders : List OrderView
    pub resting : orders_at b s price ≡ some orders
    pub some_order : 0 < length orders
    pub sum : shares ≡ total orders % 2 ^ 64
    pub number : count ≡ length orders

  pub level-Shown :
      (b : L3Book T) (w : WellFormed b) (s : Side) (p : ℕ) (l : Level)
      → lookup p (side_levels b s) ≡ some l
      → Shown b s l.price l.total_shares l.order_count
  level-Shown b w s p l e =
      let h : Holds (cells b) l (w.queues s p) =
        subst (λ (o : Option Level). Fits (cells b) o (w.queues s p)) e (w.fits s p) in
      let vs : List OrderView = views (cells b) (w.queues s p) in
      let size : length vs ≡ length (w.queues s p) =
        length-map (λ x. view_of (cells b x)) (w.queues s p) in
      rw (lookup-price p (side_levels b s) l e) (record {
        orders = vs;
        resting = orders_at-views b w s p;
        some_order = omega (arith, size, h.some_orders);
        sum = omega (arith, h.total, total-views (cells b) (w.queues s p));
        number = omega (arith, h.count, size);
      })

  -- The price of a quote is the best with orders, or there are none on its side.
  pub record Quote (b : L3Book T) (s : Side) (has_quote : Bool) (price shares : ℕ) : Type 0 where
    pub present :
        has_quote ≡ true
        → ((count : ℕ) × Shown b s price shares count)
          × ((q : ℕ) → Better s q price → orders_at b s q ≡ some [])
    pub absent : has_quote ≡ false → (q : ℕ) → orders_at b s q ≡ some []

  pub no_orders :
      (b : L3Book T) (w : WellFormed b) (s : Side) (q : ℕ)
      → lookup q (side_levels b s) ≡ none
      → orders_at b s q ≡ some []
  no_orders b w s q e =
      let empty : w.queues s q ≡ [] =
        subst (λ (o : Option Level). Fits (cells b) o (w.queues s q)) e (w.fits s q) in
      orders_at-views b w s q ∙ ap (λ (l : List ℕ). some (views (cells b) l)) empty

  front-Quote :
      (b : L3Book T) (w : WellFormed b) (s : Side) (l : Level) (ls : List Level)
      → side_levels b s ≡ l ∷ ls
      → Quote b s true l.price l.total_shares
  unfolding lookup
  front-Quote b w s l ls e =
      let sorted : Sorted s (l ∷ ls) = subst (Sorted s) e (w.sorted s) in
      record {
        present = λ h. (
          (l.order_count, level-Shown b w s l.price l (rw e (ground arith))),
          λ q better.
              let first : before s q l.price ≡ true = before_of_Better s q l.price better in
              no_orders b w s q (
                rw e (
                  ground (
                    arith,
                    before_ne s q l.price first,
                    lookup-Behind s q ls (Behind-trans s q l.price ls first sorted.0),
                  ))),
        );
        absent = λ h. cc;
      }

  back-Quote :
      (b : L3Book T) (w : WellFormed b) (s : Side) (price shares : ℕ)
      → side_levels b s ≡ []
      → Quote b s false price shares
  unfolding lookup
  back-Quote b w s price shares e = record {
    present = λ h. cc;
    absent = λ h q. no_orders b w s q (rw e);
  }

  bid-Quote :
      (b : L3Book T) (w : WellFormed b) (ls : List Level)
      → b.bids ≡ ls
      → Quote b buy (bbo b).has_bid (bbo b).bid_price (bbo b).bid_shares
  unfolding bbo side_levels show_bid
  bid-Quote b w ls e =
      let (has, price, shares) = show_ask-keeps b.asks (show_bid b.bids blank_bbo) in
      rw (has, price, shares)
        (subst
          (λ (l : List Level).
            Quote b buy (show_bid l blank_bbo).has_bid (show_bid l blank_bbo).bid_price
              (show_bid l blank_bbo).bid_shares)
          (sym e) (by_ladder ls e))
    where
      by_ladder :
          (l : List Level)
          → b.bids ≡ l
          → Quote b buy
              (show_bid l blank_bbo).has_bid
              (show_bid l blank_bbo).bid_price
              (show_bid l blank_bbo).bid_shares
      by_ladder [] e = back-Quote b w buy 0 0 e
      by_ladder (l ∷ ls) e = front-Quote b w buy l ls e

  ask-Quote :
      (b : L3Book T) (w : WellFormed b) (ls : List Level)
      → b.asks ≡ ls
      → Quote b sell (bbo b).has_ask (bbo b).ask_price (bbo b).ask_shares
  unfolding bbo side_levels show_ask
  ask-Quote b w ls e =
      subst
        (λ (l : List Level).
          Quote b sell (show_ask l (show_bid b.bids blank_bbo)).has_ask
            (show_ask l (show_bid b.bids blank_bbo)).ask_price
            (show_ask l (show_bid b.bids blank_bbo)).ask_shares)
        (sym e) (by_ladder ls e)
    where
      by_ladder :
          (l : List Level)
          → b.asks ≡ l
          → Quote b sell
              (show_ask l (show_bid b.bids blank_bbo)).has_ask
              (show_ask l (show_bid b.bids blank_bbo)).ask_price
              (show_ask l (show_bid b.bids blank_bbo)).ask_shares
      by_ladder [] e = rw (show_bid-no_ask b.bids) (back-Quote b w sell _ _ e)
      by_ladder (l ∷ ls) e = front-Quote b w sell l ls e

  -- Over any order index with the laws of a map, which `OrderIndex` satisfies:
  -- the bid of a book that satisfies the invariant is the highest price with buy orders, the ask the
  -- lowest with sell orders, each with the shares of all orders there, modulo 2^64; a side without a
  -- quote has no orders.
  pub bbo-Quote :
      (b : L3Book T)
      → WellFormed b
      → Quote b buy (bbo b).has_bid (bbo b).bid_price (bbo b).bid_shares
        × Quote b sell (bbo b).has_ask (bbo b).ask_price (bbo b).ask_shares
  bbo-Quote b w = (bid-Quote b w b.bids refl, ask-Quote b w b.asks refl)
