-- ===== src/Bars/Build.antt =====
-- What `BarBuilder` of include/itch/analytics/bars.hpp builds: one bar for each run of trades that
-- the clock puts into one bucket.
use itchcpp.Prelude.{
  ℕ, ◌+◌, ◌%◌, ◌^◌, ◌≡◌, refl, sym, ap, ◌∙◌, List, [], ◌∷◌, ◌++◌, map, length, true, false,
  Bool-cases, inl, inr, ◌==◌, max, min, if◌then◌else◌, arith,
}
use itchcpp.Bars.{
  Trade, Bar, Clock, BarBuilder, emit, roll, fresh_bar, start_bar, update, count_trade, add_trade,
  flush, build,
}
use itchcpp.Bars.Runs.{Run, stamp, join, runs, highest, lowest, last, traded, bar_of}

update_all : Bar → List Trade → Bar
update_all bar [] = bar
update_all bar (t ∷ ts) = update_all (update bar t) ts

-- A bar with a trade, and more trades behind it.
update_all-figures :
    (bar : Bar) (t : Trade) (ts : List Trade)
    → update_all (update bar t) ts ≡ record bar {
      end_timestamp = (last t ts).timestamp;
      high = highest (max bar.high t.price) ts;
      low = lowest (min bar.low t.price) ts;
      close = (last t ts).price;
      volume = (bar.volume + traded (t ∷ ts)) % 2 ^ 64;
      trade_count = (bar.trade_count + length (t ∷ ts)) % 2 ^ 64;
    }
unfolding update_all update highest lowest last traded
update_all-figures bar t [] = ground arith
update_all-figures bar t (u ∷ us) = update_all-figures (update bar t) u us ∙ rw (volume, count)
  where
    volume :
        ((bar.volume + t.shares) % 2 ^ 64 + traded (u ∷ us)) % 2 ^ 64
        ≡ (bar.volume + (t.shares + traded (u ∷ us))) % 2 ^ 64
    volume = omega arith

    count :
        ((bar.trade_count + 1) % 2 ^ 64 + length (u ∷ us)) % 2 ^ 64
        ≡ (bar.trade_count + length (t ∷ u ∷ us)) % 2 ^ 64
    count = omega arith

update_all-bar_of :
    (k : ℕ) (t : Trade) (ts : List Trade)
    → update_all (update (fresh_bar k t) t) ts
      ≡ bar_of (record { bucket = k; first = t; others = ts })
unfolding fresh_bar bar_of
update_all-bar_of k t ts =
    update_all-figures (fresh_bar k t) t ts ∙ rw (top, bottom, none_yet, none_counted)
  where
    top : max t.price t.price ≡ t.price
    top = omega arith

    bottom : min t.price t.price ≡ t.price
    bottom = omega arith

    none_yet : (0 + traded (t ∷ ts)) ≡ traded (t ∷ ts)
    none_yet = omega arith

    none_counted : (0 + length (t ∷ ts)) ≡ length (t ∷ ts)
    none_counted = omega arith

-- An open bar takes in the run that begins with its bucket; the other runs are bars of their own.
attach : Bar → List Run → List Bar
attach bar [] = bar ∷ []
attach bar (r ∷ rs) =
    if bar.bucket == r.bucket
    then update_all bar (r.first ∷ r.others) ∷ map bar_of rs
    else bar ∷ map bar_of (r ∷ rs)

attach-join :
    (bar : Bar) (k : ℕ) (t : Trade) (rs : List Run)
    → (bar.bucket == k) ≡ true
    → attach (update bar t) rs ≡ attach bar (join k t rs)
unfolding attach join update update_all
attach-join bar k t [] same = rw same
attach-join bar k t (r ∷ rs) same = elim (Bool-cases (k == r.bucket)) [
  | inl one ↦ rw (one, attach, same, ap (λ (n : ℕ). n == r.bucket) equal, one)
  | inr two ↦ rw (two, attach, same, ap (λ (n : ℕ). n == r.bucket) equal, two)
]
  where
    equal : bar.bucket ≡ k
    equal = ground arith

join-same :
    (k : ℕ) (t : Trade) (r : Run) (rs : List Run)
    → (k == r.bucket) ≡ true
    → join k t (r ∷ rs) ≡ record { bucket = k; first = t; others = r.first ∷ r.others } ∷ rs
unfolding join
join-same k t r rs one = rw one

join-apart :
    (k : ℕ) (t : Trade) (r : Run) (rs : List Run)
    → (k == r.bucket) ≡ false
    → join k t (r ∷ rs) ≡ record { bucket = k; first = t; others = [] } ∷ r ∷ rs
unfolding join
join-apart k t r rs two = rw two

attach-same :
    (bar : Bar) (r : Run) (rs : List Run)
    → (bar.bucket == r.bucket) ≡ true
    → attach bar (r ∷ rs) ≡ update_all bar (r.first ∷ r.others) ∷ map bar_of rs
unfolding attach
attach-same bar r rs same = rw same

attach-apart :
    (bar : Bar) (r : Run) (rs : List Run)
    → (bar.bucket == r.bucket) ≡ false
    → attach bar (r ∷ rs) ≡ bar ∷ map bar_of (r ∷ rs)
unfolding attach
attach-apart bar r rs other = rw other

attach-fresh :
    (k : ℕ) (t : Trade) (rs : List Run)
    → attach (update (fresh_bar k t) t) rs ≡ map bar_of (join k t rs)
unfolding update_all
attach-fresh k t [] = unfold attach join in ap (λ (bar : Bar). bar ∷ []) (update_all-bar_of k t [])
attach-fresh k t (r ∷ rs) = elim (Bool-cases (k == r.bucket)) [
  | inl one ↦
      attach-same (update (fresh_bar k t) t) r rs (unfold update fresh_bar in one)
      ∙ ap (λ (bar : Bar). bar ∷ map bar_of rs) (update_all-bar_of k t (r.first ∷ r.others))
      ∙ ap (map bar_of) (sym (join-same k t r rs one))
  | inr two ↦
      attach-apart (update (fresh_bar k t) t) r rs (unfold update fresh_bar in two)
      ∙ ap (λ (bar : Bar). bar ∷ map bar_of (r ∷ rs)) (update_all-bar_of k t [])
      ∙ ap (map bar_of) (sym (join-apart k t r rs two))
]

attach-other :
    (bar : Bar) (k : ℕ) (t : Trade) (rs : List Run)
    → (bar.bucket == k) ≡ false
    → attach bar (join k t rs) ≡ bar ∷ map bar_of (join k t rs)
unfolding attach join
attach-other bar k t [] other = rw other
attach-other bar k t (r ∷ rs) other = elim (Bool-cases (k == r.bucket)) [
  | inl one ↦ rw (one, attach, other)
  | inr two ↦ rw (two, attach, other)
]

-- The builder with a new bar.
abbrev opened : BarBuilder → ℕ → Trade → BarBuilder
opened b k t = count_trade (record b { bar = fresh_bar k t; has_bar = true }) t

module _ (clock : Clock) (b : BarBuilder) (t : Trade) where
  abbrev bucket_of : ℕ
  bucket_of = clock t b.cumulative_volume b.tick_index

  add_trade-same :
      b.has_bar ≡ true
      → (b.bar.bucket == bucket_of) ≡ true
      → add_trade clock b t ≡ (count_trade b t, [])
  unfolding add_trade roll start_bar
  add_trade-same open_bar same = simp (open_bar, same)

  add_trade-other :
      b.has_callback ≡ true
      → b.has_bar ≡ true
      → (b.bar.bucket == bucket_of) ≡ false
      → add_trade clock b t ≡ (opened b bucket_of t, b.bar ∷ [])
  unfolding add_trade roll start_bar emit
  add_trade-other callback open_bar other = simp (open_bar, other, callback)

  add_trade-closed : b.has_bar ≡ false → add_trade clock b t ≡ (opened b bucket_of t, [])
  unfolding add_trade roll start_bar
  add_trade-closed closed = simp closed

flush-open : (b : BarBuilder) → b.has_callback ≡ true → b.has_bar ≡ true → (flush b).1 ≡ b.bar ∷ []
unfolding flush emit
flush-open b callback open_bar = rw (open_bar, callback)

flush-closed : (b : BarBuilder) → b.has_bar ≡ false → (flush b).1 ≡ []
unfolding flush
flush-closed b closed = rw closed

build-next :
    (clock : Clock) (b next : BarBuilder) (t : Trade) (ts : List Trade) (bars : List Bar)
    → add_trade clock b t ≡ (next, bars)
    → build clock b (t ∷ ts) ≡ bars ++ build clock next ts
unfolding build
build-next clock b next t ts bars e =
    ap (λ (r : BarBuilder × List Bar). r.1 ++ build clock r.0 ts) e

-- A builder whose bar is open.
build-attach :
    (clock : Clock) (b : BarBuilder) (trades : List Trade)
    → b.has_callback ≡ true
    → b.has_bar ≡ true
    → build clock b trades
      ≡ attach b.bar (runs (stamp clock b.cumulative_volume b.tick_index trades))
unfolding stamp runs count_trade build
build-attach clock b [] callback open_bar = unfold attach in flush-open b callback open_bar
build-attach clock b (t ∷ ts) callback open_bar =
    elim (Bool-cases (b.bar.bucket == bucket_of clock b t)) [
      | inl same ↦
          build-next clock b (count_trade b t) t ts [] (add_trade-same clock b t open_bar same)
          ∙ build-attach clock (count_trade b t) ts callback open_bar
          ∙ attach-join b.bar (bucket_of clock b t) t _ same
      | inr other ↦
          build-next clock b (opened b (bucket_of clock b t) t) t ts (b.bar ∷ [])
            (add_trade-other clock b t callback open_bar other)
          ∙ ap (◌∷◌ b.bar) (
              build-attach clock (opened b (bucket_of clock b t) t) ts callback refl
              ∙ attach-fresh (bucket_of clock b t) t _)
          ∙ sym (attach-other b.bar (bucket_of clock b t) t _ other)
    ]

-- Adding trades to a builder with a callback and no open bar, and a flush at the end: one bar is
-- emitted for each longest run of consecutive trades that the clock puts into one bucket, in order,
-- with the first and the last trade, the extreme prices, the shares and the number of the trades of
-- the run.
pub build-runs :
    (clock : Clock) (b : BarBuilder) (trades : List Trade)
    → b.has_callback ≡ true
    → b.has_bar ≡ false
    → build clock b trades ≡ map bar_of (runs (stamp clock b.cumulative_volume b.tick_index trades))
unfolding stamp runs count_trade build
build-runs clock b [] callback closed = flush-closed b closed
build-runs clock b (t ∷ ts) callback closed =
    build-next clock b (opened b (bucket_of clock b t) t) t ts []
      (add_trade-closed clock b t closed)
    ∙ build-attach clock (opened b (bucket_of clock b t) t) ts callback refl
    ∙ attach-fresh (bucket_of clock b t) t _
