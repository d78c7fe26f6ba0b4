-- ===== src/Bars/Runs.antt =====
-- The bars that trades ask for, apart from the code of include/itch/analytics/bars.hpp: the runs of
-- consecutive trades of one bucket, and the figures of a run.
use itchcpp.Prelude.{ℕ, ◌+◌, ◌%◌, ◌^◌, List, [], ◌∷◌, length, ◌==◌, max, min, if◌then◌else◌}
use itchcpp.Bars.{Trade, Bar, Clock}

-- The trades with their buckets.
unfoldable pub stamp : Clock → ℕ → ℕ → List Trade → List (ℕ × Trade)
stamp clock volume tick [] = []
stamp clock volume tick (trade ∷ trades) =
    (clock trade volume tick, trade)
    ∷ stamp clock ((volume + trade.shares) % 2 ^ 64) ((tick + 1) % 2 ^ 64) trades

-- A run: its bucket, its first trade, and those after it.
pub record Run : Type 0 where
  pub bucket : ℕ
  pub first : Trade
  pub others : List Trade

unfoldable pub join : ℕ → Trade → List Run → List Run
join k trade [] = record { bucket = k; first = trade; others = [] } ∷ []
join k trade (r ∷ rs) =
    if k == r.bucket
    then record { bucket = k; first = trade; others = r.first ∷ r.others } ∷ rs
    else record { bucket = k; first = trade; others = [] } ∷ r ∷ rs

-- The runs of consecutive trades of the same bucket, as long as they can be.
unfoldable pub runs : List (ℕ × Trade) → List Run
unfolding join
runs [] = []
runs ((k, trade) ∷ rest) = join k trade (runs rest)

-- The figures of the trades of a run.
unfoldable pub highest : ℕ → List Trade → ℕ
highest p [] = p
highest p (t ∷ ts) = highest (max p t.price) ts

unfoldable pub lowest : ℕ → List Trade → ℕ
lowest p [] = p
lowest p (t ∷ ts) = lowest (min p t.price) ts

unfoldable pub last : Trade → List Trade → Trade
last t [] = t
last t (u ∷ us) = last u us

unfoldable pub traded : List Trade → ℕ
traded [] = 0
traded (t ∷ ts) = t.shares + traded ts

-- The bar of a run: first and last trade, extreme prices, shares and number of all its trades.
unfoldable pub bar_of : Run → Bar
unfolding highest lowest last traded
bar_of r = record {
  bucket = r.bucket;
  start_timestamp = r.first.timestamp;
  end_timestamp = (last r.first r.others).timestamp;
  open_price = r.first.price;
  high = highest r.first.price r.others;
  low = lowest r.first.price r.others;
  close = (last r.first r.others).price;
  volume = traded (r.first ∷ r.others) % 2 ^ 64;
  trade_count = length (r.first ∷ r.others) % 2 ^ 64;
}
