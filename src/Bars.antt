-- ===== src/Bars.antt =====
-- The class `BarBuilder` of include/itch/analytics/bars.hpp over the trades of
-- include/itch/tape.hpp. A price is its raw integer. The clock, a parameter of the class, is its
-- function `bucket`; the bars that the callback is called with are a list.
mod Tests
pub mod Runs
pub mod Build
use itchcpp.Prelude.{
  ℕ, ◌+◌, ◌/◌, ◌%◌, ◌^◌, List, [], ◌∷◌, ◌++◌, Bool, false, true, not, ◌&&◌, ◌==◌, max, min,
  if◌then◌else◌,
}

pub record Trade : Type 0 where
  pub timestamp : ℕ
  pub stock_locate : ℕ
  pub symbol : List ℕ
  pub price : ℕ
  pub shares : ℕ
  pub match_number : ℕ
  pub side : ℕ
  pub printable : Bool
  pub is_cross : Bool
  pub cross_type : ℕ

pub record Bar : Type 0 where
  pub bucket : ℕ
  pub start_timestamp : ℕ
  pub end_timestamp : ℕ
  pub open_price : ℕ
  pub high : ℕ
  pub low : ℕ
  pub close : ℕ
  pub volume : ℕ
  pub trade_count : ℕ

-- bucket(trade, cumulative_volume, tick_index)
abbrev pub Clock : Type 0
Clock = Trade → ℕ → ℕ → ℕ

unfoldable pub time_clock : ℕ → Clock
time_clock interval_ns trade cumulative_volume tick_index = trade.timestamp / interval_ns

unfoldable pub tick_clock : ℕ → Clock
tick_clock ticks_per_bar trade cumulative_volume tick_index = tick_index / ticks_per_bar

unfoldable pub volume_clock : ℕ → Clock
volume_clock volume_per_bar trade cumulative_volume tick_index = cumulative_volume / volume_per_bar

-- `has_callback` says whether `m_callback` is set.
pub record BarBuilder : Type 0 where
  pub has_callback : Bool
  pub bar : Bar
  pub has_bar : Bool
  pub cumulative_volume : ℕ
  pub tick_index : ℕ

unfoldable pub emit : BarBuilder → BarBuilder × List Bar
emit b = (record b { has_bar = false }, if b.has_callback then b.bar ∷ [] else [])

-- A trade of another bucket ends the bar.
unfoldable pub roll : BarBuilder → ℕ → BarBuilder × List Bar
unfolding emit
roll b bucket = if b.has_bar && not (b.bar.bucket == bucket) then emit b else (b, [])

unfoldable pub fresh_bar : ℕ → Trade → Bar
fresh_bar bucket trade = record {
  bucket = bucket;
  start_timestamp = trade.timestamp;
  end_timestamp = 0;
  open_price = trade.price;
  high = trade.price;
  low = trade.price;
  close = 0;
  volume = 0;
  trade_count = 0;
}

unfoldable pub start_bar : BarBuilder → ℕ → Trade → BarBuilder
unfolding fresh_bar
start_bar b bucket trade =
    if not b.has_bar then record b { bar = fresh_bar bucket trade; has_bar = true } else b

unfoldable pub update : Bar → Trade → Bar
update bar trade = record bar {
  high = max bar.high trade.price;
  low = min bar.low trade.price;
  close = trade.price;
  end_timestamp = trade.timestamp;
  volume = (bar.volume + trade.shares) % 2 ^ 64;
  trade_count = (bar.trade_count + 1) % 2 ^ 64;
}

unfoldable pub count_trade : BarBuilder → Trade → BarBuilder
unfolding update
count_trade b trade = record b {
  bar = update b.bar trade;
  cumulative_volume = (b.cumulative_volume + trade.shares) % 2 ^ 64;
  tick_index = (b.tick_index + 1) % 2 ^ 64;
}

unfoldable pub add_trade : Clock → BarBuilder → Trade → BarBuilder × List Bar
unfolding roll start_bar count_trade
add_trade clock b trade =
    let bucket = clock trade b.cumulative_volume b.tick_index in
    let (b', bars) = roll b bucket in (count_trade (start_bar b' bucket trade) trade, bars)

unfoldable pub flush : BarBuilder → BarBuilder × List Bar
unfolding emit
flush b = if b.has_bar then emit b else (b, [])

-- The trades in turn, and a flush.
unfoldable pub build : Clock → BarBuilder → List Trade → List Bar
unfolding add_trade flush
build clock b [] = (flush b).1
build clock b (trade ∷ trades) =
    let (b', bars) = add_trade clock b trade in bars ++ build clock b' trades
