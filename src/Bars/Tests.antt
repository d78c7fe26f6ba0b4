-- ===== src/Bars/Tests.antt =====
-- A run of the bar builder on three trades, and the theorem at it.
use itchcpp.Prelude.{ℕ, ◌≡◌, refl, List, [], ◌∷◌, map, true, false}
use itchcpp.Bars.{Trade, BarBuilder, tick_clock, build}
use itchcpp.Bars.Runs.{runs, stamp, bar_of}
use itchcpp.Bars.Build.{build-runs}

abbrev trade_at : ℕ → ℕ → ℕ → Trade
trade_at timestamp price shares = record {
  timestamp = timestamp;
  stock_locate = 1;
  symbol = [];
  price = price;
  shares = shares;
  match_number = 0;
  side = b'B';
  printable = true;
  is_cross = false;
  cross_type = 0;
}

abbrev trades : List Trade
trades = trade_at 10 500 100 ∷ trade_at 11 480 50 ∷ trade_at 12 510 10 ∷ []

abbrev idle : BarBuilder
idle = record {
  has_callback = true;
  bar = record {
    bucket = 0;
    start_timestamp = 0;
    end_timestamp = 0;
    open_price = 0;
    high = 0;
    low = 0;
    close = 0;
    volume = 0;
    trade_count = 0;
  };
  has_bar = false;
  cumulative_volume = 0;
  tick_index = 0;
}

-- Two trades to a bar.
bars_run :
    build (tick_clock 2) idle trades
    ≡ record {
      bucket = 0;
      start_timestamp = 10;
      end_timestamp = 11;
      open_price = 500;
      high = 500;
      low = 480;
      close = 480;
      volume = 150;
      trade_count = 2;
    }
      ∷ record {
        bucket = 1;
        start_timestamp = 12;
        end_timestamp = 12;
        open_price = 510;
        high = 510;
        low = 510;
        close = 510;
        volume = 10;
        trade_count = 1;
      }
      ∷ []
unfolding build tick_clock
bars_run = refl

build-runs_example :
    build (tick_clock 2) idle trades ≡ map bar_of (runs (stamp (tick_clock 2) 0 0 trades))
build-runs_example = build-runs (tick_clock 2) idle trades refl refl
