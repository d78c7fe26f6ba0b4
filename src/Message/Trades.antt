-- ===== src/Message/Trades.antt =====
-- The messages on trades, auctions and imbalances: the structs of include/itch/messages.hpp.
use itchcpp.Prelude.{ℕ, List}
use itchcpp.Message.Shared.{Header}

pub record NonCrossTradeMessage : Type 0 where
  pub header : Header
  pub open header use *
  pub order_reference_number : ℕ
  pub buy_sell_indicator : ℕ
  pub shares : ℕ
  pub stock : List ℕ
  pub price : ℕ
  pub match_number : ℕ

pub record CrossTradeMessage : Type 0 where
  pub header : Header
  pub open header use *
  pub shares : ℕ
  pub stock : List ℕ
  pub cross_price : ℕ
  pub match_number : ℕ
  pub cross_type : ℕ

pub record BrokenTradeMessage : Type 0 where
  pub header : Header
  pub open header use *
  pub match_number : ℕ

pub record NoiiMessage : Type 0 where
  pub header : Header
  pub open header use *
  pub paired_shares : ℕ
  pub imbalance_shares : ℕ
  pub imbalance_direction : ℕ
  pub stock : List ℕ
  pub far_price : ℕ
  pub near_price : ℕ
  pub current_reference_price : ℕ
  pub cross_type : ℕ
  pub price_variation_indicator : ℕ

pub record RetailPriceImprovementIndicatorMessage : Type 0 where
  pub header : Header
  pub open header use *
  pub stock : List ℕ
  pub interest_flag : ℕ

pub record DlcrMessage : Type 0 where
  pub header : Header
  pub open header use *
  pub stock : List ℕ
  pub open_eligibility_status : ℕ
  pub minimum_allowable_price : ℕ
  pub maximum_allowable_price : ℕ
  pub near_execution_price : ℕ
  pub near_execution_time : ℕ
  pub lower_price_range_collar : ℕ
  pub upper_price_range_collar : ℕ
