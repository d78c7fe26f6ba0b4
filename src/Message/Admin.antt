-- ===== src/Message/Admin.antt =====
-- The administrative messages: the structs of include/itch/messages.hpp.
use itchcpp.Prelude.{ℕ, List}
use itchcpp.Message.Shared.{Header}

pub record SystemEventMessage : Type 0 where
  pub header : Header
  pub open header use *
  pub event_code : ℕ

pub record StockDirectoryMessage : Type 0 where
  pub header : Header
  pub open header use *
  pub stock : List ℕ
  pub market_category : ℕ
  pub financial_status_indicator : ℕ
  pub round_lot_size : ℕ
  pub round_lots_only : ℕ
  pub issue_classification : ℕ
  pub issue_sub_type : List ℕ
  pub authenticity : ℕ
  pub short_sale_threshold_indicator : ℕ
  pub ipo_flag : ℕ
  pub luld_ref : ℕ
  pub etp_flag : ℕ
  pub etp_leverage_factor : ℕ
  pub inverse_indicator : ℕ

pub record StockTradingActionMessage : Type 0 where
  pub header : Header
  pub open header use *
  pub stock : List ℕ
  pub trading_state : ℕ
  pub reserved : ℕ
  pub reason : List ℕ

pub record RegShoMessage : Type 0 where
  pub header : Header
  pub open header use *
  pub stock : List ℕ
  pub reg_sho_action : ℕ

pub record MarketParticipantPositionMessage : Type 0 where
  pub header : Header
  pub open header use *
  pub mpid : List ℕ
  pub stock : List ℕ
  pub primary_market_maker : ℕ
  pub market_maker_mode : ℕ
  pub market_participant_state : ℕ

pub record MwcbDeclineLevelMessage : Type 0 where
  pub header : Header
  pub open header use *
  pub level1 : ℕ
  pub level2 : ℕ
  pub level3 : ℕ

pub record MwcbStatusMessage : Type 0 where
  pub header : Header
  pub open header use *
  pub breached_level : ℕ

pub record IpoQuotingPeriodUpdateMessage : Type 0 where
  pub header : Header
  pub open header use *
  pub stock : List ℕ
  pub ipo_quotation_release_time : ℕ
  pub ipo_quotation_release_qualifier : ℕ
  pub ipo_price : ℕ

pub record LuldAuctionCollarMessage : Type 0 where
  pub header : Header
  pub open header use *
  pub stock : List ℕ
  pub auction_collar_reference_price : ℕ
  pub upper_auction_collar_price : ℕ
  pub lower_auction_collar_price : ℕ
  pub auction_collar_extension : ℕ

pub record OperationalHaltMessage : Type 0 where
  pub header : Header
  pub open header use *
  pub stock : List ℕ
  pub market_code : ℕ
  pub operational_halt_action : ℕ
