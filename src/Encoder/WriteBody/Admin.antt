-- ===== src/Encoder/WriteBody/Admin.antt =====
-- The administrative messages: `write_body` in src/encoder.cpp.
use itchcpp.Wire.{Endian}
use itchcpp.Message.{
  SystemEventMessage, StockDirectoryMessage, StockTradingActionMessage, RegShoMessage,
  MarketParticipantPositionMessage, MwcbDeclineLevelMessage, MwcbStatusMessage,
  IpoQuotingPeriodUpdateMessage, LuldAuctionCollarMessage, OperationalHaltMessage,
}
use itchcpp.Encoder.ByteWriter.{Writer, ◌>>◌, put, put_char, put_chars}

module _ (e : Endian) where
  unfoldable pub system_event : SystemEventMessage → Writer
  system_event m = do put_char m.event_code

  unfoldable pub stock_directory : StockDirectoryMessage → Writer
  stock_directory m = do
    put_chars 8 m.stock
    put_char m.market_category
    put_char m.financial_status_indicator
    put e 4 m.round_lot_size
    put_char m.round_lots_only
    put_char m.issue_classification
    put_chars 2 m.issue_sub_type
    put_char m.authenticity
    put_char m.short_sale_threshold_indicator
    put_char m.ipo_flag
    put_char m.luld_ref
    put_char m.etp_flag
    put e 4 m.etp_leverage_factor
    put_char m.inverse_indicator

  unfoldable pub stock_trading_action : StockTradingActionMessage → Writer
  stock_trading_action m = do
    put_chars 8 m.stock
    put_char m.trading_state
    put_char m.reserved
    put_chars 4 m.reason

  unfoldable pub reg_sho : RegShoMessage → Writer
  reg_sho m = do put_chars 8 m.stock; put_char m.reg_sho_action

  unfoldable pub market_participant_position : MarketParticipantPositionMessage → Writer
  market_participant_position m = do
    put_chars 4 m.mpid
    put_chars 8 m.stock
    put_char m.primary_market_maker
    put_char m.market_maker_mode
    put_char m.market_participant_state

  unfoldable pub mwcb_decline_level : MwcbDeclineLevelMessage → Writer
  mwcb_decline_level m = do put e 8 m.level1; put e 8 m.level2; put e 8 m.level3

  unfoldable pub mwcb_status : MwcbStatusMessage → Writer
  mwcb_status m = do put_char m.breached_level

  unfoldable pub ipo_quoting_period_update : IpoQuotingPeriodUpdateMessage → Writer
  ipo_quoting_period_update m = do
    put_chars 8 m.stock
    put e 4 m.ipo_quotation_release_time
    put_char m.ipo_quotation_release_qualifier
    put e 4 m.ipo_price

  unfoldable pub luld_auction_collar : LuldAuctionCollarMessage → Writer
  luld_auction_collar m = do
    put_chars 8 m.stock
    put e 4 m.auction_collar_reference_price
    put e 4 m.upper_auction_collar_price
    put e 4 m.lower_auction_collar_price
    put e 4 m.auction_collar_extension

  unfoldable pub operational_halt : OperationalHaltMessage → Writer
  operational_halt m = do
    put_chars 8 m.stock
    put_char m.market_code
    put_char m.operational_halt_action
