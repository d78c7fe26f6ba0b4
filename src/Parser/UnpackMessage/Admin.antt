-- ===== src/Parser/UnpackMessage/Admin.antt =====
-- The administrative messages: `unpack_message` in src/parser.cpp. The members that the header fills are
-- passed in.
use itchcpp.Wire.{Endian}
use itchcpp.Message.{
  Header, SystemEventMessage, StockDirectoryMessage, StockTradingActionMessage, RegShoMessage,
  MarketParticipantPositionMessage, MwcbDeclineLevelMessage, MwcbStatusMessage,
  IpoQuotingPeriodUpdateMessage, LuldAuctionCollarMessage, OperationalHaltMessage,
}
use itchcpp.Parser.Unpack.{Reader, pure, ◌>>=◌, unpack, unpack_char, unpack_string}

module _ (e : Endian) (header : Header) where
  unfoldable pub system_event : Reader SystemEventMessage
  system_event = do
    event_code ← unpack_char
    pure (record { header = header; event_code = event_code })

  unfoldable pub stock_directory : Reader StockDirectoryMessage
  stock_directory = do
    stock ← unpack_string 8
    market_category ← unpack_char
    financial_status_indicator ← unpack_char
    round_lot_size ← unpack e 4
    round_lots_only ← unpack_char
    issue_classification ← unpack_char
    issue_sub_type ← unpack_string 2
    authenticity ← unpack_char
    short_sale_threshold_indicator ← unpack_char
    ipo_flag ← unpack_char
    luld_ref ← unpack_char
    etp_flag ← unpack_char
    etp_leverage_factor ← unpack e 4
    inverse_indicator ← unpack_char
    pure (record {
      header = header;
      stock = stock;
      market_category = market_category;
      financial_status_indicator = financial_status_indicator;
      round_lot_size = round_lot_size;
      round_lots_only = round_lots_only;
      issue_classification = issue_classification;
      issue_sub_type = issue_sub_type;
      authenticity = authenticity;
      short_sale_threshold_indicator = short_sale_threshold_indicator;
      ipo_flag = ipo_flag;
      luld_ref = luld_ref;
      etp_flag = etp_flag;
      etp_leverage_factor = etp_leverage_factor;
      inverse_indicator = inverse_indicator;
    })

  unfoldable pub stock_trading_action : Reader StockTradingActionMessage
  stock_trading_action = do
    stock ← unpack_string 8
    trading_state ← unpack_char
    reserved ← unpack_char
    reason ← unpack_string 4
    pure (record {
      header = header;
      stock = stock;
      trading_state = trading_state;
      reserved = reserved;
      reason = reason;
    })

  unfoldable pub reg_sho : Reader RegShoMessage
  reg_sho = do
    stock ← unpack_string 8
    reg_sho_action ← unpack_char
    pure (record { header = header; stock = stock; reg_sho_action = reg_sho_action })

  unfoldable pub market_participant_position : Reader MarketParticipantPositionMessage
  market_participant_position = do
    mpid ← unpack_string 4
    stock ← unpack_string 8
    primary_market_maker ← unpack_char
    market_maker_mode ← unpack_char
    market_participant_state ← unpack_char
    pure (record {
      header = header;
      mpid = mpid;
      stock = stock;
      primary_market_maker = primary_market_maker;
      market_maker_mode = market_maker_mode;
      market_participant_state = market_participant_state;
    })

  unfoldable pub mwcb_decline_level : Reader MwcbDeclineLevelMessage
  mwcb_decline_level = do
    level1 ← unpack e 8
    level2 ← unpack e 8
    level3 ← unpack e 8
    pure (record { header = header; level1 = level1; level2 = level2; level3 = level3 })

  unfoldable pub mwcb_status : Reader MwcbStatusMessage
  mwcb_status = do
    breached_level ← unpack_char
    pure (record { header = header; breached_level = breached_level })

  unfoldable pub ipo_quoting_period_update : Reader IpoQuotingPeriodUpdateMessage
  ipo_quoting_period_update = do
    stock ← unpack_string 8
    ipo_quotation_release_time ← unpack e 4
    ipo_quotation_release_qualifier ← unpack_char
    ipo_price ← unpack e 4
    pure (record {
      header = header;
      stock = stock;
      ipo_quotation_release_time = ipo_quotation_release_time;
      ipo_quotation_release_qualifier = ipo_quotation_release_qualifier;
      ipo_price = ipo_price;
    })

  unfoldable pub luld_auction_collar : Reader LuldAuctionCollarMessage
  luld_auction_collar = do
    stock ← unpack_string 8
    auction_collar_reference_price ← unpack e 4
    upper_auction_collar_price ← unpack e 4
    lower_auction_collar_price ← unpack e 4
    auction_collar_extension ← unpack e 4
    pure (record {
      header = header;
      stock = stock;
      auction_collar_reference_price = auction_collar_reference_price;
      upper_auction_collar_price = upper_auction_collar_price;
      lower_auction_collar_price = lower_auction_collar_price;
      auction_collar_extension = auction_collar_extension;
    })

  unfoldable pub operational_halt : Reader OperationalHaltMessage
  operational_halt = do
    stock ← unpack_string 8
    market_code ← unpack_char
    operational_halt_action ← unpack_char
    pure (record {
      header = header;
      stock = stock;
      market_code = market_code;
      operational_halt_action = operational_halt_action;
    })
