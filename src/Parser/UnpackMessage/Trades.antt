-- ===== src/Parser/UnpackMessage/Trades.antt =====
-- The messages on trades, auctions and imbalances: `unpack_message` in src/parser.cpp. The members that the header fills are
-- passed in.
use itchcpp.Wire.{Endian}
use itchcpp.Message.{
  Header, NonCrossTradeMessage, CrossTradeMessage, BrokenTradeMessage, NoiiMessage,
  RetailPriceImprovementIndicatorMessage, DlcrMessage,
}
use itchcpp.Parser.Unpack.{Reader, pure, ◌>>=◌, unpack, unpack_char, unpack_string}

module _ (e : Endian) (header : Header) where
  unfoldable pub non_cross_trade : Reader NonCrossTradeMessage
  non_cross_trade = do
    order_reference_number ← unpack e 8
    buy_sell_indicator ← unpack_char
    shares ← unpack e 4
    stock ← unpack_string 8
    price ← unpack e 4
    match_number ← unpack e 8
    pure (record {
      header = header;
      order_reference_number = order_reference_number;
      buy_sell_indicator = buy_sell_indicator;
      shares = shares;
      stock = stock;
      price = price;
      match_number = match_number;
    })

  unfoldable pub cross_trade : Reader CrossTradeMessage
  cross_trade = do
    shares ← unpack e 8
    stock ← unpack_string 8
    cross_price ← unpack e 4
    match_number ← unpack e 8
    cross_type ← unpack_char
    pure (record {
      header = header;
      shares = shares;
      stock = stock;
      cross_price = cross_price;
      match_number = match_number;
      cross_type = cross_type;
    })

  unfoldable pub broken_trade : Reader BrokenTradeMessage
  broken_trade = do
    match_number ← unpack e 8
    pure (record { header = header; match_number = match_number })

  unfoldable pub noii : Reader NoiiMessage
  noii = do
    paired_shares ← unpack e 8
    imbalance_shares ← unpack e 8
    imbalance_direction ← unpack_char
    stock ← unpack_string 8
    far_price ← unpack e 4
    near_price ← unpack e 4
    current_reference_price ← unpack e 4
    cross_type ← unpack_char
    price_variation_indicator ← unpack_char
    pure (record {
      header = header;
      paired_shares = paired_shares;
      imbalance_shares = imbalance_shares;
      imbalance_direction = imbalance_direction;
      stock = stock;
      far_price = far_price;
      near_price = near_price;
      current_reference_price = current_reference_price;
      cross_type = cross_type;
      price_variation_indicator = price_variation_indicator;
    })

  unfoldable pub retail_price_improvement_indicator : Reader RetailPriceImprovementIndicatorMessage
  retail_price_improvement_indicator = do
    stock ← unpack_string 8
    interest_flag ← unpack_char
    pure (record { header = header; stock = stock; interest_flag = interest_flag })

  unfoldable pub dlcr : Reader DlcrMessage
  dlcr = do
    stock ← unpack_string 8
    open_eligibility_status ← unpack_char
    minimum_allowable_price ← unpack e 4
    maximum_allowable_price ← unpack e 4
    near_execution_price ← unpack e 4
    near_execution_time ← unpack e 8
    lower_price_range_collar ← unpack e 4
    upper_price_range_collar ← unpack e 4
    pure (record {
      header = header;
      stock = stock;
      open_eligibility_status = open_eligibility_status;
      minimum_allowable_price = minimum_allowable_price;
      maximum_allowable_price = maximum_allowable_price;
      near_execution_price = near_execution_price;
      near_execution_time = near_execution_time;
      lower_price_range_collar = lower_price_range_collar;
      upper_price_range_collar = upper_price_range_collar;
    })
