-- ===== src/Encoder/WriteBody/Trades.antt =====
-- The messages on trades, auctions and imbalances: `write_body` in src/encoder.cpp.
use itchcpp.Wire.{Endian}
use itchcpp.Message.{
  NonCrossTradeMessage, CrossTradeMessage, BrokenTradeMessage, NoiiMessage,
  RetailPriceImprovementIndicatorMessage, DlcrMessage,
}
use itchcpp.Encoder.ByteWriter.{Writer, ◌>>◌, put, put_char, put_chars}

module _ (e : Endian) where
  unfoldable pub non_cross_trade : NonCrossTradeMessage → Writer
  non_cross_trade m = do
    put e 8 m.order_reference_number
    put_char m.buy_sell_indicator
    put e 4 m.shares
    put_chars 8 m.stock
    put e 4 m.price
    put e 8 m.match_number

  unfoldable pub cross_trade : CrossTradeMessage → Writer
  cross_trade m = do
    put e 8 m.shares
    put_chars 8 m.stock
    put e 4 m.cross_price
    put e 8 m.match_number
    put_char m.cross_type

  unfoldable pub broken_trade : BrokenTradeMessage → Writer
  broken_trade m = do put e 8 m.match_number

  unfoldable pub noii : NoiiMessage → Writer
  noii m = do
    put e 8 m.paired_shares
    put e 8 m.imbalance_shares
    put_char m.imbalance_direction
    put_chars 8 m.stock
    put e 4 m.far_price
    put e 4 m.near_price
    put e 4 m.current_reference_price
    put_char m.cross_type
    put_char m.price_variation_indicator

  unfoldable pub retail_price_improvement_indicator :
      RetailPriceImprovementIndicatorMessage → Writer
  retail_price_improvement_indicator m = do put_chars 8 m.stock; put_char m.interest_flag

  unfoldable pub dlcr : DlcrMessage → Writer
  dlcr m = do
    put_chars 8 m.stock
    put_char m.open_eligibility_status
    put e 4 m.minimum_allowable_price
    put e 4 m.maximum_allowable_price
    put e 4 m.near_execution_price
    put e 8 m.near_execution_time
    put e 4 m.lower_price_range_collar
    put e 4 m.upper_price_range_collar
