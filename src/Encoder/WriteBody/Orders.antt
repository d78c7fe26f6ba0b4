-- ===== src/Encoder/WriteBody/Orders.antt =====
-- The messages on displayed orders: `write_body` in src/encoder.cpp.
use itchcpp.Wire.{Endian}
use itchcpp.Message.{
  AddOrderMessage, AddOrderMpidAttributionMessage, OrderExecutedMessage,
  OrderExecutedWithPriceMessage, OrderCancelMessage, OrderDeleteMessage, OrderReplaceMessage,
}
use itchcpp.Encoder.ByteWriter.{Writer, ◌>>◌, put, put_char, put_chars}

module _ (e : Endian) where
  unfoldable pub add_order : AddOrderMessage → Writer
  add_order m = do
    put e 8 m.order_reference_number
    put_char m.buy_sell_indicator
    put e 4 m.shares
    put_chars 8 m.stock
    put e 4 m.price

  unfoldable pub add_order_mpid_attribution : AddOrderMpidAttributionMessage → Writer
  add_order_mpid_attribution m = do
    put e 8 m.order_reference_number
    put_char m.buy_sell_indicator
    put e 4 m.shares
    put_chars 8 m.stock
    put e 4 m.price
    put_chars 4 m.attribution

  unfoldable pub order_executed : OrderExecutedMessage → Writer
  order_executed m = do
    put e 8 m.order_reference_number
    put e 4 m.executed_shares
    put e 8 m.match_number

  unfoldable pub order_executed_with_price : OrderExecutedWithPriceMessage → Writer
  order_executed_with_price m = do
    put e 8 m.order_reference_number
    put e 4 m.executed_shares
    put e 8 m.match_number
    put_char m.printable
    put e 4 m.execution_price

  unfoldable pub order_cancel : OrderCancelMessage → Writer
  order_cancel m = do put e 8 m.order_reference_number; put e 4 m.cancelled_shares

  unfoldable pub order_delete : OrderDeleteMessage → Writer
  order_delete m = do put e 8 m.order_reference_number

  unfoldable pub order_replace : OrderReplaceMessage → Writer
  order_replace m = do
    put e 8 m.original_order_reference_number
    put e 8 m.new_order_reference_number
    put e 4 m.shares
    put e 4 m.price
