-- ===== src/Parser/UnpackMessage/Orders.antt =====
-- The messages on displayed orders: `unpack_message` in src/parser.cpp. The members that the header fills are
-- passed in.
use itchcpp.Wire.{Endian}
use itchcpp.Message.{
  Header, AddOrderMessage, AddOrderMpidAttributionMessage, OrderExecutedMessage,
  OrderExecutedWithPriceMessage, OrderCancelMessage, OrderDeleteMessage, OrderReplaceMessage,
}
use itchcpp.Parser.Unpack.{Reader, pure, ◌>>=◌, unpack, unpack_char, unpack_string}

module _ (e : Endian) (header : Header) where
  unfoldable pub add_order : Reader AddOrderMessage
  add_order = do
    order_reference_number ← unpack e 8
    buy_sell_indicator ← unpack_char
    shares ← unpack e 4
    stock ← unpack_string 8
    price ← unpack e 4
    pure (record {
      header = header;
      order_reference_number = order_reference_number;
      buy_sell_indicator = buy_sell_indicator;
      shares = shares;
      stock = stock;
      price = price;
    })

  unfoldable pub add_order_mpid_attribution : Reader AddOrderMpidAttributionMessage
  add_order_mpid_attribution = do
    order_reference_number ← unpack e 8
    buy_sell_indicator ← unpack_char
    shares ← unpack e 4
    stock ← unpack_string 8
    price ← unpack e 4
    attribution ← unpack_string 4
    pure (record {
      header = header;
      order_reference_number = order_reference_number;
      buy_sell_indicator = buy_sell_indicator;
      shares = shares;
      stock = stock;
      price = price;
      attribution = attribution;
    })

  unfoldable pub order_executed : Reader OrderExecutedMessage
  order_executed = do
    order_reference_number ← unpack e 8
    executed_shares ← unpack e 4
    match_number ← unpack e 8
    pure (record {
      header = header;
      order_reference_number = order_reference_number;
      executed_shares = executed_shares;
      match_number = match_number;
    })

  unfoldable pub order_executed_with_price : Reader OrderExecutedWithPriceMessage
  order_executed_with_price = do
    order_reference_number ← unpack e 8
    executed_shares ← unpack e 4
    match_number ← unpack e 8
    printable ← unpack_char
    execution_price ← unpack e 4
    pure (record {
      header = header;
      order_reference_number = order_reference_number;
      executed_shares = executed_shares;
      match_number = match_number;
      printable = printable;
      execution_price = execution_price;
    })

  unfoldable pub order_cancel : Reader OrderCancelMessage
  order_cancel = do
    order_reference_number ← unpack e 8
    cancelled_shares ← unpack e 4
    pure (record {
      header = header;
      order_reference_number = order_reference_number;
      cancelled_shares = cancelled_shares;
    })

  unfoldable pub order_delete : Reader OrderDeleteMessage
  order_delete = do
    order_reference_number ← unpack e 8
    pure (record { header = header; order_reference_number = order_reference_number })

  unfoldable pub order_replace : Reader OrderReplaceMessage
  order_replace = do
    original_order_reference_number ← unpack e 8
    new_order_reference_number ← unpack e 8
    shares ← unpack e 4
    price ← unpack e 4
    pure (record {
      header = header;
      original_order_reference_number = original_order_reference_number;
      new_order_reference_number = new_order_reference_number;
      shares = shares;
      price = price;
    })
