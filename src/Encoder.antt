-- ===== src/Encoder.antt =====
-- src/encoder.cpp: a message as the bytes of the wire.
pub mod ByteWriter
pub mod WriteBody
use itchcpp.Prelude.{ℕ, List, [], ◌++◌, ◌%◌, ◌^◌, length}
use itchcpp.Wire.{Endian}
use itchcpp.Message.{
  Header, Message, header_of, system_event, stock_directory, stock_trading_action, reg_sho,
  market_participant_position, mwcb_decline_level, mwcb_status, ipo_quoting_period_update,
  luld_auction_collar, operational_halt, add_order, add_order_mpid_attribution, order_executed,
  order_executed_with_price, order_cancel, order_delete, order_replace, non_cross_trade,
  cross_trade, broken_trade, noii, retail_price_improvement_indicator, dlcr,
}
use ByteWriter.{Writer, ◌>>◌, put, put_char, put_timestamp}

unfoldable pub write_header : Endian → Header → Writer
write_header e h = do
  put_char h.message_type
  put e 2 h.stock_locate
  put e 2 h.tracking_number
  put_timestamp e h.timestamp

unfoldable pub write_body : Endian → Message → Writer
write_body e (system_event m) = WriteBody.system_event e m
write_body e (stock_directory m) = WriteBody.stock_directory e m
write_body e (stock_trading_action m) = WriteBody.stock_trading_action e m
write_body e (reg_sho m) = WriteBody.reg_sho e m
write_body e (market_participant_position m) = WriteBody.market_participant_position e m
write_body e (mwcb_decline_level m) = WriteBody.mwcb_decline_level e m
write_body e (mwcb_status m) = WriteBody.mwcb_status e m
write_body e (ipo_quoting_period_update m) = WriteBody.ipo_quoting_period_update e m
write_body e (luld_auction_collar m) = WriteBody.luld_auction_collar e m
write_body e (operational_halt m) = WriteBody.operational_halt e m
write_body e (add_order m) = WriteBody.add_order e m
write_body e (add_order_mpid_attribution m) = WriteBody.add_order_mpid_attribution e m
write_body e (order_executed m) = WriteBody.order_executed e m
write_body e (order_executed_with_price m) = WriteBody.order_executed_with_price e m
write_body e (order_cancel m) = WriteBody.order_cancel e m
write_body e (order_delete m) = WriteBody.order_delete e m
write_body e (order_replace m) = WriteBody.order_replace e m
write_body e (non_cross_trade m) = WriteBody.non_cross_trade e m
write_body e (cross_trade m) = WriteBody.cross_trade e m
write_body e (broken_trade m) = WriteBody.broken_trade e m
write_body e (noii m) = WriteBody.noii e m
write_body e (retail_price_improvement_indicator m) =
    WriteBody.retail_price_improvement_indicator e m
write_body e (dlcr m) = WriteBody.dlcr e m

unfoldable pub encode_message : Endian → Message → List ℕ
encode_message e message = (write_header e (header_of message) >> write_body e message) []

unfoldable pub encode_frame : Endian → Message → List ℕ
encode_frame e message =
    let body = encode_message e message in put e 2 (length body % 2 ^ 16) [] ++ body
