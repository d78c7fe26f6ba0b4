-- ===== src/Parser/UnpackMessage.antt =====
-- The overloads of `unpack_message` in src/parser.cpp, one for each message type.
mod Admin
mod Orders
mod Trades
unfoldable pub use Admin.{
  system_event, stock_directory, stock_trading_action, reg_sho, market_participant_position,
  mwcb_decline_level, mwcb_status, ipo_quoting_period_update, luld_auction_collar, operational_halt,
}
unfoldable pub use Orders.{
  add_order, add_order_mpid_attribution, order_executed, order_executed_with_price, order_cancel,
  order_delete, order_replace,
}
unfoldable pub use Trades.{
  non_cross_trade, cross_trade, broken_trade, noii, retail_price_improvement_indicator, dlcr,
}
