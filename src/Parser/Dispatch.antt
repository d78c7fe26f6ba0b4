-- ===== src/Parser/Dispatch.antt =====
-- `decode_typed` and the dispatch table of src/parser.cpp. The table is an array over the 256 bytes,
-- here a function; the list of types comes from include/itch/detail/wire.hpp.
use itchcpp.Prelude.{ℕ, Option, none, some, ◌==◌, if◌then◌else◌}
use mathlib.Core.List.{foldl}
use itchcpp.Wire.{Endian}
use itchcpp.Message.{
  Header, Message, MessageType, default_message_type, wire_size, message_types, system_event,
  stock_directory, stock_trading_action, reg_sho, market_participant_position, mwcb_decline_level,
  mwcb_status, ipo_quoting_period_update, luld_auction_collar, operational_halt, add_order,
  add_order_mpid_attribution, order_executed, order_executed_with_price, order_cancel, order_delete,
  order_replace, non_cross_trade, cross_trade, broken_trade, noii,
  retail_price_improvement_indicator, dlcr, system_event_message, stock_directory_message,
  stock_trading_action_message, reg_sho_message, market_participant_position_message,
  mwcb_decline_level_message, mwcb_status_message, ipo_quoting_period_update_message,
  luld_auction_collar_message, operational_halt_message, add_order_message,
  add_order_mpid_attribution_message, order_executed_message, order_executed_with_price_message,
  order_cancel_message, order_delete_message, order_replace_message, non_cross_trade_message,
  cross_trade_message, broken_trade_message, noii_message,
  retail_price_improvement_indicator_message, dlcr_message,
}
use itchcpp.Parser.Unpack.{Reader, pure, ◌>>=◌, ◌>>◌, skip, unpack, unpack_timestamp}
use itchcpp.Parser.UnpackMessage

-- `unpack_message(msg, buffer, offset)` at the struct type, and the conversion to the variant.
unfoldable pub unpack_message : Endian → MessageType → Header → Reader Message
unpack_message e system_event_message h = do
  m ← UnpackMessage.system_event e h
  pure (system_event m)
unpack_message e stock_directory_message h = do
  m ← UnpackMessage.stock_directory e h
  pure (stock_directory m)
unpack_message e stock_trading_action_message h = do
  m ← UnpackMessage.stock_trading_action e h
  pure (stock_trading_action m)
unpack_message e reg_sho_message h = do m ← UnpackMessage.reg_sho e h; pure (reg_sho m)
unpack_message e market_participant_position_message h = do
  m ← UnpackMessage.market_participant_position e h
  pure (market_participant_position m)
unpack_message e mwcb_decline_level_message h = do
  m ← UnpackMessage.mwcb_decline_level e h
  pure (mwcb_decline_level m)
unpack_message e mwcb_status_message h = do m ← UnpackMessage.mwcb_status e h; pure (mwcb_status m)
unpack_message e ipo_quoting_period_update_message h = do
  m ← UnpackMessage.ipo_quoting_period_update e h
  pure (ipo_quoting_period_update m)
unpack_message e luld_auction_collar_message h = do
  m ← UnpackMessage.luld_auction_collar e h
  pure (luld_auction_collar m)
unpack_message e operational_halt_message h = do
  m ← UnpackMessage.operational_halt e h
  pure (operational_halt m)
unpack_message e add_order_message h = do m ← UnpackMessage.add_order e h; pure (add_order m)
unpack_message e add_order_mpid_attribution_message h = do
  m ← UnpackMessage.add_order_mpid_attribution e h
  pure (add_order_mpid_attribution m)
unpack_message e order_executed_message h = do
  m ← UnpackMessage.order_executed e h
  pure (order_executed m)
unpack_message e order_executed_with_price_message h = do
  m ← UnpackMessage.order_executed_with_price e h
  pure (order_executed_with_price m)
unpack_message e order_cancel_message h = do
  m ← UnpackMessage.order_cancel e h
  pure (order_cancel m)
unpack_message e order_delete_message h = do
  m ← UnpackMessage.order_delete e h
  pure (order_delete m)
unpack_message e order_replace_message h = do
  m ← UnpackMessage.order_replace e h
  pure (order_replace m)
unpack_message e non_cross_trade_message h = do
  m ← UnpackMessage.non_cross_trade e h
  pure (non_cross_trade m)
unpack_message e cross_trade_message h = do m ← UnpackMessage.cross_trade e h; pure (cross_trade m)
unpack_message e broken_trade_message h = do
  m ← UnpackMessage.broken_trade e h
  pure (broken_trade m)
unpack_message e noii_message h = do m ← UnpackMessage.noii e h; pure (noii m)
unpack_message e retail_price_improvement_indicator_message h = do
  m ← UnpackMessage.retail_price_improvement_indicator e h
  pure (retail_price_improvement_indicator m)
unpack_message e dlcr_message h = do m ← UnpackMessage.dlcr e h; pure (dlcr m)

-- The type byte of the frame is skipped; `message_type` has its default.
unfoldable pub decode_typed : Endian → MessageType → Reader Message
decode_typed e t = do
  skip 1
  stock_locate ← unpack e 2
  tracking_number ← unpack e 2
  timestamp ← unpack_timestamp e
  unpack_message e t (record {
    message_type = default_message_type t;
    stock_locate = stock_locate;
    tracking_number = tracking_number;
    timestamp = timestamp;
  })

pub record DispatchEntry : Type 0 where
  pub wire_size : ℕ
  pub decode : Reader Message

-- `none` is an entry whose `decode` is null.
abbrev pub DispatchTable : Type 0
DispatchTable = ℕ → Option DispatchEntry

unfoldable pub add : Endian → DispatchTable → ℕ × MessageType → DispatchTable
add e table (letter, t) byte =
    if byte == letter
    then some (record { wire_size = wire_size t; decode = decode_typed e t })
    else table byte

unfoldable pub build_dispatch_table : Endian → DispatchTable
unfolding add
build_dispatch_table e = foldl (add e) (λ byte. none) message_types
