-- ===== src/Parser/FrameSize.antt =====
-- Each decoder of src/parser.cpp takes exactly the wire size of its message type.
mod Admin
mod Orders
mod Trades
use itchcpp.Prelude.{◌+◌, ◌-◌, ◌≡◌, refl, subst, ℕ}
use itchcpp.Wire.{Endian}
use itchcpp.Message.{
  Header, MessageType, wire_size, system_event_message, stock_directory_message,
  stock_trading_action_message, reg_sho_message, market_participant_position_message,
  mwcb_decline_level_message, mwcb_status_message, ipo_quoting_period_update_message,
  luld_auction_collar_message, operational_halt_message, add_order_message,
  add_order_mpid_attribution_message, order_executed_message, order_executed_with_price_message,
  order_cancel_message, order_delete_message, order_replace_message, non_cross_trade_message,
  cross_trade_message, broken_trade_message, noii_message,
  retail_price_improvement_indicator_message, dlcr_message,
}
use itchcpp.Parser.Unpack.{◌>>=◌, ◌>>◌}
use itchcpp.Parser.Dispatch.{unpack_message, decode_typed}
use itchcpp.Parser.Takes.{
  Takes, Takes-pure, Takes-bind, Takes-unpack, Takes-skip, Takes-unpack_timestamp,
}

-- The type byte, `stock_locate`, `tracking_number` and the 48-bit timestamp are 11 bytes.
abbrev body_size : MessageType → ℕ
body_size t = wire_size t - 11

Takes-unpack_message :
    (e : Endian) (t : MessageType) (h : Header) → Takes (body_size t + 0) (unpack_message e t h)
unfolding unpack_message wire_size
Takes-unpack_message e system_event_message h =
    Takes-bind (Admin.system_event_size e h) (λ m. Takes-pure _)
Takes-unpack_message e stock_directory_message h =
    Takes-bind (Admin.stock_directory_size e h) (λ m. Takes-pure _)
Takes-unpack_message e stock_trading_action_message h =
    Takes-bind (Admin.stock_trading_action_size e h) (λ m. Takes-pure _)
Takes-unpack_message e reg_sho_message h = Takes-bind (Admin.reg_sho_size e h) (λ m. Takes-pure _)
Takes-unpack_message e market_participant_position_message h =
    Takes-bind (Admin.market_participant_position_size e h) (λ m. Takes-pure _)
Takes-unpack_message e mwcb_decline_level_message h =
    Takes-bind (Admin.mwcb_decline_level_size e h) (λ m. Takes-pure _)
Takes-unpack_message e mwcb_status_message h =
    Takes-bind (Admin.mwcb_status_size e h) (λ m. Takes-pure _)
Takes-unpack_message e ipo_quoting_period_update_message h =
    Takes-bind (Admin.ipo_quoting_period_update_size e h) (λ m. Takes-pure _)
Takes-unpack_message e luld_auction_collar_message h =
    Takes-bind (Admin.luld_auction_collar_size e h) (λ m. Takes-pure _)
Takes-unpack_message e operational_halt_message h =
    Takes-bind (Admin.operational_halt_size e h) (λ m. Takes-pure _)
Takes-unpack_message e add_order_message h =
    Takes-bind (Orders.add_order_size e h) (λ m. Takes-pure _)
Takes-unpack_message e add_order_mpid_attribution_message h =
    Takes-bind (Orders.add_order_mpid_attribution_size e h) (λ m. Takes-pure _)
Takes-unpack_message e order_executed_message h =
    Takes-bind (Orders.order_executed_size e h) (λ m. Takes-pure _)
Takes-unpack_message e order_executed_with_price_message h =
    Takes-bind (Orders.order_executed_with_price_size e h) (λ m. Takes-pure _)
Takes-unpack_message e order_cancel_message h =
    Takes-bind (Orders.order_cancel_size e h) (λ m. Takes-pure _)
Takes-unpack_message e order_delete_message h =
    Takes-bind (Orders.order_delete_size e h) (λ m. Takes-pure _)
Takes-unpack_message e order_replace_message h =
    Takes-bind (Orders.order_replace_size e h) (λ m. Takes-pure _)
Takes-unpack_message e non_cross_trade_message h =
    Takes-bind (Trades.non_cross_trade_size e h) (λ m. Takes-pure _)
Takes-unpack_message e cross_trade_message h =
    Takes-bind (Trades.cross_trade_size e h) (λ m. Takes-pure _)
Takes-unpack_message e broken_trade_message h =
    Takes-bind (Trades.broken_trade_size e h) (λ m. Takes-pure _)
Takes-unpack_message e noii_message h = Takes-bind (Trades.noii_size e h) (λ m. Takes-pure _)
Takes-unpack_message e retail_price_improvement_indicator_message h =
    Takes-bind (Trades.retail_price_improvement_indicator_size e h) (λ m. Takes-pure _)
Takes-unpack_message e dlcr_message h = Takes-bind (Trades.dlcr_size e h) (λ m. Takes-pure _)

wire_size-body_size : (t : MessageType) → 1 + (2 + (2 + (6 + (body_size t + 0)))) ≡ wire_size t
unfolding wire_size
wire_size-body_size system_event_message = refl
wire_size-body_size _ = refl

pub Takes-decode_typed : (e : Endian) (t : MessageType) → Takes (wire_size t) (decode_typed e t)
unfolding decode_typed
Takes-decode_typed e t =
    subst (λ n. Takes n (decode_typed e t)) (wire_size-body_size t)
      (Takes-bind (Takes-skip 1) λ _. Takes-bind (Takes-unpack e 2) λ _.
        Takes-bind (Takes-unpack e 2)
          λ _. Takes-bind (Takes-unpack_timestamp e) λ _. Takes-unpack_message e t _)
