-- ===== src/Message/Typed.antt =====
-- The values that the fields of a message can hold: the ranges of the field types of
-- include/itch/messages.hpp, with the 48 bits that the wire has for a timestamp.
use itchcpp.Prelude.{ℕ, ◌^◌, ◌<◌, ◌≡◌, length}
use itchcpp.Message.Shared.{Header}
use itchcpp.Message.Variant.{
  Message, system_event, stock_directory, stock_trading_action, reg_sho,
  market_participant_position, mwcb_decline_level, mwcb_status, ipo_quoting_period_update,
  luld_auction_collar, operational_halt, add_order, add_order_mpid_attribution, order_executed,
  order_executed_with_price, order_cancel, order_delete, order_replace, non_cross_trade,
  cross_trade, broken_trade, noii, retail_price_improvement_indicator, dlcr,
}

-- `message_type` is the letter of the struct.
abbrev pub IsTypedHeader : ℕ → Header → Type 0
IsTypedHeader letter h =
    (h.message_type ≡ letter)
    × (h.stock_locate < 2 ^ 16)
    × (h.tracking_number < 2 ^ 16)
    × (h.timestamp < 2 ^ 48)

abbrev pub IsTyped : Message → Type 0
IsTyped (system_event m) = IsTypedHeader b'S' m.header
IsTyped (stock_directory m) =
    IsTypedHeader b'R' m.header
    × (length m.stock ≡ 8)
    × (m.round_lot_size < 2 ^ 32)
    × (length m.issue_sub_type ≡ 2)
    × (m.etp_leverage_factor < 2 ^ 32)
IsTyped (stock_trading_action m) =
    IsTypedHeader b'H' m.header × (length m.stock ≡ 8) × (length m.reason ≡ 4)
IsTyped (reg_sho m) = IsTypedHeader b'Y' m.header × (length m.stock ≡ 8)
IsTyped (market_participant_position m) =
    IsTypedHeader b'L' m.header × (length m.mpid ≡ 4) × (length m.stock ≡ 8)
IsTyped (mwcb_decline_level m) =
    IsTypedHeader b'V' m.header × (m.level1 < 2 ^ 64) × (m.level2 < 2 ^ 64) × (m.level3 < 2 ^ 64)
IsTyped (mwcb_status m) = IsTypedHeader b'W' m.header
IsTyped (ipo_quoting_period_update m) =
    IsTypedHeader b'K' m.header
    × (length m.stock ≡ 8)
    × (m.ipo_quotation_release_time < 2 ^ 32)
    × (m.ipo_price < 2 ^ 32)
IsTyped (luld_auction_collar m) =
    IsTypedHeader b'J' m.header
    × (length m.stock ≡ 8)
    × (m.auction_collar_reference_price < 2 ^ 32)
    × (m.upper_auction_collar_price < 2 ^ 32)
    × (m.lower_auction_collar_price < 2 ^ 32)
    × (m.auction_collar_extension < 2 ^ 32)
IsTyped (operational_halt m) = IsTypedHeader b'h' m.header × (length m.stock ≡ 8)
IsTyped (add_order m) =
    IsTypedHeader b'A' m.header
    × (m.order_reference_number < 2 ^ 64)
    × (m.shares < 2 ^ 32)
    × (length m.stock ≡ 8)
    × (m.price < 2 ^ 32)
IsTyped (add_order_mpid_attribution m) =
    IsTypedHeader b'F' m.header
    × (m.order_reference_number < 2 ^ 64)
    × (m.shares < 2 ^ 32)
    × (length m.stock ≡ 8)
    × (m.price < 2 ^ 32)
    × (length m.attribution ≡ 4)
IsTyped (order_executed m) =
    IsTypedHeader b'E' m.header
    × (m.order_reference_number < 2 ^ 64)
    × (m.executed_shares < 2 ^ 32)
    × (m.match_number < 2 ^ 64)
IsTyped (order_executed_with_price m) =
    IsTypedHeader b'C' m.header
    × (m.order_reference_number < 2 ^ 64)
    × (m.executed_shares < 2 ^ 32)
    × (m.match_number < 2 ^ 64)
    × (m.execution_price < 2 ^ 32)
IsTyped (order_cancel m) =
    IsTypedHeader b'X' m.header
    × (m.order_reference_number < 2 ^ 64)
    × (m.cancelled_shares < 2 ^ 32)
IsTyped (order_delete m) = IsTypedHeader b'D' m.header × (m.order_reference_number < 2 ^ 64)
IsTyped (order_replace m) =
    IsTypedHeader b'U' m.header
    × (m.original_order_reference_number < 2 ^ 64)
    × (m.new_order_reference_number < 2 ^ 64)
    × (m.shares < 2 ^ 32)
    × (m.price < 2 ^ 32)
IsTyped (non_cross_trade m) =
    IsTypedHeader b'P' m.header
    × (m.order_reference_number < 2 ^ 64)
    × (m.shares < 2 ^ 32)
    × (length m.stock ≡ 8)
    × (m.price < 2 ^ 32)
    × (m.match_number < 2 ^ 64)
IsTyped (cross_trade m) =
    IsTypedHeader b'Q' m.header
    × (m.shares < 2 ^ 64)
    × (length m.stock ≡ 8)
    × (m.cross_price < 2 ^ 32)
    × (m.match_number < 2 ^ 64)
IsTyped (broken_trade m) = IsTypedHeader b'B' m.header × (m.match_number < 2 ^ 64)
IsTyped (noii m) =
    IsTypedHeader b'I' m.header
    × (m.paired_shares < 2 ^ 64)
    × (m.imbalance_shares < 2 ^ 64)
    × (length m.stock ≡ 8)
    × (m.far_price < 2 ^ 32)
    × (m.near_price < 2 ^ 32)
    × (m.current_reference_price < 2 ^ 32)
IsTyped (retail_price_improvement_indicator m) = IsTypedHeader b'N' m.header × (length m.stock ≡ 8)
IsTyped (dlcr m) =
    IsTypedHeader b'O' m.header
    × (length m.stock ≡ 8)
    × (m.minimum_allowable_price < 2 ^ 32)
    × (m.maximum_allowable_price < 2 ^ 32)
    × (m.near_execution_price < 2 ^ 32)
    × (m.near_execution_time < 2 ^ 64)
    × (m.lower_price_range_collar < 2 ^ 32)
    × (m.upper_price_range_collar < 2 ^ 32)
