-- ===== src/Message/Variant.antt =====
-- The variant `Message` of include/itch/messages.hpp, and the list of message types and their wire
-- sizes of include/itch/detail/wire.hpp.
use itchcpp.Prelude.{ℕ, ◌+◌, ◌-◌, List, [], ◌∷◌}
use itchcpp.Message.Shared.{Header}
use itchcpp.Message.Admin.{
  SystemEventMessage, StockDirectoryMessage, StockTradingActionMessage, RegShoMessage,
  MarketParticipantPositionMessage, MwcbDeclineLevelMessage, MwcbStatusMessage,
  IpoQuotingPeriodUpdateMessage, LuldAuctionCollarMessage, OperationalHaltMessage,
}
use itchcpp.Message.Orders.{
  AddOrderMessage, AddOrderMpidAttributionMessage, OrderExecutedMessage,
  OrderExecutedWithPriceMessage, OrderCancelMessage, OrderDeleteMessage, OrderReplaceMessage,
}
use itchcpp.Message.Trades.{
  NonCrossTradeMessage, CrossTradeMessage, BrokenTradeMessage, NoiiMessage,
  RetailPriceImprovementIndicatorMessage, DlcrMessage,
}

pub data Message : Type 0 where
  system_event : SystemEventMessage → Message
  stock_directory : StockDirectoryMessage → Message
  stock_trading_action : StockTradingActionMessage → Message
  reg_sho : RegShoMessage → Message
  market_participant_position : MarketParticipantPositionMessage → Message
  mwcb_decline_level : MwcbDeclineLevelMessage → Message
  mwcb_status : MwcbStatusMessage → Message
  ipo_quoting_period_update : IpoQuotingPeriodUpdateMessage → Message
  luld_auction_collar : LuldAuctionCollarMessage → Message
  operational_halt : OperationalHaltMessage → Message
  add_order : AddOrderMessage → Message
  add_order_mpid_attribution : AddOrderMpidAttributionMessage → Message
  order_executed : OrderExecutedMessage → Message
  order_executed_with_price : OrderExecutedWithPriceMessage → Message
  order_cancel : OrderCancelMessage → Message
  order_delete : OrderDeleteMessage → Message
  order_replace : OrderReplaceMessage → Message
  non_cross_trade : NonCrossTradeMessage → Message
  cross_trade : CrossTradeMessage → Message
  broken_trade : BrokenTradeMessage → Message
  noii : NoiiMessage → Message
  retail_price_improvement_indicator : RetailPriceImprovementIndicatorMessage → Message
  dlcr : DlcrMessage → Message

-- The struct types, as values.
pub data MessageType : Type 0 where
  system_event_message : MessageType
  stock_directory_message : MessageType
  stock_trading_action_message : MessageType
  reg_sho_message : MessageType
  market_participant_position_message : MessageType
  mwcb_decline_level_message : MessageType
  mwcb_status_message : MessageType
  ipo_quoting_period_update_message : MessageType
  luld_auction_collar_message : MessageType
  operational_halt_message : MessageType
  add_order_message : MessageType
  add_order_mpid_attribution_message : MessageType
  order_executed_message : MessageType
  order_executed_with_price_message : MessageType
  order_cancel_message : MessageType
  order_delete_message : MessageType
  order_replace_message : MessageType
  non_cross_trade_message : MessageType
  cross_trade_message : MessageType
  broken_trade_message : MessageType
  noii_message : MessageType
  retail_price_improvement_indicator_message : MessageType
  dlcr_message : MessageType

-- Which struct the variant holds.
unfoldable pub type_of : Message → MessageType
type_of (system_event m) = system_event_message
type_of (stock_directory m) = stock_directory_message
type_of (stock_trading_action m) = stock_trading_action_message
type_of (reg_sho m) = reg_sho_message
type_of (market_participant_position m) = market_participant_position_message
type_of (mwcb_decline_level m) = mwcb_decline_level_message
type_of (mwcb_status m) = mwcb_status_message
type_of (ipo_quoting_period_update m) = ipo_quoting_period_update_message
type_of (luld_auction_collar m) = luld_auction_collar_message
type_of (operational_halt m) = operational_halt_message
type_of (add_order m) = add_order_message
type_of (add_order_mpid_attribution m) = add_order_mpid_attribution_message
type_of (order_executed m) = order_executed_message
type_of (order_executed_with_price m) = order_executed_with_price_message
type_of (order_cancel m) = order_cancel_message
type_of (order_delete m) = order_delete_message
type_of (order_replace m) = order_replace_message
type_of (non_cross_trade m) = non_cross_trade_message
type_of (cross_trade m) = cross_trade_message
type_of (broken_trade m) = broken_trade_message
type_of (noii m) = noii_message
type_of (retail_price_improvement_indicator m) = retail_price_improvement_indicator_message
type_of (dlcr m) = dlcr_message

-- The fields that every alternative has.
unfoldable pub header_of : Message → Header
header_of (system_event m) = m.header
header_of (stock_directory m) = m.header
header_of (stock_trading_action m) = m.header
header_of (reg_sho m) = m.header
header_of (market_participant_position m) = m.header
header_of (mwcb_decline_level m) = m.header
header_of (mwcb_status m) = m.header
header_of (ipo_quoting_period_update m) = m.header
header_of (luld_auction_collar m) = m.header
header_of (operational_halt m) = m.header
header_of (add_order m) = m.header
header_of (add_order_mpid_attribution m) = m.header
header_of (order_executed m) = m.header
header_of (order_executed_with_price m) = m.header
header_of (order_cancel m) = m.header
header_of (order_delete m) = m.header
header_of (order_replace m) = m.header
header_of (non_cross_trade m) = m.header
header_of (cross_trade m) = m.header
header_of (broken_trade m) = m.header
header_of (noii m) = m.header
header_of (retail_price_improvement_indicator m) = m.header
header_of (dlcr m) = m.header

-- The default member initialiser of `message_type`.
unfoldable pub default_message_type : MessageType → ℕ
default_message_type system_event_message = b'S'
default_message_type stock_directory_message = b'R'
default_message_type stock_trading_action_message = b'H'
default_message_type reg_sho_message = b'Y'
default_message_type market_participant_position_message = b'L'
default_message_type mwcb_decline_level_message = b'V'
default_message_type mwcb_status_message = b'W'
default_message_type ipo_quoting_period_update_message = b'K'
default_message_type luld_auction_collar_message = b'J'
default_message_type operational_halt_message = b'h'
default_message_type add_order_message = b'A'
default_message_type add_order_mpid_attribution_message = b'F'
default_message_type order_executed_message = b'E'
default_message_type order_executed_with_price_message = b'C'
default_message_type order_cancel_message = b'X'
default_message_type order_delete_message = b'D'
default_message_type order_replace_message = b'U'
default_message_type non_cross_trade_message = b'P'
default_message_type cross_trade_message = b'Q'
default_message_type broken_trade_message = b'B'
default_message_type noii_message = b'I'
default_message_type retail_price_improvement_indicator_message = b'N'
default_message_type dlcr_message = b'O'

-- The size of the packed struct: `message_type`, `stock_locate`, `tracking_number`, a 64-bit
-- `timestamp`, then the fields of the body.
unfoldable pub size_of : MessageType → ℕ
size_of system_event_message = 1 + 2 + 2 + 8 + 1
size_of stock_directory_message =
    1 + 2 + 2 + 8 + (8 + 1 + 1 + 4 + 1 + 1 + 2 + 1 + 1 + 1 + 1 + 1 + 4 + 1)
size_of stock_trading_action_message = 1 + 2 + 2 + 8 + (8 + 1 + 1 + 4)
size_of reg_sho_message = 1 + 2 + 2 + 8 + (8 + 1)
size_of market_participant_position_message = 1 + 2 + 2 + 8 + (4 + 8 + 1 + 1 + 1)
size_of mwcb_decline_level_message = 1 + 2 + 2 + (8 + 8 + 8) + 8
size_of mwcb_status_message = 1 + 2 + 2 + 8 + 1
size_of ipo_quoting_period_update_message = 1 + 2 + 2 + 8 + (8 + 4 + 1 + 4)
size_of luld_auction_collar_message = 1 + 2 + 2 + 8 + (8 + 4 + 4 + 4 + 4)
size_of operational_halt_message = 1 + 2 + 2 + 8 + (8 + 1 + 1)
size_of add_order_message = 1 + 2 + 2 + 8 + (8 + 1 + 4 + 8 + 4)
size_of add_order_mpid_attribution_message = 1 + 2 + 2 + 8 + (8 + 1 + 4 + 8 + 4 + 4)
size_of order_executed_message = 1 + 2 + 2 + 8 + (8 + 4 + 8)
size_of order_executed_with_price_message = 1 + 2 + 2 + 8 + (8 + 4 + 8 + 1 + 4)
size_of order_cancel_message = 1 + 2 + 2 + 8 + (8 + 4)
size_of order_delete_message = 1 + 2 + 2 + 8 + 8
size_of order_replace_message = 1 + 2 + 2 + 8 + (8 + 8 + 4 + 4)
size_of non_cross_trade_message = 1 + 2 + 2 + 8 + (8 + 1 + 4 + 8 + 4 + 8)
size_of cross_trade_message = 1 + 2 + 2 + 8 + (8 + 8 + 4 + 8 + 1)
size_of broken_trade_message = 1 + 2 + 2 + 8 + 8
size_of noii_message = 1 + 2 + 2 + 8 + (8 + 8 + 1 + 8 + 4 + 4 + 4 + 1 + 1)
size_of retail_price_improvement_indicator_message = 1 + 2 + 2 + 8 + (8 + 1)
size_of dlcr_message = 1 + 2 + 2 + 8 + (8 + 1 + 4 + 4 + 4 + 8 + 4 + 4)

-- sizeof(std::uint64_t) - 6
abbrev pub timestamp_struct_padding : ℕ
timestamp_struct_padding = 8 - 6

unfoldable pub wire_size : MessageType → ℕ
unfolding size_of
wire_size t = size_of t - timestamp_struct_padding

-- What `for_each_message_type` passes to its visitor, in order.
abbrev pub message_types : List (ℕ × MessageType)
message_types =
    (b'S', system_event_message)
    ∷ (b'R', stock_directory_message)
    ∷ (b'H', stock_trading_action_message)
    ∷ (b'Y', reg_sho_message)
    ∷ (b'L', market_participant_position_message)
    ∷ (b'V', mwcb_decline_level_message)
    ∷ (b'W', mwcb_status_message)
    ∷ (b'K', ipo_quoting_period_update_message)
    ∷ (b'J', luld_auction_collar_message)
    ∷ (b'h', operational_halt_message)
    ∷ (b'A', add_order_message)
    ∷ (b'F', add_order_mpid_attribution_message)
    ∷ (b'E', order_executed_message)
    ∷ (b'C', order_executed_with_price_message)
    ∷ (b'X', order_cancel_message)
    ∷ (b'D', order_delete_message)
    ∷ (b'U', order_replace_message)
    ∷ (b'P', non_cross_trade_message)
    ∷ (b'Q', cross_trade_message)
    ∷ (b'B', broken_trade_message)
    ∷ (b'I', noii_message)
    ∷ (b'N', retail_price_improvement_indicator_message)
    ∷ (b'O', dlcr_message)
    ∷ []
