-- ===== src/Overlay/Agreement.antt =====
-- Every view of include/itch/overlay.hpp against the eager decoder of src/parser.cpp.
use itchcpp.Prelude.{◌≤◌, ◌≡◌, refl, some, length, drop, arith}
use itchcpp.Wire.{Endian}
use itchcpp.Message.{
  Message, MessageType, wire_size, header_of, default_message_type, AddOrderMessage, add_order,
  add_order_message, OrderExecutedMessage, order_executed, order_executed_message,
  OrderExecutedWithPriceMessage, order_executed_with_price, order_executed_with_price_message,
  OrderCancelMessage, order_cancel, order_cancel_message, OrderDeleteMessage, order_delete,
  order_delete_message, OrderReplaceMessage, order_replace, order_replace_message,
  NonCrossTradeMessage, non_cross_trade, non_cross_trade_message,
}
use itchcpp.Parser.Dispatch.{decode_typed}
use itchcpp.Overlay.{MessageView, type}
use itchcpp.Overlay.Readers.{char_of, read_char_at}
use itchcpp.Overlay.AddOrderView
use itchcpp.Overlay.OrderExecutedView
use itchcpp.Overlay.OrderExecutedWithPriceView
use itchcpp.Overlay.OrderCancelView
use itchcpp.Overlay.OrderDeleteView
use itchcpp.Overlay.OrderReplaceView
use itchcpp.Overlay.NonCrossTradeView

-- The classes derived from `MessageView`, and the type of message that each is for.
pub data ViewClass : Type 0 where
  add_order_view order_executed_view order_executed_with_price_view order_cancel_view
        order_delete_view order_replace_view non_cross_trade_view :
      ViewClass

unfoldable pub message_type_of : ViewClass → MessageType
message_type_of add_order_view = add_order_message
message_type_of order_executed_view = order_executed_message
message_type_of order_executed_with_price_view = order_executed_with_price_message
message_type_of order_cancel_view = order_cancel_message
message_type_of order_delete_view = order_delete_message
message_type_of order_replace_view = order_replace_message
message_type_of non_cross_trade_view = non_cross_trade_message

-- The view, read as the class, has the fields of the message.
abbrev pub Shows : Endian → MessageView → ViewClass → Message → Type 0
Shows e v add_order_view m = (r : AddOrderMessage) × (m ≡ add_order r) × AddOrderView.Agrees e v r
Shows e v order_executed_view m =
    (r : OrderExecutedMessage) × (m ≡ order_executed r) × OrderExecutedView.Agrees e v r
Shows e v order_executed_with_price_view m =
    (r : OrderExecutedWithPriceMessage) × (m ≡ order_executed_with_price r)
    × OrderExecutedWithPriceView.Agrees e v r
Shows e v order_cancel_view m =
    (r : OrderCancelMessage) × (m ≡ order_cancel r) × OrderCancelView.Agrees e v r
Shows e v order_delete_view m =
    (r : OrderDeleteMessage) × (m ≡ order_delete r) × OrderDeleteView.Agrees e v r
Shows e v order_replace_view m =
    (r : OrderReplaceMessage) × (m ≡ order_replace r) × OrderReplaceView.Agrees e v r
Shows e v non_cross_trade_view m =
    (r : NonCrossTradeMessage) × (m ≡ non_cross_trade r) × NonCrossTradeView.Agrees e v r

-- On any bytes that are as long as the wire size of the message of a view class, or longer, the
-- eager decoder of that message succeeds, and every accessor of the view but `type`, those of the
-- header included, is within the bytes and gives the field that was decoded. The decoded letter is the
-- default of the struct, and `type` gives the first byte.
pub decode_typed-Shows :
    (e : Endian) (c : ViewClass) (v : MessageView)
    → wire_size (message_type_of c) ≤ length v.bytes
    → (m : Message) × (decode_typed e (message_type_of c) v.bytes
        ≡ some (m, drop (wire_size (message_type_of c)) v.bytes))
      × Shows e v c m
      × ((header_of m).message_type ≡ default_message_type (message_type_of c))
      × (type v ≡ some (char_of 0 v.bytes))
unfolding wire_size message_type_of header_of default_message_type type
decode_typed-Shows e add_order_view v fits = (
  add_order (AddOrderView.message_at e v.bytes),
  AddOrderView.decode_typed-message_at e v.bytes fits,
  (AddOrderView.message_at e v.bytes, refl, AddOrderView.message_at-Agrees e v fits),
  refl,
  read_char_at 0 v.bytes (omega arith),
)
decode_typed-Shows e order_executed_view v fits = (
  order_executed (OrderExecutedView.message_at e v.bytes),
  OrderExecutedView.decode_typed-message_at e v.bytes fits,
  (OrderExecutedView.message_at e v.bytes, refl, OrderExecutedView.message_at-Agrees e v fits),
  refl,
  read_char_at 0 v.bytes (omega arith),
)
decode_typed-Shows e order_executed_with_price_view v fits = (
  order_executed_with_price (OrderExecutedWithPriceView.message_at e v.bytes),
  OrderExecutedWithPriceView.decode_typed-message_at e v.bytes fits,
  (
    OrderExecutedWithPriceView.message_at e v.bytes,
    refl,
    OrderExecutedWithPriceView.message_at-Agrees e v fits,
  ),
  refl,
  read_char_at 0 v.bytes (omega arith),
)
decode_typed-Shows e order_cancel_view v fits = (
  order_cancel (OrderCancelView.message_at e v.bytes),
  OrderCancelView.decode_typed-message_at e v.bytes fits,
  (OrderCancelView.message_at e v.bytes, refl, OrderCancelView.message_at-Agrees e v fits),
  refl,
  read_char_at 0 v.bytes (omega arith),
)
decode_typed-Shows e order_delete_view v fits = (
  order_delete (OrderDeleteView.message_at e v.bytes),
  OrderDeleteView.decode_typed-message_at e v.bytes fits,
  (OrderDeleteView.message_at e v.bytes, refl, OrderDeleteView.message_at-Agrees e v fits),
  refl,
  read_char_at 0 v.bytes (omega arith),
)
decode_typed-Shows e order_replace_view v fits = (
  order_replace (OrderReplaceView.message_at e v.bytes),
  OrderReplaceView.decode_typed-message_at e v.bytes fits,
  (OrderReplaceView.message_at e v.bytes, refl, OrderReplaceView.message_at-Agrees e v fits),
  refl,
  read_char_at 0 v.bytes (omega arith),
)
decode_typed-Shows e non_cross_trade_view v fits = (
  non_cross_trade (NonCrossTradeView.message_at e v.bytes),
  NonCrossTradeView.decode_typed-message_at e v.bytes fits,
  (NonCrossTradeView.message_at e v.bytes, refl, NonCrossTradeView.message_at-Agrees e v fits),
  refl,
  read_char_at 0 v.bytes (omega arith),
)
