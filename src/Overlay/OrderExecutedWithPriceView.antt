-- ===== src/Overlay/OrderExecutedWithPriceView.antt =====
-- The class `OrderExecutedWithPriceView` of include/itch/overlay.hpp, against the decoder of its message in
-- src/parser.cpp.
use itchcpp.Prelude.{ℕ, ◌≤◌, ◌≡◌, refl, ◌∙◌, List, Option, some, length, drop, arith}
use itchcpp.Wire.{Endian}
use itchcpp.Message.{
  OrderExecutedWithPriceMessage, order_executed_with_price, order_executed_with_price_message,
  default_message_type,
}
use itchcpp.Parser.Unpack.{pure}
use itchcpp.Parser.UnpackMessage
use itchcpp.Parser.Dispatch.{unpack_message, decode_typed}
use itchcpp.Overlay.{MessageView, read, read_char, stock_locate, tracking_number, timestamp}
use itchcpp.Overlay.Readers.{
  step, value_of, char_of, header_at, unpack_at, unpack_char_at, read_at, read_char_at,
  decode_typed-header, stock_locate-header_at, tracking_number-header_at, timestamp-header_at,
}

unfoldable pub order_reference_number : Endian → MessageView → Option ℕ
unfolding read
order_reference_number e v = read e 8 v 11

unfoldable pub executed_shares : Endian → MessageView → Option ℕ
unfolding read
executed_shares e v = read e 4 v 19

unfoldable pub match_number : Endian → MessageView → Option ℕ
unfolding read
match_number e v = read e 8 v 23

unfoldable pub printable : MessageView → Option ℕ
unfolding read_char
printable v = read_char v.bytes 31

unfoldable pub execution_price : Endian → MessageView → Option ℕ
unfolding read
execution_price e v = read e 4 v 32

-- The view shows the fields of the message.
pub record Agrees (e : Endian) (v : MessageView) (m : OrderExecutedWithPriceMessage) : Type 0 where
  pub same_stock_locate : stock_locate e v ≡ some m.stock_locate
  pub same_tracking_number : tracking_number e v ≡ some m.tracking_number
  pub same_timestamp : timestamp e v ≡ some m.timestamp
  pub same_order_reference_number : order_reference_number e v ≡ some m.order_reference_number
  pub same_executed_shares : executed_shares e v ≡ some m.executed_shares
  pub same_match_number : match_number e v ≡ some m.match_number
  pub same_printable : printable v ≡ some m.printable
  pub same_execution_price : execution_price e v ≡ some m.execution_price

abbrev pub message_at : Endian → List ℕ → OrderExecutedWithPriceMessage
message_at e bytes = record {
  header = header_at e b'C' bytes;
  order_reference_number = value_of e 8 11 bytes;
  executed_shares = value_of e 4 19 bytes;
  match_number = value_of e 8 23 bytes;
  printable = char_of 31 bytes;
  execution_price = value_of e 4 32 bytes;
}

pub decode_typed-message_at :
    (e : Endian) (bytes : List ℕ)
    → 36 ≤ length bytes
    → decode_typed e order_executed_with_price_message bytes
      ≡ some (order_executed_with_price (message_at e bytes), drop 36 bytes)
unfolding unpack_message UnpackMessage.order_executed_with_price pure default_message_type
decode_typed-message_at e bytes fits =
    decode_typed-header e order_executed_with_price_message bytes (omega arith)
    ∙ step _ _
        (step _ _ (unpack_at 11 19 bytes (omega arith) e 8 refl) (
          step _ _ (unpack_at 19 23 bytes (omega arith) e 4 refl) (
            step _ _ (unpack_at 23 31 bytes (omega arith) e 8 refl) (
              step _ _ (unpack_char_at 31 bytes (omega arith))
                (step _ _ (unpack_at 32 36 bytes (omega arith) e 4 refl) refl)))))
        refl

pub message_at-Agrees :
    (e : Endian) (v : MessageView) → 36 ≤ length v.bytes → Agrees e v (message_at e v.bytes)
unfolding order_reference_number executed_shares match_number printable execution_price
message_at-Agrees e v fits = record {
  same_stock_locate = stock_locate-header_at e v b'C' (omega arith);
  same_tracking_number = tracking_number-header_at e v b'C' (omega arith);
  same_timestamp = timestamp-header_at e v b'C' (omega arith);
  same_order_reference_number = read_at e 8 v 11 19 (omega arith) refl;
  same_executed_shares = read_at e 4 v 19 23 (omega arith) refl;
  same_match_number = read_at e 8 v 23 31 (omega arith) refl;
  same_printable = read_char_at 31 v.bytes (omega arith);
  same_execution_price = read_at e 4 v 32 36 (omega arith) refl;
}
