-- ===== src/Overlay/OrderReplaceView.antt =====
-- The class `OrderReplaceView` of include/itch/overlay.hpp, against the decoder of its message in
-- src/parser.cpp.
use itchcpp.Prelude.{ℕ, ◌≤◌, ◌≡◌, refl, ◌∙◌, List, Option, some, length, drop, arith}
use itchcpp.Wire.{Endian}
use itchcpp.Message.{
  OrderReplaceMessage, order_replace, order_replace_message, default_message_type,
}
use itchcpp.Parser.Unpack.{pure}
use itchcpp.Parser.UnpackMessage
use itchcpp.Parser.Dispatch.{unpack_message, decode_typed}
use itchcpp.Overlay.{MessageView, read, stock_locate, tracking_number, timestamp}
use itchcpp.Overlay.Readers.{
  step, value_of, header_at, unpack_at, read_at, decode_typed-header, stock_locate-header_at,
  tracking_number-header_at, timestamp-header_at,
}

unfoldable pub original_order_reference_number : Endian → MessageView → Option ℕ
unfolding read
original_order_reference_number e v = read e 8 v 11

unfoldable pub new_order_reference_number : Endian → MessageView → Option ℕ
unfolding read
new_order_reference_number e v = read e 8 v 19

unfoldable pub shares : Endian → MessageView → Option ℕ
unfolding read
shares e v = read e 4 v 27

unfoldable pub price : Endian → MessageView → Option ℕ
unfolding read
price e v = read e 4 v 31

-- The view shows the fields of the message.
pub record Agrees (e : Endian) (v : MessageView) (m : OrderReplaceMessage) : Type 0 where
  pub same_stock_locate : stock_locate e v ≡ some m.stock_locate
  pub same_tracking_number : tracking_number e v ≡ some m.tracking_number
  pub same_timestamp : timestamp e v ≡ some m.timestamp
  pub same_original_order_reference_number :
      original_order_reference_number e v ≡ some m.original_order_reference_number
  pub same_new_order_reference_number :
      new_order_reference_number e v ≡ some m.new_order_reference_number
  pub same_shares : shares e v ≡ some m.shares
  pub same_price : price e v ≡ some m.price

abbrev pub message_at : Endian → List ℕ → OrderReplaceMessage
message_at e bytes = record {
  header = header_at e b'U' bytes;
  original_order_reference_number = value_of e 8 11 bytes;
  new_order_reference_number = value_of e 8 19 bytes;
  shares = value_of e 4 27 bytes;
  price = value_of e 4 31 bytes;
}

pub decode_typed-message_at :
    (e : Endian) (bytes : List ℕ)
    → 35 ≤ length bytes
    → decode_typed e order_replace_message bytes
      ≡ some (order_replace (message_at e bytes), drop 35 bytes)
unfolding unpack_message UnpackMessage.order_replace pure default_message_type
decode_typed-message_at e bytes fits =
    decode_typed-header e order_replace_message bytes (omega arith)
    ∙ step _ _
        (step _ _ (unpack_at 11 19 bytes (omega arith) e 8 refl) (
          step _ _ (unpack_at 19 27 bytes (omega arith) e 8 refl) (
            step _ _ (unpack_at 27 31 bytes (omega arith) e 4 refl)
              (step _ _ (unpack_at 31 35 bytes (omega arith) e 4 refl) refl))))
        refl

pub message_at-Agrees :
    (e : Endian) (v : MessageView) → 35 ≤ length v.bytes → Agrees e v (message_at e v.bytes)
unfolding original_order_reference_number new_order_reference_number shares price
message_at-Agrees e v fits = record {
  same_stock_locate = stock_locate-header_at e v b'U' (omega arith);
  same_tracking_number = tracking_number-header_at e v b'U' (omega arith);
  same_timestamp = timestamp-header_at e v b'U' (omega arith);
  same_original_order_reference_number = read_at e 8 v 11 19 (omega arith) refl;
  same_new_order_reference_number = read_at e 8 v 19 27 (omega arith) refl;
  same_shares = read_at e 4 v 27 31 (omega arith) refl;
  same_price = read_at e 4 v 31 35 (omega arith) refl;
}
