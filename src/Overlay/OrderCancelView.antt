-- ===== src/Overlay/OrderCancelView.antt =====
-- The class `OrderCancelView` of include/itch/overlay.hpp, against the decoder of its message in
-- src/parser.cpp.
use itchcpp.Prelude.{ℕ, ◌≤◌, ◌≡◌, refl, ◌∙◌, List, Option, some, length, drop, arith}
use itchcpp.Wire.{Endian}
use itchcpp.Message.{OrderCancelMessage, order_cancel, order_cancel_message, default_message_type}
use itchcpp.Parser.Unpack.{pure}
use itchcpp.Parser.UnpackMessage
use itchcpp.Parser.Dispatch.{unpack_message, decode_typed}
use itchcpp.Overlay.{MessageView, read, stock_locate, tracking_number, timestamp}
use itchcpp.Overlay.Readers.{
  step, value_of, header_at, unpack_at, read_at, decode_typed-header, stock_locate-header_at,
  tracking_number-header_at, timestamp-header_at,
}

unfoldable pub order_reference_number : Endian → MessageView → Option ℕ
unfolding read
order_reference_number e v = read e 8 v 11

unfoldable pub cancelled_shares : Endian → MessageView → Option ℕ
unfolding read
cancelled_shares e v = read e 4 v 19

-- The view shows the fields of the message.
pub record Agrees (e : Endian) (v : MessageView) (m : OrderCancelMessage) : Type 0 where
  pub same_stock_locate : stock_locate e v ≡ some m.stock_locate
  pub same_tracking_number : tracking_number e v ≡ some m.tracking_number
  pub same_timestamp : timestamp e v ≡ some m.timestamp
  pub same_order_reference_number : order_reference_number e v ≡ some m.order_reference_number
  pub same_cancelled_shares : cancelled_shares e v ≡ some m.cancelled_shares

abbrev pub message_at : Endian → List ℕ → OrderCancelMessage
message_at e bytes = record {
  header = header_at e b'X' bytes;
  order_reference_number = value_of e 8 11 bytes;
  cancelled_shares = value_of e 4 19 bytes;
}

pub decode_typed-message_at :
    (e : Endian) (bytes : List ℕ)
    → 23 ≤ length bytes
    → decode_typed e order_cancel_message bytes
      ≡ some (order_cancel (message_at e bytes), drop 23 bytes)
unfolding unpack_message UnpackMessage.order_cancel pure default_message_type
decode_typed-message_at e bytes fits =
    decode_typed-header e order_cancel_message bytes (omega arith)
    ∙ step _ _
        (step _ _ (unpack_at 11 19 bytes (omega arith) e 8 refl)
          (step _ _ (unpack_at 19 23 bytes (omega arith) e 4 refl) refl))
        refl

pub message_at-Agrees :
    (e : Endian) (v : MessageView) → 23 ≤ length v.bytes → Agrees e v (message_at e v.bytes)
unfolding order_reference_number cancelled_shares
message_at-Agrees e v fits = record {
  same_stock_locate = stock_locate-header_at e v b'X' (omega arith);
  same_tracking_number = tracking_number-header_at e v b'X' (omega arith);
  same_timestamp = timestamp-header_at e v b'X' (omega arith);
  same_order_reference_number = read_at e 8 v 11 19 (omega arith) refl;
  same_cancelled_shares = read_at e 4 v 19 23 (omega arith) refl;
}
