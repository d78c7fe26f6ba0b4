-- ===== src/Overlay/AddOrderView.antt =====
-- The class `AddOrderView` of include/itch/overlay.hpp, against the decoder of its message in
-- src/parser.cpp.
use itchcpp.Prelude.{ℕ, ◌≤◌, ◌≡◌, refl, ◌∙◌, List, Option, some, length, take, drop, arith}
use itchcpp.Wire.{Endian}
use itchcpp.Message.{AddOrderMessage, add_order, add_order_message, default_message_type}
use itchcpp.Parser.Unpack.{pure}
use itchcpp.Parser.UnpackMessage
use itchcpp.Parser.Dispatch.{unpack_message, decode_typed}
use itchcpp.Overlay.{
  MessageView, read, read_char, read_stock, stock_locate, tracking_number, timestamp,
}
use itchcpp.Overlay.Readers.{
  step, value_of, char_of, header_at, unpack_at, unpack_string_at, unpack_char_at, read_at,
  read_char_at, read_stock_at, decode_typed-header, stock_locate-header_at,
  tracking_number-header_at, timestamp-header_at,
}

unfoldable pub order_reference_number : Endian → MessageView → Option ℕ
unfolding read
order_reference_number e v = read e 8 v 11

unfoldable pub buy_sell_indicator : MessageView → Option ℕ
unfolding read_char
buy_sell_indicator v = read_char v.bytes 19

unfoldable pub shares : Endian → MessageView → Option ℕ
unfolding read
shares e v = read e 4 v 20

unfoldable pub stock : MessageView → Option (List ℕ)
unfolding read_stock
stock v = read_stock v.bytes 24

unfoldable pub price : Endian → MessageView → Option ℕ
unfolding read
price e v = read e 4 v 32

-- The view shows the fields of the message.
pub record Agrees (e : Endian) (v : MessageView) (m : AddOrderMessage) : Type 0 where
  pub same_stock_locate : stock_locate e v ≡ some m.stock_locate
  pub same_tracking_number : tracking_number e v ≡ some m.tracking_number
  pub same_timestamp : timestamp e v ≡ some m.timestamp
  pub same_order_reference_number : order_reference_number e v ≡ some m.order_reference_number
  pub same_buy_sell_indicator : buy_sell_indicator v ≡ some m.buy_sell_indicator
  pub same_shares : shares e v ≡ some m.shares
  pub same_stock : stock v ≡ some m.stock
  pub same_price : price e v ≡ some m.price

abbrev pub message_at : Endian → List ℕ → AddOrderMessage
message_at e bytes = record {
  header = header_at e b'A' bytes;
  order_reference_number = value_of e 8 11 bytes;
  buy_sell_indicator = char_of 19 bytes;
  shares = value_of e 4 20 bytes;
  stock = take 8 (drop 24 bytes);
  price = value_of e 4 32 bytes;
}

pub decode_typed-message_at :
    (e : Endian) (bytes : List ℕ)
    → 36 ≤ length bytes
    → decode_typed e add_order_message bytes ≡ some (add_order (message_at e bytes), drop 36 bytes)
unfolding unpack_message UnpackMessage.add_order pure default_message_type
decode_typed-message_at e bytes fits =
    decode_typed-header e add_order_message bytes (omega arith)
    ∙ step _ _
        (step _ _ (unpack_at 11 19 bytes (omega arith) e 8 refl) (
          step _ _ (unpack_char_at 19 bytes (omega arith)) (
            step _ _ (unpack_at 20 24 bytes (omega arith) e 4 refl) (
              step _ _ (unpack_string_at 24 32 bytes (omega arith) 8 refl)
                (step _ _ (unpack_at 32 36 bytes (omega arith) e 4 refl) refl)))))
        refl

pub message_at-Agrees :
    (e : Endian) (v : MessageView) → 36 ≤ length v.bytes → Agrees e v (message_at e v.bytes)
unfolding order_reference_number buy_sell_indicator shares stock price
message_at-Agrees e v fits = record {
  same_stock_locate = stock_locate-header_at e v b'A' (omega arith);
  same_tracking_number = tracking_number-header_at e v b'A' (omega arith);
  same_timestamp = timestamp-header_at e v b'A' (omega arith);
  same_order_reference_number = read_at e 8 v 11 19 (omega arith) refl;
  same_buy_sell_indicator = read_char_at 19 v.bytes (omega arith);
  same_shares = read_at e 4 v 20 24 (omega arith) refl;
  same_stock = read_stock_at 24 32 v.bytes (omega arith) refl;
  same_price = read_at e 4 v 32 36 (omega arith) refl;
}
