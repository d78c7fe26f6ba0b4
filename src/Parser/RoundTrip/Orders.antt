-- ===== src/Parser/RoundTrip/Orders.antt =====
-- `unpack_message` of src/parser.cpp reads back what `write_body` of src/encoder.cpp wrote:
-- the messages on displayed orders.
use itchcpp.Prelude.{ℕ, ◌≡◌, List, [], ◌++◌, some, arith}
use itchcpp.Wire.{Endian}
use itchcpp.Message.{
  IsTyped, AddOrderMessage, AddOrderMpidAttributionMessage, OrderExecutedMessage,
  OrderExecutedWithPriceMessage, OrderCancelMessage, OrderDeleteMessage, OrderReplaceMessage,
  add_order, add_order_mpid_attribution, order_executed, order_executed_with_price, order_cancel,
  order_delete, order_replace,
}
use itchcpp.Encoder.ByteWriter.{◌>>◌, put_char, put_chars}
use itchcpp.Encoder.WriteBody
use itchcpp.Parser.UnpackMessage
use itchcpp.Parser.Unpack.{pure}
use itchcpp.Parser.Fields.{fields}

module _ (e : Endian) where
  pub add_order_lem :
      (m : AddOrderMessage) (rest : List ℕ)
      → IsTyped (add_order m)
      → UnpackMessage.add_order e m.header (WriteBody.add_order e m [] ++ rest) ≡ some (m, rest)
  unfolding UnpackMessage.add_order WriteBody.add_order pure ◌>>◌ put_char put_chars
  add_order_lem m rest h =
      simp (fields, UnpackMessage.add_order, WriteBody.add_order, h.3) (ground arith)

  pub add_order_mpid_attribution_lem :
      (m : AddOrderMpidAttributionMessage) (rest : List ℕ)
      → IsTyped (add_order_mpid_attribution m)
      → UnpackMessage.add_order_mpid_attribution e m.header
          (WriteBody.add_order_mpid_attribution e m [] ++ rest)
        ≡ some (m, rest)
  unfolding UnpackMessage.add_order_mpid_attribution WriteBody.add_order_mpid_attribution pure ◌>>◌
      put_char put_chars
  add_order_mpid_attribution_lem m rest h =
      simp
        (
          fields, UnpackMessage.add_order_mpid_attribution, WriteBody.add_order_mpid_attribution,
          h.3, h.5,
        )
        (ground arith)

  pub order_executed_lem :
      (m : OrderExecutedMessage) (rest : List ℕ)
      → IsTyped (order_executed m)
      → UnpackMessage.order_executed e m.header (WriteBody.order_executed e m [] ++ rest)
        ≡ some (m, rest)
  unfolding UnpackMessage.order_executed WriteBody.order_executed pure ◌>>◌
  order_executed_lem m rest h =
      simp (fields, UnpackMessage.order_executed, WriteBody.order_executed) (ground arith)

  pub order_executed_with_price_lem :
      (m : OrderExecutedWithPriceMessage) (rest : List ℕ)
      → IsTyped (order_executed_with_price m)
      → UnpackMessage.order_executed_with_price e m.header
          (WriteBody.order_executed_with_price e m [] ++ rest)
        ≡ some (m, rest)
  unfolding UnpackMessage.order_executed_with_price WriteBody.order_executed_with_price pure ◌>>◌
      put_char
  order_executed_with_price_lem m rest h =
      simp (fields, UnpackMessage.order_executed_with_price, WriteBody.order_executed_with_price)
        (ground arith)

  pub order_cancel_lem :
      (m : OrderCancelMessage) (rest : List ℕ)
      → IsTyped (order_cancel m)
      → UnpackMessage.order_cancel e m.header (WriteBody.order_cancel e m [] ++ rest)
        ≡ some (m, rest)
  unfolding UnpackMessage.order_cancel WriteBody.order_cancel pure ◌>>◌
  order_cancel_lem m rest h =
      simp (fields, UnpackMessage.order_cancel, WriteBody.order_cancel) (ground arith)

  pub order_delete_lem :
      (m : OrderDeleteMessage) (rest : List ℕ)
      → IsTyped (order_delete m)
      → UnpackMessage.order_delete e m.header (WriteBody.order_delete e m [] ++ rest)
        ≡ some (m, rest)
  unfolding UnpackMessage.order_delete WriteBody.order_delete pure
  order_delete_lem m rest h =
      simp (fields, UnpackMessage.order_delete, WriteBody.order_delete) (ground arith)

  pub order_replace_lem :
      (m : OrderReplaceMessage) (rest : List ℕ)
      → IsTyped (order_replace m)
      → UnpackMessage.order_replace e m.header (WriteBody.order_replace e m [] ++ rest)
        ≡ some (m, rest)
  unfolding UnpackMessage.order_replace WriteBody.order_replace pure ◌>>◌
  order_replace_lem m rest h =
      simp (fields, UnpackMessage.order_replace, WriteBody.order_replace) (ground arith)
