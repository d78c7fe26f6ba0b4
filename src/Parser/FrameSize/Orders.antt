-- ===== src/Parser/FrameSize/Orders.antt =====
-- How many bytes each overload of `unpack_message` in src/parser.cpp takes: the messages on displayed orders.
use itchcpp.Wire.{Endian}
use itchcpp.Message.{Header}
use itchcpp.Parser.UnpackMessage
use itchcpp.Parser.Takes.{
  Takes, Takes-pure, Takes-bind, Takes-unpack, Takes-unpack_char, Takes-unpack_string,
}

module _ (e : Endian) (h : Header) where
  pub add_order_size : Takes 25 (UnpackMessage.add_order e h)
  unfolding UnpackMessage.add_order
  add_order_size = Takes-bind (Takes-unpack e 8) λ _. Takes-bind Takes-unpack_char λ _.
      Takes-bind (Takes-unpack e 4)
        λ _. Takes-bind (Takes-unpack_string 8) λ _. Takes-bind (Takes-unpack e 4) λ _. Takes-pure _

  pub add_order_mpid_attribution_size : Takes 29 (UnpackMessage.add_order_mpid_attribution e h)
  unfolding UnpackMessage.add_order_mpid_attribution
  add_order_mpid_attribution_size = Takes-bind (Takes-unpack e 8) λ _.
      Takes-bind Takes-unpack_char λ _. Takes-bind (Takes-unpack e 4) λ _.
        Takes-bind (Takes-unpack_string 8) λ _.
          Takes-bind (Takes-unpack e 4) λ _. Takes-bind (Takes-unpack_string 4) λ _. Takes-pure _

  pub order_executed_size : Takes 20 (UnpackMessage.order_executed e h)
  unfolding UnpackMessage.order_executed
  order_executed_size =
      Takes-bind (Takes-unpack e 8)
        λ _. Takes-bind (Takes-unpack e 4) λ _. Takes-bind (Takes-unpack e 8) λ _. Takes-pure _

  pub order_executed_with_price_size : Takes 25 (UnpackMessage.order_executed_with_price e h)
  unfolding UnpackMessage.order_executed_with_price
  order_executed_with_price_size = Takes-bind (Takes-unpack e 8) λ _.
      Takes-bind (Takes-unpack e 4) λ _.
        Takes-bind (Takes-unpack e 8)
          λ _. Takes-bind Takes-unpack_char λ _. Takes-bind (Takes-unpack e 4) λ _. Takes-pure _

  pub order_cancel_size : Takes 12 (UnpackMessage.order_cancel e h)
  unfolding UnpackMessage.order_cancel
  order_cancel_size =
      Takes-bind (Takes-unpack e 8) λ _. Takes-bind (Takes-unpack e 4) λ _. Takes-pure _

  pub order_delete_size : Takes 8 (UnpackMessage.order_delete e h)
  unfolding UnpackMessage.order_delete
  order_delete_size = Takes-bind (Takes-unpack e 8) λ _. Takes-pure _

  pub order_replace_size : Takes 24 (UnpackMessage.order_replace e h)
  unfolding UnpackMessage.order_replace
  order_replace_size = Takes-bind (Takes-unpack e 8) λ _.
      Takes-bind (Takes-unpack e 8)
        λ _. Takes-bind (Takes-unpack e 4) λ _. Takes-bind (Takes-unpack e 4) λ _. Takes-pure _
