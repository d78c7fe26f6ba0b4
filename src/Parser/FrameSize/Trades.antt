-- ===== src/Parser/FrameSize/Trades.antt =====
-- How many bytes each overload of `unpack_message` in src/parser.cpp takes: the messages on trades, auctions and imbalances.
use itchcpp.Wire.{Endian}
use itchcpp.Message.{Header}
use itchcpp.Parser.UnpackMessage
use itchcpp.Parser.Takes.{
  Takes, Takes-pure, Takes-bind, Takes-unpack, Takes-unpack_char, Takes-unpack_string,
}

module _ (e : Endian) (h : Header) where
  pub non_cross_trade_size : Takes 33 (UnpackMessage.non_cross_trade e h)
  unfolding UnpackMessage.non_cross_trade
  non_cross_trade_size = Takes-bind (Takes-unpack e 8) λ _. Takes-bind Takes-unpack_char λ _.
      Takes-bind (Takes-unpack e 4) λ _.
        Takes-bind (Takes-unpack_string 8)
          λ _. Takes-bind (Takes-unpack e 4) λ _. Takes-bind (Takes-unpack e 8) λ _. Takes-pure _

  pub cross_trade_size : Takes 29 (UnpackMessage.cross_trade e h)
  unfolding UnpackMessage.cross_trade
  cross_trade_size = Takes-bind (Takes-unpack e 8) λ _. Takes-bind (Takes-unpack_string 8) λ _.
      Takes-bind (Takes-unpack e 4)
        λ _. Takes-bind (Takes-unpack e 8) λ _. Takes-bind Takes-unpack_char λ _. Takes-pure _

  pub broken_trade_size : Takes 8 (UnpackMessage.broken_trade e h)
  unfolding UnpackMessage.broken_trade
  broken_trade_size = Takes-bind (Takes-unpack e 8) λ _. Takes-pure _

  pub noii_size : Takes 39 (UnpackMessage.noii e h)
  unfolding UnpackMessage.noii
  noii_size = Takes-bind (Takes-unpack e 8) λ _. Takes-bind (Takes-unpack e 8) λ _.
      Takes-bind Takes-unpack_char λ _. Takes-bind (Takes-unpack_string 8) λ _.
        Takes-bind (Takes-unpack e 4) λ _. Takes-bind (Takes-unpack e 4) λ _.
          Takes-bind (Takes-unpack e 4)
            λ _. Takes-bind Takes-unpack_char λ _. Takes-bind Takes-unpack_char λ _. Takes-pure _

  pub retail_price_improvement_indicator_size :
      Takes 9 (UnpackMessage.retail_price_improvement_indicator e h)
  unfolding UnpackMessage.retail_price_improvement_indicator
  retail_price_improvement_indicator_size =
      Takes-bind (Takes-unpack_string 8) λ _. Takes-bind Takes-unpack_char λ _. Takes-pure _

  pub dlcr_size : Takes 37 (UnpackMessage.dlcr e h)
  unfolding UnpackMessage.dlcr
  dlcr_size = Takes-bind (Takes-unpack_string 8) λ _. Takes-bind Takes-unpack_char λ _.
      Takes-bind (Takes-unpack e 4) λ _. Takes-bind (Takes-unpack e 4) λ _.
        Takes-bind (Takes-unpack e 4) λ _.
          Takes-bind (Takes-unpack e 8)
            λ _. Takes-bind (Takes-unpack e 4) λ _. Takes-bind (Takes-unpack e 4) λ _. Takes-pure _
