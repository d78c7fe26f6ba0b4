-- ===== src/Parser/RoundTrip/Trades.antt =====
-- `unpack_message` of src/parser.cpp reads back what `write_body` of src/encoder.cpp wrote:
-- the messages on trades, auctions and imbalances.
use itchcpp.Prelude.{ℕ, ◌≡◌, List, [], ◌++◌, some, arith}
use itchcpp.Wire.{Endian}
use itchcpp.Message.{
  IsTyped, NonCrossTradeMessage, CrossTradeMessage, BrokenTradeMessage, NoiiMessage,
  RetailPriceImprovementIndicatorMessage, DlcrMessage, non_cross_trade, cross_trade, broken_trade,
  noii, retail_price_improvement_indicator, dlcr,
}
use itchcpp.Encoder.ByteWriter.{◌>>◌, put_char, put_chars}
use itchcpp.Encoder.WriteBody
use itchcpp.Parser.UnpackMessage
use itchcpp.Parser.Unpack.{pure}
use itchcpp.Parser.Fields.{fields}

module _ (e : Endian) where
  pub non_cross_trade_lem :
      (m : NonCrossTradeMessage) (rest : List ℕ)
      → IsTyped (non_cross_trade m)
      → UnpackMessage.non_cross_trade e m.header (WriteBody.non_cross_trade e m [] ++ rest)
        ≡ some (m, rest)
  unfolding UnpackMessage.non_cross_trade WriteBody.non_cross_trade pure ◌>>◌ put_char put_chars
  non_cross_trade_lem m rest h =
      simp (fields, UnpackMessage.non_cross_trade, WriteBody.non_cross_trade, h.3) (ground arith)

  pub cross_trade_lem :
      (m : CrossTradeMessage) (rest : List ℕ)
      → IsTyped (cross_trade m)
      → UnpackMessage.cross_trade e m.header (WriteBody.cross_trade e m [] ++ rest) ≡ some (m, rest)
  unfolding UnpackMessage.cross_trade WriteBody.cross_trade pure ◌>>◌ put_char put_chars
  cross_trade_lem m rest h =
      simp (fields, UnpackMessage.cross_trade, WriteBody.cross_trade, h.2) (ground arith)

  pub broken_trade_lem :
      (m : BrokenTradeMessage) (rest : List ℕ)
      → IsTyped (broken_trade m)
      → UnpackMessage.broken_trade e m.header (WriteBody.broken_trade e m [] ++ rest)
        ≡ some (m, rest)
  unfolding UnpackMessage.broken_trade WriteBody.broken_trade pure
  broken_trade_lem m rest h =
      simp (fields, UnpackMessage.broken_trade, WriteBody.broken_trade) (ground arith)

  pub noii_lem :
      (m : NoiiMessage) (rest : List ℕ)
      → IsTyped (noii m)
      → UnpackMessage.noii e m.header (WriteBody.noii e m [] ++ rest) ≡ some (m, rest)
  unfolding UnpackMessage.noii WriteBody.noii pure ◌>>◌ put_char put_chars
  noii_lem m rest h = simp (fields, UnpackMessage.noii, WriteBody.noii, h.3) (ground arith)

  pub retail_price_improvement_indicator_lem :
      (m : RetailPriceImprovementIndicatorMessage) (rest : List ℕ)
      → IsTyped (retail_price_improvement_indicator m)
      → UnpackMessage.retail_price_improvement_indicator e m.header
          (WriteBody.retail_price_improvement_indicator e m [] ++ rest)
        ≡ some (m, rest)
  unfolding UnpackMessage.retail_price_improvement_indicator
      WriteBody.retail_price_improvement_indicator pure ◌>>◌ put_char put_chars
  retail_price_improvement_indicator_lem m rest h =
      simp
        (
          fields, UnpackMessage.retail_price_improvement_indicator,
          WriteBody.retail_price_improvement_indicator, h.1,
        )
        (ground arith)

  pub dlcr_lem :
      (m : DlcrMessage) (rest : List ℕ)
      → IsTyped (dlcr m)
      → UnpackMessage.dlcr e m.header (WriteBody.dlcr e m [] ++ rest) ≡ some (m, rest)
  unfolding UnpackMessage.dlcr WriteBody.dlcr pure ◌>>◌ put_char put_chars
  dlcr_lem m rest h = simp (fields, UnpackMessage.dlcr, WriteBody.dlcr, h.1) (ground arith)
