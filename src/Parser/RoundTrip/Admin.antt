-- ===== src/Parser/RoundTrip/Admin.antt =====
-- `unpack_message` of src/parser.cpp reads back what `write_body` of src/encoder.cpp wrote:
-- the administrative messages.
use itchcpp.Prelude.{ℕ, ◌≡◌, List, [], ◌++◌, some, arith}
use itchcpp.Wire.{Endian}
use itchcpp.Message.{
  IsTyped, SystemEventMessage, StockDirectoryMessage, StockTradingActionMessage, RegShoMessage,
  MarketParticipantPositionMessage, MwcbDeclineLevelMessage, MwcbStatusMessage,
  IpoQuotingPeriodUpdateMessage, LuldAuctionCollarMessage, OperationalHaltMessage, system_event,
  stock_directory, stock_trading_action, reg_sho, market_participant_position, mwcb_decline_level,
  mwcb_status, ipo_quoting_period_update, luld_auction_collar, operational_halt,
}
use itchcpp.Encoder.ByteWriter.{◌>>◌, put_char, put_chars}
use itchcpp.Encoder.WriteBody
use itchcpp.Parser.UnpackMessage
use itchcpp.Parser.Unpack.{pure}
use itchcpp.Parser.Fields.{fields}

module _ (e : Endian) where
  pub system_event_lem :
      (m : SystemEventMessage) (rest : List ℕ)
      → IsTyped (system_event m)
      → UnpackMessage.system_event e m.header (WriteBody.system_event e m [] ++ rest)
        ≡ some (m, rest)
  unfolding UnpackMessage.system_event WriteBody.system_event pure put_char
  system_event_lem m rest h =
      simp (fields, UnpackMessage.system_event, WriteBody.system_event) (ground arith)

  pub stock_directory_lem :
      (m : StockDirectoryMessage) (rest : List ℕ)
      → IsTyped (stock_directory m)
      → UnpackMessage.stock_directory e m.header (WriteBody.stock_directory e m [] ++ rest)
        ≡ some (m, rest)
  unfolding UnpackMessage.stock_directory WriteBody.stock_directory pure ◌>>◌ put_char put_chars
  stock_directory_lem m rest h =
      simp (fields, UnpackMessage.stock_directory, WriteBody.stock_directory, h.1, h.3)
        (ground arith)

  pub stock_trading_action_lem :
      (m : StockTradingActionMessage) (rest : List ℕ)
      → IsTyped (stock_trading_action m)
      → UnpackMessage.stock_trading_action e m.header
          (WriteBody.stock_trading_action e m [] ++ rest)
        ≡ some (m, rest)
  unfolding UnpackMessage.stock_trading_action WriteBody.stock_trading_action pure ◌>>◌ put_char
      put_chars
  stock_trading_action_lem m rest h =
      simp (fields, UnpackMessage.stock_trading_action, WriteBody.stock_trading_action, h.1, h.2)
        (ground arith)

  pub reg_sho_lem :
      (m : RegShoMessage) (rest : List ℕ)
      → IsTyped (reg_sho m)
      → UnpackMessage.reg_sho e m.header (WriteBody.reg_sho e m [] ++ rest) ≡ some (m, rest)
  unfolding UnpackMessage.reg_sho WriteBody.reg_sho pure ◌>>◌ put_char put_chars
  reg_sho_lem m rest h = simp (fields, UnpackMessage.reg_sho, WriteBody.reg_sho, h.1) (ground arith)

  pub market_participant_position_lem :
      (m : MarketParticipantPositionMessage) (rest : List ℕ)
      → IsTyped (market_participant_position m)
      → UnpackMessage.market_participant_position e m.header
          (WriteBody.market_participant_position e m [] ++ rest)
        ≡ some (m, rest)
  unfolding UnpackMessage.market_participant_position WriteBody.market_participant_position pure
      ◌>>◌ put_char put_chars
  market_participant_position_lem m rest h =
      simp
        (
          fields, UnpackMessage.market_participant_position, WriteBody.market_participant_position,
          h.1, h.2,
        )
        (ground arith)

  pub mwcb_decline_level_lem :
      (m : MwcbDeclineLevelMessage) (rest : List ℕ)
      → IsTyped (mwcb_decline_level m)
      → UnpackMessage.mwcb_decline_level e m.header (WriteBody.mwcb_decline_level e m [] ++ rest)
        ≡ some (m, rest)
  unfolding UnpackMessage.mwcb_decline_level WriteBody.mwcb_decline_level pure ◌>>◌
  mwcb_decline_level_lem m rest h =
      simp (fields, UnpackMessage.mwcb_decline_level, WriteBody.mwcb_decline_level) (ground arith)

  pub mwcb_status_lem :
      (m : MwcbStatusMessage) (rest : List ℕ)
      → IsTyped (mwcb_status m)
      → UnpackMessage.mwcb_status e m.header (WriteBody.mwcb_status e m [] ++ rest) ≡ some (m, rest)
  unfolding UnpackMessage.mwcb_status WriteBody.mwcb_status pure put_char
  mwcb_status_lem m rest h =
      simp (fields, UnpackMessage.mwcb_status, WriteBody.mwcb_status) (ground arith)

  pub ipo_quoting_period_update_lem :
      (m : IpoQuotingPeriodUpdateMessage) (rest : List ℕ)
      → IsTyped (ipo_quoting_period_update m)
      → UnpackMessage.ipo_quoting_period_update e m.header
          (WriteBody.ipo_quoting_period_update e m [] ++ rest)
        ≡ some (m, rest)
  unfolding UnpackMessage.ipo_quoting_period_update WriteBody.ipo_quoting_period_update pure ◌>>◌
      put_char put_chars
  ipo_quoting_period_update_lem m rest h =
      simp
        (fields, UnpackMessage.ipo_quoting_period_update, WriteBody.ipo_quoting_period_update, h.1)
        (ground arith)

  pub luld_auction_collar_lem :
      (m : LuldAuctionCollarMessage) (rest : List ℕ)
      → IsTyped (luld_auction_collar m)
      → UnpackMessage.luld_auction_collar e m.header (WriteBody.luld_auction_collar e m [] ++ rest)
        ≡ some (m, rest)
  unfolding UnpackMessage.luld_auction_collar WriteBody.luld_auction_collar pure ◌>>◌ put_chars
  luld_auction_collar_lem m rest h =
      simp (fields, UnpackMessage.luld_auction_collar, WriteBody.luld_auction_collar, h.1)
        (ground arith)

  pub operational_halt_lem :
      (m : OperationalHaltMessage) (rest : List ℕ)
      → IsTyped (operational_halt m)
      → UnpackMessage.operational_halt e m.header (WriteBody.operational_halt e m [] ++ rest)
        ≡ some (m, rest)
  unfolding UnpackMessage.operational_halt WriteBody.operational_halt pure ◌>>◌ put_char put_chars
  operational_halt_lem m rest h =
      simp (fields, UnpackMessage.operational_halt, WriteBody.operational_halt, h.1) (ground arith)
