-- ===== src/Parser/FrameSize/Admin.antt =====
-- How many bytes each overload of `unpack_message` in src/parser.cpp takes: the administrative messages.
use itchcpp.Wire.{Endian}
use itchcpp.Message.{Header}
use itchcpp.Parser.UnpackMessage
use itchcpp.Parser.Takes.{
  Takes, Takes-pure, Takes-bind, Takes-unpack, Takes-unpack_char, Takes-unpack_string,
}

module _ (e : Endian) (h : Header) where
  pub system_event_size : Takes 1 (UnpackMessage.system_event e h)
  unfolding UnpackMessage.system_event
  system_event_size = Takes-bind Takes-unpack_char λ _. Takes-pure _

  pub stock_directory_size : Takes 28 (UnpackMessage.stock_directory e h)
  unfolding UnpackMessage.stock_directory
  stock_directory_size = Takes-bind (Takes-unpack_string 8) λ _. Takes-bind Takes-unpack_char λ _.
      Takes-bind Takes-unpack_char λ _. Takes-bind (Takes-unpack e 4) λ _.
        Takes-bind Takes-unpack_char λ _. Takes-bind Takes-unpack_char λ _.
          Takes-bind (Takes-unpack_string 2) λ _. Takes-bind Takes-unpack_char λ _.
            Takes-bind Takes-unpack_char λ _. Takes-bind Takes-unpack_char λ _.
              Takes-bind Takes-unpack_char λ _. Takes-bind Takes-unpack_char λ _.
                Takes-bind (Takes-unpack e 4) λ _. Takes-bind Takes-unpack_char λ _. Takes-pure _

  pub stock_trading_action_size : Takes 14 (UnpackMessage.stock_trading_action e h)
  unfolding UnpackMessage.stock_trading_action
  stock_trading_action_size = Takes-bind (Takes-unpack_string 8) λ _.
      Takes-bind Takes-unpack_char
        λ _. Takes-bind Takes-unpack_char λ _. Takes-bind (Takes-unpack_string 4) λ _. Takes-pure _

  pub reg_sho_size : Takes 9 (UnpackMessage.reg_sho e h)
  unfolding UnpackMessage.reg_sho
  reg_sho_size =
      Takes-bind (Takes-unpack_string 8) λ _. Takes-bind Takes-unpack_char λ _. Takes-pure _

  pub market_participant_position_size : Takes 15 (UnpackMessage.market_participant_position e h)
  unfolding UnpackMessage.market_participant_position
  market_participant_position_size = Takes-bind (Takes-unpack_string 4) λ _.
      Takes-bind (Takes-unpack_string 8) λ _.
        Takes-bind Takes-unpack_char
          λ _. Takes-bind Takes-unpack_char λ _. Takes-bind Takes-unpack_char λ _. Takes-pure _

  pub mwcb_decline_level_size : Takes 24 (UnpackMessage.mwcb_decline_level e h)
  unfolding UnpackMessage.mwcb_decline_level
  mwcb_decline_level_size =
      Takes-bind (Takes-unpack e 8)
        λ _. Takes-bind (Takes-unpack e 8) λ _. Takes-bind (Takes-unpack e 8) λ _. Takes-pure _

  pub mwcb_status_size : Takes 1 (UnpackMessage.mwcb_status e h)
  unfolding UnpackMessage.mwcb_status
  mwcb_status_size = Takes-bind Takes-unpack_char λ _. Takes-pure _

  pub ipo_quoting_period_update_size : Takes 17 (UnpackMessage.ipo_quoting_period_update e h)
  unfolding UnpackMessage.ipo_quoting_period_update
  ipo_quoting_period_update_size = Takes-bind (Takes-unpack_string 8) λ _.
      Takes-bind (Takes-unpack e 4)
        λ _. Takes-bind Takes-unpack_char λ _. Takes-bind (Takes-unpack e 4) λ _. Takes-pure _

  pub luld_auction_collar_size : Takes 24 (UnpackMessage.luld_auction_collar e h)
  unfolding UnpackMessage.luld_auction_collar
  luld_auction_collar_size = Takes-bind (Takes-unpack_string 8) λ _.
      Takes-bind (Takes-unpack e 4) λ _.
        Takes-bind (Takes-unpack e 4)
          λ _. Takes-bind (Takes-unpack e 4) λ _. Takes-bind (Takes-unpack e 4) λ _. Takes-pure _

  pub operational_halt_size : Takes 10 (UnpackMessage.operational_halt e h)
  unfolding UnpackMessage.operational_halt
  operational_halt_size =
      Takes-bind (Takes-unpack_string 8)
        λ _. Takes-bind Takes-unpack_char λ _. Takes-bind Takes-unpack_char λ _. Takes-pure _
