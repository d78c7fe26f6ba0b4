-- ===== src/Parser/RoundTrip.antt =====
-- `decode_typed` of src/parser.cpp on what `encode_message` of src/encoder.cpp wrote.
mod Admin
mod Orders
mod Trades
use itchcpp.Prelude.{
  ℕ, zero, suc, ◌≡◌, refl, sym, ap, ◌∙◌, List, [], ◌∷◌, ◌++◌, some, append_assoc, ◌+◌, ◌/◌, ◌%◌,
  ◌^◌, length, length-append, length-take, arith,
}
use itchcpp.Wire.BigEndian.{big_endian, length-big_endian}
use itchcpp.Wire.{Endian}
use itchcpp.Message.{
  wire_size, Header, Message, MessageType, IsTypedHeader, IsTyped, type_of, header_of,
  default_message_type, system_event, stock_directory, stock_trading_action, reg_sho,
  market_participant_position, mwcb_decline_level, mwcb_status, ipo_quoting_period_update,
  luld_auction_collar, operational_halt, add_order, add_order_mpid_attribution, order_executed,
  order_executed_with_price, order_cancel, order_delete, order_replace, non_cross_trade,
  cross_trade, broken_trade, noii, retail_price_improvement_indicator, dlcr,
}
use itchcpp.Encoder.{write_header, write_body, encode_message}
use itchcpp.Encoder.ByteWriter.{◌>>◌, put_char, put_chars, put_timestamp}
use itchcpp.Encoder.WriteBody
use itchcpp.Parser.UnpackMessage
use itchcpp.Parser.Unpack.{◌>>=◌, pure, skip, unpack_string}
use itchcpp.Parser.Dispatch.{unpack_message, decode_typed}
use itchcpp.Parser.Fields.{fields, put-append, skip_bind, unpack_timestamp_bind}

-- The body writers append to what is there.
write_body-append :
    (e : Endian) (m : Message) (bytes : List ℕ) → write_body e m bytes ≡ bytes ++ write_body e m []
unfolding write_body ◌>>◌ put_char put_chars
write_body-append e (system_event m) bytes = unfold WriteBody.system_event in refl
write_body-append e (stock_directory m) bytes =
    unfold WriteBody.stock_directory in simp (put-append, append_assoc, WriteBody.stock_directory)
write_body-append e (stock_trading_action m) bytes =
    unfold WriteBody.stock_trading_action in
    simp (put-append, append_assoc, WriteBody.stock_trading_action)
write_body-append e (reg_sho m) bytes =
    unfold WriteBody.reg_sho in simp (put-append, append_assoc, WriteBody.reg_sho)
write_body-append e (market_participant_position m) bytes =
    unfold WriteBody.market_participant_position in
    simp (put-append, append_assoc, WriteBody.market_participant_position)
write_body-append e (mwcb_decline_level m) bytes =
    unfold WriteBody.mwcb_decline_level in
    simp (put-append, append_assoc, WriteBody.mwcb_decline_level)
write_body-append e (mwcb_status m) bytes = unfold WriteBody.mwcb_status in refl
write_body-append e (ipo_quoting_period_update m) bytes =
    unfold WriteBody.ipo_quoting_period_update in
    simp (put-append, append_assoc, WriteBody.ipo_quoting_period_update)
write_body-append e (luld_auction_collar m) bytes =
    unfold WriteBody.luld_auction_collar in
    simp (put-append, append_assoc, WriteBody.luld_auction_collar)
write_body-append e (operational_halt m) bytes =
    unfold WriteBody.operational_halt in simp (put-append, append_assoc, WriteBody.operational_halt)
write_body-append e (add_order m) bytes =
    unfold WriteBody.add_order in simp (put-append, append_assoc, WriteBody.add_order)
write_body-append e (add_order_mpid_attribution m) bytes =
    unfold WriteBody.add_order_mpid_attribution in
    simp (put-append, append_assoc, WriteBody.add_order_mpid_attribution)
write_body-append e (order_executed m) bytes =
    unfold WriteBody.order_executed in simp (put-append, append_assoc, WriteBody.order_executed)
write_body-append e (order_executed_with_price m) bytes =
    unfold WriteBody.order_executed_with_price in
    simp (put-append, append_assoc, WriteBody.order_executed_with_price)
write_body-append e (order_cancel m) bytes =
    unfold WriteBody.order_cancel in simp (put-append, append_assoc, WriteBody.order_cancel)
write_body-append e (order_delete m) bytes =
    unfold WriteBody.order_delete in simp (put-append, append_assoc, WriteBody.order_delete)
write_body-append e (order_replace m) bytes =
    unfold WriteBody.order_replace in simp (put-append, append_assoc, WriteBody.order_replace)
write_body-append e (non_cross_trade m) bytes =
    unfold WriteBody.non_cross_trade in simp (put-append, append_assoc, WriteBody.non_cross_trade)
write_body-append e (cross_trade m) bytes =
    unfold WriteBody.cross_trade in simp (put-append, append_assoc, WriteBody.cross_trade)
write_body-append e (broken_trade m) bytes =
    unfold WriteBody.broken_trade in simp (put-append, append_assoc, WriteBody.broken_trade)
write_body-append e (noii m) bytes =
    unfold WriteBody.noii in simp (put-append, append_assoc, WriteBody.noii)
write_body-append e (retail_price_improvement_indicator m) bytes =
    unfold WriteBody.retail_price_improvement_indicator in
    simp (put-append, append_assoc, WriteBody.retail_price_improvement_indicator)
write_body-append e (dlcr m) bytes =
    unfold WriteBody.dlcr in simp (put-append, append_assoc, WriteBody.dlcr)

unpack_message-write_body :
    (e : Endian) (m : Message) (rest : List ℕ)
    → IsTyped m
    → unpack_message e (type_of m) (header_of m) (write_body e m [] ++ rest) ≡ some (m, rest)
unfolding unpack_message type_of header_of write_body ◌>>=◌ pure
unpack_message-write_body e (system_event m) rest h = rw (Admin.system_event_lem e m rest h, ◌>>=◌)
unpack_message-write_body e (stock_directory m) rest h =
    rw (Admin.stock_directory_lem e m rest h, ◌>>=◌)
unpack_message-write_body e (stock_trading_action m) rest h =
    rw (Admin.stock_trading_action_lem e m rest h, ◌>>=◌)
unpack_message-write_body e (reg_sho m) rest h = rw (Admin.reg_sho_lem e m rest h, ◌>>=◌)
unpack_message-write_body e (market_participant_position m) rest h =
    rw (Admin.market_participant_position_lem e m rest h, ◌>>=◌)
unpack_message-write_body e (mwcb_decline_level m) rest h =
    rw (Admin.mwcb_decline_level_lem e m rest h, ◌>>=◌)
unpack_message-write_body e (mwcb_status m) rest h = rw (Admin.mwcb_status_lem e m rest h, ◌>>=◌)
unpack_message-write_body e (ipo_quoting_period_update m) rest h =
    rw (Admin.ipo_quoting_period_update_lem e m rest h, ◌>>=◌)
unpack_message-write_body e (luld_auction_collar m) rest h =
    rw (Admin.luld_auction_collar_lem e m rest h, ◌>>=◌)
unpack_message-write_body e (operational_halt m) rest h =
    rw (Admin.operational_halt_lem e m rest h, ◌>>=◌)
unpack_message-write_body e (add_order m) rest h = rw (Orders.add_order_lem e m rest h, ◌>>=◌)
unpack_message-write_body e (add_order_mpid_attribution m) rest h =
    rw (Orders.add_order_mpid_attribution_lem e m rest h, ◌>>=◌)
unpack_message-write_body e (order_executed m) rest h =
    rw (Orders.order_executed_lem e m rest h, ◌>>=◌)
unpack_message-write_body e (order_executed_with_price m) rest h =
    rw (Orders.order_executed_with_price_lem e m rest h, ◌>>=◌)
unpack_message-write_body e (order_cancel m) rest h = rw (Orders.order_cancel_lem e m rest h, ◌>>=◌)
unpack_message-write_body e (order_delete m) rest h = rw (Orders.order_delete_lem e m rest h, ◌>>=◌)
unpack_message-write_body e (order_replace m) rest h =
    rw (Orders.order_replace_lem e m rest h, ◌>>=◌)
unpack_message-write_body e (non_cross_trade m) rest h =
    rw (Trades.non_cross_trade_lem e m rest h, ◌>>=◌)
unpack_message-write_body e (cross_trade m) rest h = rw (Trades.cross_trade_lem e m rest h, ◌>>=◌)
unpack_message-write_body e (broken_trade m) rest h = rw (Trades.broken_trade_lem e m rest h, ◌>>=◌)
unpack_message-write_body e (noii m) rest h = rw (Trades.noii_lem e m rest h, ◌>>=◌)
unpack_message-write_body e (retail_price_improvement_indicator m) rest h =
    rw (Trades.retail_price_improvement_indicator_lem e m rest h, ◌>>=◌)
unpack_message-write_body e (dlcr m) rest h = rw (Trades.dlcr_lem e m rest h, ◌>>=◌)

IsTyped-header :
    (m : Message) → IsTyped m → IsTypedHeader (default_message_type (type_of m)) (header_of m)
unfolding type_of header_of default_message_type
IsTyped-header (system_event m) h = h
IsTyped-header (stock_directory m) h = h.0
IsTyped-header (stock_trading_action m) h = h.0
IsTyped-header (reg_sho m) h = h.0
IsTyped-header (market_participant_position m) h = h.0
IsTyped-header (mwcb_decline_level m) h = h.0
IsTyped-header (mwcb_status m) h = h
IsTyped-header (ipo_quoting_period_update m) h = h.0
IsTyped-header (luld_auction_collar m) h = h.0
IsTyped-header (operational_halt m) h = h.0
IsTyped-header (add_order m) h = h.0
IsTyped-header (add_order_mpid_attribution m) h = h.0
IsTyped-header (order_executed m) h = h.0
IsTyped-header (order_executed_with_price m) h = h.0
IsTyped-header (order_cancel m) h = h.0
IsTyped-header (order_delete m) h = h.0
IsTyped-header (order_replace m) h = h.0
IsTyped-header (non_cross_trade m) h = h.0
IsTyped-header (cross_trade m) h = h.0
IsTyped-header (broken_trade m) h = h.0
IsTyped-header (noii m) h = h.0
IsTyped-header (retail_price_improvement_indicator m) h = h.0
IsTyped-header (dlcr m) h = h.0

decode_typed-write_header :
    (e : Endian) (t : MessageType) (h : Header) (rest : List ℕ)
    → IsTypedHeader (default_message_type t) h
    → decode_typed e t (write_header e h [] ++ rest) ≡ unpack_message e t h rest
unfolding decode_typed write_header put_timestamp ◌>>◌ put_char
decode_typed-write_header e t h rest (letter, locate, tracking, stamp) =
    simp (fields, skip_bind, unpack_timestamp_bind, stamp, decode_typed)
      (ap (λ (k : Header). unpack_message e t k rest) (ground arith))

pub decode_typed-encode_message :
    (e : Endian) (m : Message) (rest : List ℕ)
    → IsTyped m
    → decode_typed e (type_of m) (encode_message e m ++ rest) ≡ some (m, rest)
unfolding encode_message ◌>>◌
decode_typed-encode_message e m rest h =
    rw
      (
        write_body-append e m (write_header e (header_of m) []),
        append_assoc,
        decode_typed-write_header e (type_of m) (header_of m) (write_body e m [] ++ rest)
            (IsTyped-header m h),
      )
      (unpack_message-write_body e m rest h)

length-write_body :
    (e : Endian) (m : Message) → IsTyped m → 11 + length (write_body e m []) ≡ wire_size (type_of m)
unfolding write_body wire_size type_of ◌>>◌ put_char put_chars
length-write_body e (system_event m) h = unfold WriteBody.system_event in refl
length-write_body e (stock_directory m) h =
    unfold WriteBody.stock_directory in
    simp (put-append, length-append, length-big_endian, length-take, WriteBody.stock_directory)
      (omega arith)
length-write_body e (stock_trading_action m) h =
    unfold WriteBody.stock_trading_action in
    simp (put-append, length-append, length-big_endian, length-take, WriteBody.stock_trading_action)
      (omega arith)
length-write_body e (reg_sho m) h =
    unfold WriteBody.reg_sho in
    simp (put-append, length-append, length-big_endian, length-take, WriteBody.reg_sho)
      (omega arith)
length-write_body e (market_participant_position m) h =
    unfold WriteBody.market_participant_position in
    simp
      (
        put-append, length-append, length-big_endian, length-take,
        WriteBody.market_participant_position,
      )
      (omega arith)
length-write_body e (mwcb_decline_level m) h =
    unfold WriteBody.mwcb_decline_level in
    simp (put-append, length-append, length-big_endian, length-take, WriteBody.mwcb_decline_level)
      (omega arith)
length-write_body e (mwcb_status m) h = unfold WriteBody.mwcb_status in refl
length-write_body e (ipo_quoting_period_update m) h =
    unfold WriteBody.ipo_quoting_period_update in
    simp
      (
        put-append, length-append, length-big_endian, length-take,
        WriteBody.ipo_quoting_period_update,
      )
      (omega arith)
length-write_body e (luld_auction_collar m) h =
    unfold WriteBody.luld_auction_collar in
    simp (put-append, length-append, length-big_endian, length-take, WriteBody.luld_auction_collar)
      (omega arith)
length-write_body e (operational_halt m) h =
    unfold WriteBody.operational_halt in
    simp (put-append, length-append, length-big_endian, length-take, WriteBody.operational_halt)
      (omega arith)
length-write_body e (add_order m) h =
    unfold WriteBody.add_order in
    simp (put-append, length-append, length-big_endian, length-take, WriteBody.add_order)
      (omega arith)
length-write_body e (add_order_mpid_attribution m) h =
    unfold WriteBody.add_order_mpid_attribution in
    simp
      (
        put-append, length-append, length-big_endian, length-take,
        WriteBody.add_order_mpid_attribution,
      )
      (omega arith)
length-write_body e (order_executed m) h =
    unfold WriteBody.order_executed in
    simp (put-append, length-append, length-big_endian, length-take, WriteBody.order_executed)
      (omega arith)
length-write_body e (order_executed_with_price m) h =
    unfold WriteBody.order_executed_with_price in
    simp
      (
        put-append, length-append, length-big_endian, length-take,
        WriteBody.order_executed_with_price,
      )
      (omega arith)
length-write_body e (order_cancel m) h =
    unfold WriteBody.order_cancel in
    simp (put-append, length-append, length-big_endian, length-take, WriteBody.order_cancel)
      (omega arith)
length-write_body e (order_delete m) h =
    unfold WriteBody.order_delete in
    simp (put-append, length-append, length-big_endian, length-take, WriteBody.order_delete)
      (omega arith)
length-write_body e (order_replace m) h =
    unfold WriteBody.order_replace in
    simp (put-append, length-append, length-big_endian, length-take, WriteBody.order_replace)
      (omega arith)
length-write_body e (non_cross_trade m) h =
    unfold WriteBody.non_cross_trade in
    simp (put-append, length-append, length-big_endian, length-take, WriteBody.non_cross_trade)
      (omega arith)
length-write_body e (cross_trade m) h =
    unfold WriteBody.cross_trade in
    simp (put-append, length-append, length-big_endian, length-take, WriteBody.cross_trade)
      (omega arith)
length-write_body e (broken_trade m) h =
    unfold WriteBody.broken_trade in
    simp (put-append, length-append, length-big_endian, length-take, WriteBody.broken_trade)
      (omega arith)
length-write_body e (noii m) h =
    unfold WriteBody.noii in
    simp (put-append, length-append, length-big_endian, length-take, WriteBody.noii) (omega arith)
length-write_body e (retail_price_improvement_indicator m) h =
    unfold WriteBody.retail_price_improvement_indicator in
    simp
      (
        put-append, length-append, length-big_endian, length-take,
        WriteBody.retail_price_improvement_indicator,
      )
      (omega arith)
length-write_body e (dlcr m) h =
    unfold WriteBody.dlcr in
    simp (put-append, length-append, length-big_endian, length-take, WriteBody.dlcr) (omega arith)

length-write_header : (e : Endian) (h : Header) → length (write_header e h []) ≡ 11
unfolding write_header put_timestamp ◌>>◌ put_char
length-write_header e h = simp (put-append, length-append, length-big_endian, write_header) refl

-- An encoded message whose fields fit their types takes exactly the wire size of its type.
pub length-encode_message :
    (e : Endian) (m : Message) → IsTyped m → length (encode_message e m) ≡ wire_size (type_of m)
unfolding encode_message ◌>>◌
length-encode_message e m h =
    ap length (write_body-append e m (write_header e (header_of m) []))
    ∙ length-append (write_header e (header_of m) []) (write_body e m [])
    ∙ omega (arith, length-write_header e (header_of m), length-write_body e m h)

-- What follows the letter.
abbrev after_letter : Endian → Message → List ℕ
after_letter e m =
    big_endian 2 (header_of m).stock_locate
    ++ (big_endian 2 (header_of m).tracking_number
        ++ (big_endian 2 ((header_of m).timestamp / 2 ^ 32 % 2 ^ 16)
            ++ (big_endian 4 ((header_of m).timestamp % 2 ^ 32) ++ write_body e m [])))

-- An encoded message begins with the letter of its type.
pub encode_message-letter :
    (e : Endian) (m : Message)
    → IsTyped m
    → (body : List ℕ) × (encode_message e m ≡ default_message_type (type_of m) ∷ body)
unfolding encode_message write_header put_timestamp put_char ◌>>◌
encode_message-letter e m h = (
  after_letter e m,
  write_body-append e m (write_header e (header_of m) [])
      ∙ simp (put-append, append_assoc, write_header)
          (ap (λ (c : ℕ). c ∷ after_letter e m) (IsTyped-header m h).0),
)
