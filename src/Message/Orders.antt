-- ===== src/Message/Orders.antt =====
-- The messages on displayed orders: the structs of include/itch/messages.hpp.
use itchcpp.Prelude.{ℕ, List}
use itchcpp.Message.Shared.{Header}

pub record AddOrderMessage : Type 0 where
  pub header : Header
  pub open header use *
  pub order_reference_number : ℕ
  pub buy_sell_indicator : ℕ
  pub shares : ℕ
  pub stock : List ℕ
  pub price : ℕ

pub record AddOrderMpidAttributionMessage : Type 0 where
  pub header : Header
  pub open header use *
  pub order_reference_number : ℕ
  pub buy_sell_indicator : ℕ
  pub shares : ℕ
  pub stock : List ℕ
  pub price : ℕ
  pub attribution : List ℕ

pub record OrderExecutedMessage : Type 0 where
  pub header : Header
  pub open header use *
  pub order_reference_number : ℕ
  pub executed_shares : ℕ
  pub match_number : ℕ

pub record OrderExecutedWithPriceMessage : Type 0 where
  pub header : Header
  pub open header use *
  pub order_reference_number : ℕ
  pub executed_shares : ℕ
  pub match_number : ℕ
  pub printable : ℕ
  pub execution_price : ℕ

pub record OrderCancelMessage : Type 0 where
  pub header : Header
  pub open header use *
  pub order_reference_number : ℕ
  pub cancelled_shares : ℕ

pub record OrderDeleteMessage : Type 0 where
  pub header : Header
  pub open header use *
  pub order_reference_number : ℕ

pub record OrderReplaceMessage : Type 0 where
  pub header : Header
  pub open header use *
  pub original_order_reference_number : ℕ
  pub new_order_reference_number : ℕ
  pub shares : ℕ
  pub price : ℕ
