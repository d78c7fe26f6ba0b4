-- ===== src/Message/Shared.antt =====
-- The fields that every struct of include/itch/messages.hpp begins with. A `char` is its code, an
-- array of `char` the list of its codes.
use itchcpp.Prelude.{ℕ}

pub record Header : Type 0 where
  pub message_type : ℕ
  pub stock_locate : ℕ
  pub tracking_number : ℕ
  pub timestamp : ℕ
