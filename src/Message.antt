-- ===== src/Message.antt =====
-- The messages of include/itch/messages.hpp: one record for each struct, the variant of them all,
-- and what the types of the fields say.
pub mod Shared
pub mod Admin
pub mod Orders
pub mod Trades
pub mod Variant
pub mod Typed
pub use Shared.{Header}
pub use Admin.*
pub use Orders.*
pub use Trades.*
unfoldable pub use Variant.*
pub use Typed.*
