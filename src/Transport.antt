-- ===== src/Transport.antt =====
-- The transport layer: include/itch/transport and src/transport.
mod Tests
pub mod SoupBin
pub mod MoldUdp64
pub mod Sequencing
