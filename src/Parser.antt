-- ===== src/Parser.antt =====
-- src/parser.cpp.
pub mod Unpack
pub mod UnpackMessage
pub mod Dispatch
pub mod Fields
pub mod Table
pub mod Loop
pub mod Takes
pub mod FrameSize
pub mod Frames
pub mod Total
pub mod Stream
pub mod Encoded
pub mod Api
pub mod Delivered
pub mod Diagnostics
mod Tests
pub mod RoundTrip
