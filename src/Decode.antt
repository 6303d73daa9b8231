-- ===== src/Decode.antt =====
-- The decoding layers, src/net/decode.
pub mod Packet
pub mod PacketDecoder
pub mod Decoder
pub mod AppDecoder
pub mod Limits
pub mod Outcomes
pub mod Selection
