-- ===== src/Util.antt =====
-- The utilities, src/net/util and include/net/util.
pub mod ParseError
pub mod Endian
pub mod Checksum
pub mod Bytes
pub mod Text
