-- ===== src/Protocols/Http.antt =====
-- include/net/protocols/http.h and src/net/protocols/http.cpp: Header has the types, Text, Fields,
-- Message and Body the parsers. Stable, Framing, Numbers and Chunks prove.
pub mod Header
pub mod Text
pub mod Fields
pub mod Message
pub mod Body
pub mod Numbers
pub mod Stable
pub mod Progress
pub mod Framing
pub mod Chunks
pub mod Resume
