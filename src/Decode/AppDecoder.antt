-- ===== src/Decode/AppDecoder.antt =====
-- include/net/decode/app_decoder.h and src/net/decode/app_decoder.cpp: the messages of the
-- applications. State has the types, Resync, HttpRound, Streams and Flows the code. Limits, Entries, Ends, Loops and
-- Heads prove; Whole puts it into the decoder.
pub mod State
pub mod Resync
pub mod HttpRound
pub mod Streams
pub mod Flows
pub mod Limits
pub mod Entries
pub mod Ends
pub mod Loops
pub mod Heads
pub mod Whole
