-- ===== src/Flow/TcpReassembler.antt =====
-- src/net/flow/tcp_reassembler.cpp and include/net/flow/tcp_reassembler.h: one direction of a TCP
-- connection. The definitions are in State, Ingest, Handlers and Reading; the other children prove.
pub mod State
pub mod Ingest
pub mod Handlers
pub mod Reading
pub mod Stream
pub mod Assembly
pub mod Position
pub mod Delivery
pub mod Control
pub mod Reassembly
pub mod Holding
pub mod Complete
pub mod Runs
pub mod Bounds
