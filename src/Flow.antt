-- ===== src/Flow.antt =====
-- The flow layer, src/net/flow.
pub mod TcpReassembler
pub mod Connection
pub mod FlowKey
pub mod FlowTable
