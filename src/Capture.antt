-- ===== src/Capture.antt =====
-- The capture file layer, src/net/capture.
pub mod Pcap
pub mod Reader
