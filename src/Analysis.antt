-- ===== src/Analysis.antt =====
-- What is collected over a capture: src/net/analysis and include/net/analysis.
pub mod DnsTable
pub mod Benchmark
