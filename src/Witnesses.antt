-- ===== src/Witnesses.antt =====
-- Concrete runs: each child applies the theorems of one part of the program to fixed packets.
mod Reassembly
mod Handshake
mod Flows
mod Files
mod Frames
mod Utilities
mod Decoding
mod Names
mod Messages
mod Polls
mod Arguments
