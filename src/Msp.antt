-- ===== src/Msp.antt =====
-- The MSP protocol layer of internal/msp: checksums, framing, decompression and the client.
pub mod Crc
pub mod Framing
pub mod Huffman
pub mod Constants
pub mod Port
pub mod PendingFrames
pub mod Client
