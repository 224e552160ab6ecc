-- ===== src/Can.antt =====
-- can/: raw frames, their byte records, the gateway stream, the DBC boundary and the explorer.
pub mod Models
pub mod Metadata
pub mod Codec
pub mod Gateway
pub mod Decoder
pub mod Explorer
