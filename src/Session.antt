-- ===== src/Session.antt =====
-- session: recordings of raw frames, as artifacts of a manifest and a frame file.
pub mod Models
pub mod Manifest
pub mod Document
pub mod Format
pub mod Recorder
pub mod Reader
pub mod Catalog
pub mod Replay
pub mod Recording
mod Examples
