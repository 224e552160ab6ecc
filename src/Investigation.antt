-- ===== src/Investigation.antt =====
-- investigation/: bounded, read-only analysis of a recorded session.
pub mod Models
pub mod Window
pub mod Selection
pub mod Summary
pub mod Analysis
pub mod Service
mod Examples
