-- ===== src/Diagnostics.antt =====
-- diagnostics/: the conditions over telemetry snapshots and the lifecycle of the trouble codes.
pub mod Models
pub mod Rules
pub mod Catalog
pub mod FreezeFrame
pub mod RuleState
pub mod Lifecycle
pub mod Engine
mod Examples
