-- ===== src/Telemetry.antt =====
-- telemetry/: the catalog of signals, and the engine that keeps their latest values and histories.
pub mod Models
pub mod Catalog
pub mod Engine
