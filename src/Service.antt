-- ===== src/Service.antt =====
-- telemetry/service.py: the live pipeline and the clients that follow it.
pub mod Subscription
pub mod Interleaving
pub mod Broadcaster
pub mod Config
pub mod Models
pub mod Ingestion
pub mod Source
mod Examples
