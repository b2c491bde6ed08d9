-- ===== src/Tracker.antt =====
-- src/tracker.rs and src/jaeger_tracing.rs: requests matched with their responses, for metrics and
-- traces.
mod Examples
pub mod Samples
pub mod Tracing
pub mod State
pub mod Request
pub mod Client
pub mod Server
pub mod Life
pub mod Named
pub mod Cursors
