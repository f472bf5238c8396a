-- ===== src/Metrics.antt =====
-- internal/metrics: what the dashboard shows.
pub mod Hub
pub mod Collector
pub mod Views
