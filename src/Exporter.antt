-- ===== src/Exporter.antt =====
-- The health report of scripts/operations/health_report.py and the exporter of metrics of
-- python/operations/prometheus_exporter.py, which reads it.
pub mod Json
pub mod Health
pub mod Metrics
pub mod Agree
pub mod Tests
