-- ===== src/Worker.antt =====
-- internal/worker: the workers that follow the store.
pub mod Anomaly
pub mod Embed
