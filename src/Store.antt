-- ===== src/Store.antt =====
-- The SQLite tables (app/store/jobs.py).
pub mod Chain
pub mod Jobs
pub mod Schema
