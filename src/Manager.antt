-- ===== src/Manager.antt =====
-- The Cluster Manager, src/mycoagent/manager.
pub mod Tables
pub mod Catalog
pub mod Store
pub mod Api
pub mod Postgres
pub mod Client
mod Tests
