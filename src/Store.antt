-- ===== src/Store.antt =====
-- internal/store: the SQLite tables, the statements on them and the methods of `Store`.
pub mod Schema
pub mod Sessions
pub mod Photos
pub mod Hearts
pub mod Feeds
pub mod Migrations
pub mod Wf
pub mod Album
