-- ===== src/History.antt =====
-- Package history (history/history.go): the SQLite copy of the chain and its download.
pub mod Sqlite
pub mod Demo
pub mod Tests
pub mod Store
pub mod Download
pub mod Cached
