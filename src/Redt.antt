-- ===== src/Redt.antt =====
-- Package redt (redt/redt.go): the connection to a RedT node, its statistics and its displays.
pub mod Types
pub mod Demo
pub mod Node
pub mod Create
pub mod Stats
pub mod Report
pub mod Monitor
pub mod Peers
pub mod Tests
