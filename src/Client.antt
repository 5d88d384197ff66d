-- ===== src/Client.antt =====
-- Package client (client/ws.go, client/quorum.go): JSON-RPC calls and the subscription over one WebSocket.
pub mod Socket
pub mod Quorum
pub mod Tests
