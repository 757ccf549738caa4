-- ===== src/Server.antt =====
-- packages/server/src: the protocol engine over a storage seam, and the in-memory store.
pub mod Store
pub mod Cursor
pub mod Engine
pub mod Memory
pub mod Protocol
