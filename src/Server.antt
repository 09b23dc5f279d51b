-- ===== src/Server.antt =====
-- ryudb/server: the process that owns an engine and serves connections.
pub mod Cursors
pub mod Sessions
pub mod Pending
pub mod History
pub mod Worker
