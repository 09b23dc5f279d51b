-- ===== src/Pgwire.antt =====
-- ryudb/server/pgwire.py: the front that speaks PostgreSQL's wire protocol.
pub mod Bytes
pub mod Frames
pub mod Messages
pub mod Window
pub mod Sql
pub mod Params
pub mod Directions
pub mod Session
