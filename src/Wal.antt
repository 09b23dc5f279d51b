-- ===== src/Wal.antt =====
-- ryudb/wal.py: the write-ahead log. `Bytes` and `Codec` are the record format, `File` the `WAL` class.
pub mod Bytes
pub mod Codec
pub mod File
pub mod Records
pub mod Log
pub mod Scan
pub mod Recovery
pub mod Stable
pub mod Handle
pub mod Cut
