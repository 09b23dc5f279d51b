-- ===== src/Lib.antt =====
-- RyuDB, a GPU SQL engine with a durable write path. Reads scan immutable Parquet files; writes go to an
-- in-memory delta store, each commit under a timestamp of its own, and to a write-ahead log that is
-- replayed at start-up. Queries are planned and optimized over a catalog of tables.
--
-- Parts, and the files that model them:
--   ryudb/delta.py          Delta       `DeltaStore`: batches and tombstones of each table
--   ryudb/transaction.py    Txn         `Transaction`: the buffers of one transaction
--   ryudb/wal.py            Wal         Bytes: `struct`; Codec: `_build_record`, `_parse_payload`;
--                                       File: the class `WAL` over the bytes of its file
--   ryudb/exec/executor.py  Engine      `Engine`: start-up, `_write_commit`; Ops: BEGIN, COMMIT,
--                                       ROLLBACK, snapshots, restore, the last step of INSERT and DELETE
--                           Merge       `_merge_delta`, the read path over base, delta and buffers
--                           Lock        `_RWLock`
--                           Dml         Insert, Update: `_insert`, `_insert_select`, `_delete`, `_update`,
--                                       over Values and Targets, with `_enforce_unique`
--                           Running     `_frame_bounds`, `_gather_diff`: sums over windows
--   ryudb/catalog.py        Catalog     `Catalog`: the operations on its tables
--   ryudb/sql/plan.py       Plan        expressions and columns; Nodes: plan nodes and the walks over them
--   ryudb/sql/optimize.py   Optimize    projection pruning, join-side selection, conjuncts
--                           Pushdown    `push_predicates` and `optimize`
--   ryudb/server/pgwire.py  Pgwire      Bytes, Frames, Messages: the wire format; Sql: `_split_statements`,
--                                       `_first_keyword`; Params, Directions, Window: `_substitute_params`,
--                                       `_parse_fetch`, `_cursor_window`; Session: `PGConn`, its cursor
--                                       statements (Cursors) and message handlers (Handlers)
--   ryudb/server/app.py     Server      Sessions: `run_sql`, `has_open_txn`; Cursors, Pending, History
--   ryudb/server/worker.py  Server      Worker: `EngineWorker`
-- Pgwire calls Server for its cursors and, as a parameter, for `run_sql`, which the worker runs over the
-- engine. Engine calls the log first, then the delta store, then drops cache entries; Merge reads the delta store
-- and the transaction. The other files under these folders are proofs, named for what they prove; Common
-- has lists, dicts and results; Tests has concrete runs.
--
-- How the code is modelled. A method is a function from the old state to its result and the new state.
-- Exceptions are values of `Result`. A dict is an association list in insertion order, a set is a list in
-- which each member stands once; where the code iterates over a set, the order is a parameter. Python
-- integers that are never negative, as timestamps and lengths, are natural numbers; others are the `ℤ` of
-- Common/Integers. The log's file is the list of
-- its bytes, and the loops of `replay` and `truncate` get as much fuel as it has bytes, of which each
-- record takes at least 8. File operations succeed or fail as a parameter of the operation says; after a
-- failure the file has its old length again, or, if the repair fails too, a torn record at its end.
--
-- Parameters: the UTF-8 and Arrow codecs and crc32 (`Serial`, with `IsLossless`); the rows, keys and key
-- comparison of a data frame (`Frames`, with `IsKeyed`); the disk and Parquet metadata (`Disk`). The
-- order of the rows that a left merge gives is a parameter too, any permutation of them.
--
-- A handler of the front is a function from the connection, the engine, the ids to come and the messages
-- sent to a result or an exception and the same after it; sending does not fail. Texts of errors, the
-- Unicode tables, `run_sql`, pyarrow's tables, sqlglot's trees and what the regular expressions of DECLARE
-- and CLOSE take from a statement are parameters of it. Reading a result page by page has fuel for one
-- page more than there are rows.
--
-- INSERT, DELETE and UPDATE take as parameters the columns that pandas makes of Python values, the values
-- of expressions and the rows of a SELECT. Running sums take the arithmetic of a column as a parameter, exact
-- in the theorem about them.
--
-- Not modelled: query execution, MERGE, `checkpoint`, the scan cache, the GPU kernels, Parquet reads, the
-- SQL parser and the plan printer, the JSON front of the server, the start-up handshake and sockets of the
-- PostgreSQL front, the command line, and the catalog's JSON file. They are device code, I/O, or
-- translations of another library's trees, or are left for later.
pub mod Common
pub mod Delta
pub mod Wal
pub mod Txn
pub mod Engine
pub mod Dml
pub mod Running
pub mod Merge
pub mod Lock
pub mod Catalog
pub mod Plan
pub mod Optimize
pub mod Pushdown
pub mod Pgwire
pub mod Server
pub mod Tests
