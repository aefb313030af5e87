-- ===== src/Lib.antt =====
-- MoltenDB: the storage engine and what stands beside it.
--
-- The engine keeps documents as MsgPack bytes in maps, in memory. Every write goes to a log, inside
-- a transaction, and a restart replays the log.
--
-- Prelude: Boolean tests, lists, byte strings, maps and decimal numbers.
-- Json: `serde_json::Value`; an object is a sorted list of fields.
-- Codec: moltendb-core/src/common/system_field_tokens.rs. `Write` is the encoder and `Read` the
--   decoder; `Token` holds the readers of one system field, also that of query.rs. Decoding runs on
--   fuel, one unit for each byte of the input, which is enough for every encoding.
-- Wal: log_commands.rs (`Command`), `LogEntry` of engine/types.rs (`Entry`), its encoding
--   (`Encoding`), `apply_entry` and `stream_into_state` of engine/storage/mod.rs (`Replay`), and
--   `recover_to` of engine/operations/recover.rs (`Recover`).
-- Engine: moltendb-core/src/engine. `State` is `Db`; `Set`, `Update`, `Delete` and `Schema` are the
--   files of the same names, and `Api` the methods of `Db` in engine/mod.rs. An operation takes the
--   state and gives a result and the state, so that what was changed before an error stays changed.
--   The clock stands still during a call, and ids of transactions are arguments. `Durability` is
--   about restarts: `Restart` and `Operations` about the transactions that operations leave in the
--   log, `Reread` and `Runs` about the log file of them, which went through the encoding, so that each
--   document is decoded and encoded again. `Behaviour` is about documents, their
--   system fields and the version guard. `SeqIndex` is the `BTreeMap` of sequence numbers.
--   `Opening` is the loop of `Db::open` (engine/open.rs) that rebuilds indexes and counters.
-- Disk: the log file, moltendb-core/src/engine/storage/disk/log.rs, as bytes. The loop over its frames
--   runs on the length of the file as fuel, which is enough, since a frame has four bytes at least.
--   `Writer` is the asynchronous writer, async_storage.rs of the same folder: its states are reached by
--   sends, by rounds of the task and by errors of the file system, but for a swap with a failed flush
--   and a failed renaming after which the file is opened again, which leaves a gap in the log. A drop runs a round for each message
--   and one more, which is enough. `Snapshot` is snapshot.rs, and `stream_log_into` of async_storage.rs.
-- Encrypted: moltendb-core/src/engine/storage/encrypted.rs, over what the wrapped storage reads.
-- Clock: `ms_to_iso` of engine/operations/ttl.rs. The loop over the years has a unit of fuel for each
--   day, which is enough, since a year has days.
-- Query: moltendb-core/src/query.rs and common/where_operators.rs. `Bytes` holds the readers that
--   walk the bytes of a document, `Predicate` the filters against bytes, `Where` those against decoded
--   documents, and `Nested` paths, `project` and `exclude`. `Predicate/Reference` says of values what
--   the filters say of bytes, and `Predicate/Agreement` where both evaluators agree.
-- Scan: the shared pass of moltendb-core/src/engine/coalesce.rs. A `BinaryHeap` is the sorted list of its
--   items, and the threads of rayon are a tree that divides the entries.
-- Reads: `get` and `get_filtered` with a count, of moltendb-core/src/engine/operations/get.rs. Memory
--   is taken to suffice: a capacity that is reserved in advance, here and in Scan, is left out.
-- Validation: moltendb-core/src/validation; the patterns of constants.rs are tests of characters.
-- Auth: moltendb-auth/src. The scopes are those of types.rs and hmac.rs; `Token` is token.rs, store.rs and
--   middleware.rs, with the handlers that delegate and revoke. `Pattern`, `Access` and `Granted` are about
--   scopes, and `Token/Refresh` about a token that was refreshed. Seconds count the time.
-- Sweep: moltendb-server/src/ttl_sweep.rs. A turn of its loop runs on the number of entries of the heap as
--   fuel, which is enough, since an entry that comes back has not expired.
-- Handlers: `fetch_documents` of moltendb-core/src/handlers/get/fetch.rs (`Fetch`) with the predicate of a
--   filter (`Filter`), for requests without a sort, and `handle_get` of
--   moltendb-server/src/route_handlers.rs (`Route`), which passes a request on, changed, or refuses it,
--   with the refusals of `parse_get_params`.
--   `Scoped` is about what a token can read, and `Leak` about requests with odd keys.
-- RateLimit: moltendb-server/src/rate_limit.rs.
--
-- Parameters: the storage backend, which accepts or refuses an entry; the skipper of values of
-- `rmp_serde`; the compiler and the validator of `jsonschema`; doubles and lower case (`Query.Host`);
-- the cipher and base64 (`Encrypted.Cipher`); what a `BufWriter` passes on; gzip; `jsonwebtoken`
-- (`Auth.Token.TokenCodec`); the shared scan of a request with a filter
-- (`Handlers.Fetch.Coalesced`). Calls run one after the other.
-- Not modelled: the sorting of pages, the handlers of writes, joins, errors of the file system but
-- for those of the asynchronous writer, users and passwords, HTTP and the browser bindings.
pub mod Prelude
pub mod Json
pub mod Codec
pub mod Wal
pub mod Engine
pub mod Clock
pub mod Disk
pub mod Encrypted
pub mod Query
pub mod Scan
pub mod Reads
pub mod Validation
pub mod Auth
pub mod Sweep
pub mod Handlers
pub mod RateLimit
mod Tests
