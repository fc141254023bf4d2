-- ===== src/Lib.antt =====
-- A model of alertsnitch, which stores the alerts that Alertmanager posts to a webhook.
--
-- The server (internal/server) hands each alert group to a backend; the Loki backend
-- (internal/storage/loki) converts groups to streams and pushes them, at once or in batches, and in
-- batch mode it can log each group to disk first, so that a crash loses none.
--
-- The files, and what they model:
--   Base            errors, results, uint64, lists over the native numbers, maps as lists of pairs
--   Alert           internal/internal.go: Alert, AlertGroup, Health
--   Metrics         internal/metrics/metrics.go: the counters and RecordSaveOutcome
--   Labels          internal/storage/loki/labels.go and metadata.go, buildStreamLabels of stream.go
--   Timestamps      internal/storage/loki/timestamps.go: ensureMonotonic
--   Stream          internal/storage/loki/stream.go: dataToStream and what it calls; Stream.Key is
--                   streamKey, Stream.Wire the JSON of an entry (encoding.go)
--   Wal             internal/storage/loki/wal.go: Wal.Frame is the byte format (writeRecord,
--                   readRecords), Wal.Checkpoint the acknowledged numbers, Wal.Ops the operations
--                   (openWAL, recover, append, ack, compactLocked, close); the other children prove
--   Batch           internal/storage/loki/batch.go: accumulate, deliver, mergeStreams; Batch.Flush is
--                   flush and ackBatch, Batch.Enqueue is enqueue and replay, Batch.Run is flusher,
--                   stop and closeWAL in sequence, Batch.Live the goroutines and callers as atomic
--                   actions in any interleaving; the others prove
--   Config          internal/storage/loki/config.go: Validate; Config.Args is buildLokiConfig of main.go
--   Server          internal/server/server.go: webhookPost and the probes; Parse of
--                   internal/webhook/webhook.go; the null backend (internal/storage/null/null.go) and
--                   Save of the Loki client without batches (client.go)
--   Sql             internal/storage/sqlstore: Sql.Pairs is the hashes and the order of label pairs
--                   (kv.go), Sql.Mysql and Sql.Postgres the transactions of both dialects (mysql.go,
--                   postgres.go), Sql.Work unitOfWork and both Saves, Sql.Health connecting and the
--                   checks (sqlstore.go), Sql.View what is relied on of the database
--   Transport       internal/storage/loki/transport.go: the push and the ping
--   Client          internal/storage/loki/client.go: New, and Save with batches (Client.Saves);
--                   buildTLSConfig of config.go
--   Storage         internal/storage/storage.go: the registry; buildConfig of main.go, pkg/env/env.go;
--                   Storage.Flags is parseArgs
--   Program         main.go: run, with Start and Shutdown of internal/server/server.go, as steps
--   Examples        the theorems at concrete inputs
--
-- A struct is a record in the source's order of fields, an operation is a function from a state to a
-- result and a state. A map is the list of its pairs in one iteration order. The outcome of each
-- system call, each select and each push is an argument, so a theorem over all arguments covers every
-- failure. The log's operations hold one mutex throughout, so they do not interleave. JSON, fmt and
-- strconv.Quote are parameters, with what the code relies on as laws (Wal.CodecLaws). The text of an
-- error is kept without the values that are formatted into it.
--
-- The database is a parameter: what each statement returns and does to the state that a transaction
-- sees (Sql.Driver). Sql.View.Lawful says what its statements do when they succeed. An upsert of a pair
-- is taken to return the row of the pair's hash. What else happens in an attempt of a unit of work, the
-- commits of other transactions between two attempts included, is an argument for each attempt.
--
-- Fuel: the loop that reads the log has the number of its bytes and one as fuel, and every frame
-- takes at least four bytes; the loop that advances the checkpoint has the size of the
-- acknowledged set, of which every round removes a number. A unit of work has the source's five
-- attempts.
-- Numbers of records stay below 2 ^ 64, which the theorems name as a hypothesis. A counter is a
-- natural number, and a time is the nanoseconds since the zero time.
--
-- Not modelled: the router and the timeouts of HTTP, the registration of the metrics, the drain of the
-- batch processor when New fails on its ping, the text and the schema of the SQL statements, and the
-- deployment files. A log that ends below its checkpoint, or in a torn frame that is appended to, is
-- outside the invariant of the log: Wal.Faults is about these.
pub mod Base
pub mod Alert
pub mod Wal
pub mod Timestamps
pub mod Labels
pub mod Stream
pub mod Metrics
pub mod Batch
pub mod Config
pub mod Server
pub mod Sql
pub mod Transport
pub mod Client
pub mod Program
pub mod Storage
pub mod Examples
