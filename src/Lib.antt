-- ===== src/Lib.antt =====
-- A model of pgvisor, the PostgreSQL failover manager: its replicated storage, its failover
-- orchestrator, its wire protocol, backups and audit log, the proxy's connection pool, sessions,
-- statement routing, switchover and backup service, the sidecar's supervisor, election monitor, control
-- server, backup lock and event buffer, and the dashboard's SQL guard, translated from the Rust crates
-- under crates/.
--
-- A sidecar beside each PostgreSQL instance stores a Raft log (crates/pgvisor-core/src/storage), tells from
-- elections and leases who may be writable (crates/pgvisor-core/src/raft), and a proxy routes statements to
-- the leader or a standby over pooled connections (crates/pgvisor-proxy). The parts below follow the crates.
--
-- Prelude: Boolean tests, lists, texts, decimal numbers, and maps (Prelude/Maps: an association list for
-- HashMap, an ascending one for BTreeMap over numbers).
-- Raft.Types: crates/pgvisor-core/src/raft/types.rs.
-- Raft.Orchestrator: crates/pgvisor-core/src/raft/orchestrator.rs, one function per method; Run
-- drives it by a history of notifications beside the PostgreSQL instance.
-- Storage.Bytes, Storage.Codec: files as lists of bytes; bincode and crc32fast are parameters with
-- their documented laws as hypotheses (IsStorable).
-- Storage.Wal: crates/pgvisor-core/src/storage/wal.rs. `scan` is the loop of `Wal::open`, on fuel
-- one more than the length of the file, which is enough as each round moves on by at least 12
-- bytes. A crash is a file that ends early; errors of the operating system are left out.
-- Storage.StateMachine: crates/pgvisor-core/src/storage/state_machine.rs, with each system call of
-- `persist_to_disk` as a step of the disk.
-- Storage.Engine: crates/pgvisor-core/src/storage/engine.rs, the stores that openraft calls
-- (LogStore, StateStore); openraft's votes and memberships are type parameters.
-- Protocol.Tracker: crates/pgvisor-core/src/protocol/tracker.rs, on texts as lists of characters'
-- numbers (Prelude.Texts).
-- Proxy.Pool: crates/pgvisor-proxy/src/pool.rs. A call under the lock is one step of the pool;
-- connecting is a parameter. `acquire_with_retry` is on fuel, one more than the rounds until its
-- timeout.
-- Sidecar.Election: crates/pgvisor-sidecar/src/election.rs, one round of the monitor (`tick`),
-- which runs where there are peers; the answers of the peers and the success of the supervisor are
-- parameters, and so is the printing of numbers. The events' text and buffer, the pause after a
-- failed rejoin and the requests' timeouts are left out.
-- Dashboard.Guard: crates/pgvisor-dashboard/src/security.rs; `to_uppercase` of Unicode is a
-- parameter.
-- Sidecar.BackupLock: crates/pgvisor-sidecar/src/control/handlers.rs, the two handlers of the
-- backup lock, with the clock and the new token as arguments; the texts of the answers are left
-- out.
-- Sidecar.Events: crates/pgvisor-sidecar/src/control/state.rs (`record_event`) and the poll
-- `handle_events`.
-- Protocol.Message: crates/pgvisor-core/src/protocol/message.rs. pgwire's coders are a parameter
-- (Wire.Pgwire), with the law of one frame as a hypothesis (Wire.IsFrame); lengths wrap as in a release
-- build on 64 bits; texts are their bytes, and reading them as UTF-8 is a parameter where it can change
-- them.
-- Backup: crates/pgvisor-core/src/backup/manager.rs, over an object store (Store.Operator, with
-- what is relied on in Store.IsObjectStore) and a JSON codec; the environment is a function. A
-- `HashSet` of ids is a list without duplicates. Times count from the earliest one of chrono.
-- Proxy.Session: crates/pgvisor-proxy/src/session.rs. Query is `handle_query`, Handshake and Commands
-- are `run`, Auditing is the choice of audited statements. The sockets, the others' use of the pool and
-- the clock are a `World`; reads are lists of bytes. `forward_frames` is on fuel, one more than the
-- bytes of its buffer: enough, as a whole frame has at least five (Streaming).
-- Proxy.Cluster: crates/pgvisor-proxy/src/cluster.rs; the sidecars' answers are a parameter.
-- Proxy.Executor: crates/pgvisor-proxy/src/executor.rs, over the same pool and frames; `to_uppercase` of
-- Unicode is a parameter.
-- Sidecar.Supervisor: crates/pgvisor-sidecar/src/supervisor.rs, its status and its child process; what
-- the operating system and PostgreSQL's tools answer is a parameter (System).
-- Sidecar.Control: crates/pgvisor-sidecar/src/control/handlers.rs, the handlers that change the node, one
-- function each, over the supervisor; Histories runs any order of them, one after the other.
-- Sidecar.Authorisation: crates/pgvisor-core/src/auth.rs and crates/pgvisor-sidecar/src/control/auth.rs.
-- Audit: crates/pgvisor-core/src/audit.rs. The tasks that `append` spawns wait in the log and run in any
-- order (History); the JSON coder and `to_lowercase` of Unicode are parameters.
-- Backup.Archive: crates/pgvisor-core/src/backup/archive.rs; the tar and gzip crates are a parameter (Tools).
-- Proxy.Backups: crates/pgvisor-proxy/src/backup.rs. The sidecars' answers, the shared addresses and the
-- clock are a Network, which sees all calls made before; what pg_basebackup does is a Machine. Service
-- wraps the operations (Creation, Restore) in the cluster's lock.
-- Numbers are unbounded where the program counts bytes, offsets and log indices, which stay far below
-- 2^64; casts to 32 bits and wrapping counters are written out.
--
-- Not modelled: the proxy's backup scheduler and start, the first
-- initialisation of a node, the handlers that only read, the dashboard's pages and handlers, TLS,
-- metrics, logging, and the processes, sockets and object stores of the operating system.
pub mod Prelude
pub mod Raft
pub mod Storage
pub mod Protocol
pub mod Backup
pub mod Audit
pub mod Proxy
pub mod Sidecar
pub mod Dashboard
