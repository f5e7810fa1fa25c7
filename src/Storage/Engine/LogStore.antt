-- ===== src/Storage/Engine/LogStore.antt =====
-- The log store of storage/engine.rs. `V` is openraft's `Vote`; `serde_json` over the metadata is a
-- pair of functions. The directory is the log's file and the metadata file.
use pgvisor.Prelude.{ℕ, ◌+◌, Option, none, some, List}
use pgvisor.Raft.Types.{LogId, Entry}
use pgvisor.Storage.Bytes.{Bytes}
use pgvisor.Storage.Codec.{Codec}
use pgvisor.Storage.Wal
use pgvisor.Storage.Wal.{
  Wal, Result, ok, err, ◌>>=◌, open_wal, read_range, truncate_since, purge_upto,
}

pub record LogMetadata (V : Type 0) : Type 0 where
  pub vote : Option V
  pub last_purged_log_id : Option LogId

pub record Json (V : Type 0) : Type 0 where
  pub to_vec : LogMetadata V → Bytes
  pub from_str : Bytes → Option (LogMetadata V)

pub record LogStore (V : Type 0) : Type 0 where
  pub meta : LogMetadata V
  pub wal : Wal
  -- The contents of `meta.json`.
  pub meta_file : Option Bytes

-- `std::ops::Bound<u64>`
pub data Bound : Type 0 where
  included excluded : ℕ → Bound
  unbounded : Bound

pub record LogState : Type 0 where
  pub last_purged_log_id : Option LogId
  pub last_log_id : Option LogId

abbrev pub default_meta : {V : Type 0} → LogMetadata V
default_meta = record { vote = none; last_purged_log_id = none }

-- `log_id.map(|l| l.index + 1).unwrap_or(default)`
unfoldable pub index_after : Option LogId → ℕ → ℕ
index_after none default = default
index_after (some id) default = id.index + 1

module _ {M V : Type 0} (c : Codec M) (json : Json V) where
  -- Metadata that does not parse is replaced by the default.
  unfoldable pub read_meta_file : Option Bytes → LogMetadata V
  read_meta_file none = default_meta
  read_meta_file (some content) = elim (json.from_str content) [
    | none ↦ default_meta
    | some meta ↦ meta
  ]

  unfoldable pub open_store : Bytes → Option Bytes → Result (LogStore V)
  open_store wal_file meta_file = do
    wal ← open_wal c wal_file
    ok (record { meta = read_meta_file meta_file; wal = wal; meta_file = meta_file })

  unfoldable pub persist_meta : LogStore V → LogStore V
  persist_meta s = record s { meta_file = some (json.to_vec s.meta) }

  unfoldable pub range_start : LogStore V → Bound → ℕ
  range_start s (included n) = n
  range_start s (excluded n) = n + 1
  range_start s unbounded = index_after s.meta.last_purged_log_id 0

  unfoldable pub range_end : LogStore V → ℕ → Bound → ℕ
  range_end s start (included n) = n + 1
  range_end s start (excluded n) = n
  range_end s start unbounded = index_after s.wal.last_log_id start

  unfoldable pub try_get_log_entries : LogStore V → Bound → Bound → Result (List (Entry M))
  try_get_log_entries s from to =
      let start = range_start s from in read_range c s.wal start (range_end s start to)

  unfoldable pub get_log_state : LogStore V → LogState
  get_log_state s = record {
    last_purged_log_id = s.meta.last_purged_log_id;
    last_log_id = s.wal.last_log_id;
  }

  unfoldable pub save_vote : LogStore V → V → LogStore V
  save_vote s vote = persist_meta (record s { meta = record s.meta { vote = some vote } })

  unfoldable pub read_vote : LogStore V → Option V
  read_vote s = s.meta.vote

  unfoldable pub append : LogStore V → List (Entry M) → LogStore V
  append s entries = record s { wal = Wal.append c s.wal entries }

  unfoldable pub truncate : LogStore V → LogId → LogStore V
  truncate s log_id = record s { wal = truncate_since s.wal log_id.index }

  unfoldable pub purge : LogStore V → LogId → LogStore V
  purge s log_id = persist_meta (record s {
    meta = record s.meta { last_purged_log_id = some log_id };
    wal = purge_upto s.wal log_id.index;
  })
