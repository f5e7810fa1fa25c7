-- ===== src/Backup/Manager.antt =====
-- `BackupManager` of backup/manager.rs, over an object store and a JSON codec.
mod Keys
pub mod Prune
pub mod RoundTrip
mod Deletion
pub mod Retention
pub mod Limit
pub mod Order
mod Examples
use pgvisor.Prelude.{
  ℕ, ◌+◌, ◌*◌, ◌-◌, Bool, true, false, not, ◌&&◌, Option, none, some, List, [], ◌∷◌, ◌++◌, ◌||◌,
  eqb, ltb, leb, length, take, is_empty, contains, ◌==◌, if◌then◌else◌,
}
use pgvisor.Prelude.Texts.{Text, text, chars_key}
use pgvisor.Storage.Bytes.{Bytes}
use pgvisor.Backup.Store.{Operator, Written, Read, found, not_found, failed, Entry}

pub data BackupError : Type 0 where
  open_dal io serialization : BackupError
  wal_not_found snapshot_not_found : Text → BackupError

pub data Result (A : Type 0) : Type 0 where
  ok : A → Result A
  err : BackupError → Result A

pub data BackupType : Type 0 where
  incremental full : BackupType

-- Times are counted in nanoseconds from the earliest `DateTime<Utc>`.
pub record BasebackupMeta : Type 0 where
  pub snapshot_id : Text
  pub backup_id : Option Text
  pub created_at : ℕ
  pub backup_type : BackupType
  pub label : Option Text
  pub backup_start_date : Option ℕ
  pub backup_finish_date : Option ℕ
  pub timeline : Option ℕ
  pub start_wal : Text
  pub stop_wal : Option Text
  pub total_bytes : ℕ
  pub source_node : Option Text
  pub start_lsn : Option Text
  pub checkpoint_location : Option Text
  pub backup_from : Option Text
  pub pg_version : Option Text

unfoldable pub new : Text → ℕ → BackupType → Text → ℕ → BasebackupMeta
new id created kind wal total = record {
  snapshot_id = id;
  backup_id = some id;
  created_at = created;
  backup_type = kind;
  label = none;
  backup_start_date = some created;
  backup_finish_date = none;
  timeline = none;
  start_wal = wal;
  stop_wal = none;
  total_bytes = total;
  source_node = none;
  start_lsn = none;
  checkpoint_location = none;
  backup_from = none;
  pg_version = none;
}

-- serde_json on the metadata.
pub record Json : Type 0 where
  pub to_vec : BasebackupMeta → Option Bytes
  pub from_slice : Bytes → Option BasebackupMeta

unfoldable pub wal_prefix : Text → Text
wal_prefix cluster = text "clusters/" ++ (cluster ++ text "/wal/")

unfoldable pub basebackup_prefix : Text → Text
basebackup_prefix cluster = text "clusters/" ++ (cluster ++ text "/basebackups/")

unfoldable pub tar_key : Text → Text → Text
tar_key cluster id = basebackup_prefix cluster ++ (id ++ text ".tar.gz")

unfoldable pub meta_key : Text → Text → Text
meta_key cluster id = basebackup_prefix cluster ++ (id ++ text ".json")

unfoldable pub enriched : BasebackupMeta → BasebackupMeta
enriched meta = elim meta.backup_id [
  | none ↦ record meta { backup_id = some meta.snapshot_id }
  | some id ↦ meta
]

unfoldable pub ends_with : Text → Text → Bool
ends_with [] sought = is_empty sought
ends_with (c ∷ s) sought = let rest = ends_with s sought in if c ∷ s == sought then true else rest

-- `sort_by_key` keeps the order of equal keys.
unfoldable pub insert_by_time : BasebackupMeta → List BasebackupMeta → List BasebackupMeta
insert_by_time m [] = m ∷ []
insert_by_time m (n ∷ ns) =
    let rest = insert_by_time m ns in if leb m.created_at n.created_at then m ∷ n ∷ ns else n ∷ rest

unfoldable pub sort_by_time : List BasebackupMeta → List BasebackupMeta
sort_by_time [] = []
sort_by_time (m ∷ ms) = insert_by_time m (sort_by_time ms)

unfoldable pub download : (Bytes → Bool) → Option Bool → Read → Result (Option Bytes)
download written none r = err open_dal
download written (some false) r = ok none
download written (some true) (found bytes) = if written bytes then ok (some bytes) else err io
download written (some true) not_found = err open_dal
download written (some true) failed = err open_dal

module _ (op : Operator) (cluster : Text) where
  -- The argument is what reading the source file gave.
  unfoldable pub archive_wal : op.Store → Option Bytes → Text → op.Store × Result Unit
  archive_wal s none file_name = (s, err io)
  archive_wal s (some buffer) file_name =
      let written = op.write s (wal_prefix cluster ++ file_name) buffer in
      (written.store, (if written.is_ok then ok tt else err open_dal))

  -- What the target file then holds, `none` where it was not written; `written` tells whether the local
  -- file system takes the bytes.
  unfoldable pub restore_wal : op.Store → (Bytes → Bool) → Text → Result (Option Bytes)
  restore_wal s written file_name =
      download written (op.exists s (wal_prefix cluster ++ file_name))
        (op.read s (wal_prefix cluster ++ file_name))

  unfoldable pub delete_basebackup : op.Store → Text → op.Store
  delete_basebackup s id = op.delete (op.delete s (tar_key cluster id)) (meta_key cluster id)

  module _ (json : Json) where
    unfoldable pub save_json : BasebackupMeta → op.Store → Option Bytes → op.Store × Result Unit
    save_json meta s none = (s, err serialization)
    save_json meta s (some bytes) =
        let second = op.write s (meta_key cluster meta.snapshot_id) bytes in
        (second.store, (if second.is_ok then ok tt else err open_dal))

    -- The metadata is written after the archive, and only if that succeeded.
    unfoldable pub save_meta : BasebackupMeta → Written op.Store → op.Store × Result Unit
    save_meta meta first =
        if first.is_ok
        then save_json meta first.store (json.to_vec (enriched meta))
        else (first.store, err open_dal)

    unfoldable pub save_basebackup : op.Store → BasebackupMeta → Bytes → op.Store × Result Unit
    save_basebackup s meta tar = save_meta meta (op.write s (tar_key cluster meta.snapshot_id) tar)

    unfoldable pub parse_entry : Read → List BasebackupMeta → List BasebackupMeta
    parse_entry (found bytes) rest = elim (json.from_slice bytes) [
      | none ↦ rest
      | some m ↦ m ∷ rest
    ]
    parse_entry not_found rest = rest
    parse_entry failed rest = rest

    unfoldable pub read_entries : op.Store → List Entry → List BasebackupMeta
    read_entries s [] = []
    read_entries s (e ∷ es) =
        let rest = read_entries s es in
        if ends_with e.path (text ".json") then parse_entry (op.read s e.path) rest else rest

    unfoldable pub list_basebackups : op.Store → List BasebackupMeta
    list_basebackups s = elim (op.list s (basebackup_prefix cluster)) [
      | none ↦ []
      | some entries ↦ sort_by_time (read_entries s entries)
    ]

    unfoldable pub read_tar : Text → BasebackupMeta → Read → Result (BasebackupMeta × Bytes)
    read_tar id meta (found tar) = ok (meta, tar)
    read_tar id meta not_found = err (snapshot_not_found id)
    read_tar id meta failed = err open_dal

    unfoldable pub read_snapshot :
        Text → Option BasebackupMeta → Read → Result (BasebackupMeta × Bytes)
    read_snapshot id none tar = err serialization
    read_snapshot id (some meta) tar = read_tar id meta tar

    unfoldable pub read_meta : Text → Read → Read → Result (BasebackupMeta × Bytes)
    read_meta id (found bytes) tar = read_snapshot id (json.from_slice bytes) tar
    read_meta id not_found tar = err (snapshot_not_found id)
    read_meta id failed tar = err open_dal

    unfoldable pub get_basebackup : op.Store → Text → Result (BasebackupMeta × Bytes)
    get_basebackup s id =
        read_meta id (op.read s (meta_key cluster id)) (op.read s (tar_key cluster id))
