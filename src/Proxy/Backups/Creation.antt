-- ===== src/Proxy/Backups/Creation.antt =====
-- `create_backup_inner` of proxy/src/backup.rs. What the operating system and pg_basebackup do is a
-- `Machine`.
use pgvisor.Prelude.{ℕ, Bool, true, false, Option, none, some, ◌++◌, length, if◌then◌else◌}
use pgvisor.Prelude.Texts.{Text, text}
use pgvisor.Prelude.Decimals.{decimal}
use pgvisor.Storage.Bytes.{Bytes}
use pgvisor.Backup.Store.{Operator}
use pgvisor.Backup.Manager.{
  BackupError, BackupType, incremental, full, BasebackupMeta, new, Json, save_basebackup,
}
use pgvisor.Backup.Manager as Manager
use pgvisor.Backup.Manager.Prune.{Pruned, panicked, pruned, prune_retention}
use pgvisor.Backup.Archive.{generate_snapshot_id}
use pgvisor.Backup.Archive.Packing.{
  Tools, process_basebackup_archive, create_simulated_basebackup, or_text,
}
use pgvisor.Audit.{Entry}
use pgvisor.Audit.Kind.{backup_created}
use pgvisor.Proxy.Backups.{
  Network, ProxyBackupService, World, Result, ok, err, no_temp_dir, tar_unreadable, archive_failed,
  simulation_failed, save_failed, Target, select_backup_target,
}
use pgvisor.Proxy.Backups.Restore.{audit}

-- `pg_basebackup` gives `none` where it cannot be started, else whether it succeeded; `base_tar` is
-- `none` where there is no such file, `some none` where it cannot be read. The times are those of the
-- start, of the end, and of the retention.
pub record Machine : Type 0 where
  pub has_temp_dir : Bool
  pub pg_basebackup : Text → ℕ → Option Bool
  pub base_tar : Option (Option Bytes)
  pub timestamp : ℕ → Text
  pub started : ℕ
  pub finished : ℕ
  pub pruning : ℕ

-- A panic leaves the rest of the operation undone.
pub data Outcome (W A : Type 0) : Type 0 where
  returned : W → Result A → Outcome W A
  panicking : W → Outcome W A

unfoldable pub initial_meta : Machine → BackupType → Option Text → Text → BasebackupMeta
initial_meta m kind label host =
    record (new (generate_snapshot_id label (m.timestamp m.started)) m.started kind
      (text "000000010000000000000001") 0) { label = label; source_node = some host }

unfoldable pub or_start : Text → Option Text → Option Text
or_start start none = some start
or_start start (some stop) = some stop

-- The metadata and the bytes of the archive, once it is complete.
unfoldable pub processed : Option (BasebackupMeta × Bytes) → Result (BasebackupMeta × Bytes)
processed none = err archive_failed
processed (some (meta, tar)) = ok (
  record meta { total_bytes = length tar; stop_wal = or_start meta.start_wal meta.stop_wal },
  tar,
)

unfoldable pub simulated : Option (BasebackupMeta × Bytes) → Result (BasebackupMeta × Bytes)
simulated none = err simulation_failed
simulated (some (meta, tar)) = ok (record meta { total_bytes = length tar }, tar)

unfoldable pub finish_date : Machine → BasebackupMeta → BasebackupMeta
finish_date m meta = record meta { backup_finish_date = some m.finished }

unfoldable pub from_tar :
    Tools → Machine → BasebackupMeta → Option (Option Bytes) → Result (BasebackupMeta × Bytes)
from_tar tools m meta none = simulated (create_simulated_basebackup tools (finish_date m meta))
from_tar tools m meta (some none) = err tar_unreadable
from_tar tools m meta (some (some bytes)) =
    processed (process_basebackup_archive tools bytes (finish_date m meta))

unfoldable pub capture :
    Tools → Machine → BasebackupMeta → Option Bool → Result (BasebackupMeta × Bytes)
capture tools m meta none = simulated (create_simulated_basebackup tools (finish_date m meta))
capture tools m meta (some false) =
    simulated (create_simulated_basebackup tools (finish_date m meta))
capture tools m meta (some true) = from_tar tools m meta m.base_tar

unfoldable pub type_name : BackupType → Text
type_name full = text "Full"
type_name incremental = text "Incremental"

unfoldable pub created_detail : BasebackupMeta → Text → Text
created_detail meta host =
    text "Created "
    ++ type_name meta.backup_type
    ++ text " physical basebackup snapshot '"
    ++ meta.snapshot_id
    ++ text "' on node '"
    ++ host
    ++ text "' (label: '"
    ++ or_text (text "none") meta.label
    ++ text "', size: "
    ++ decimal meta.total_bytes
    ++ text " bytes)"

unfoldable pub created_entry : ℕ → BasebackupMeta → Text → Entry
created_entry now meta host = record {
  occurred_at = now;
  kind = backup_created;
  node_id = none;
  node_address = some host;
  detail = created_detail meta host;
  pitr_target = none;
}

module _ (op : Operator) (cluster : Text) (json : Json) (tools : Tools) where
  unfoldable pub registered :
      Machine
      → World op
      → BasebackupMeta
      → Text
      → Pruned op.Store
      → Outcome (World op) BasebackupMeta
  registered m w meta host panicked = panicking w
  registered m w meta host (pruned s count) =
      returned
        (record w { store = s; audit_log = audit w.audit_log (created_entry m.pruning meta host) })
        (ok meta)

  unfoldable pub saved :
      ProxyBackupService
      → Machine
      → World op
      → BasebackupMeta
      → Text
      → op.Store × Manager.Result Unit
      → Outcome (World op) BasebackupMeta
  saved svc m w meta host (s, Manager.err e) =
      returned (record w { store = s }) (err (save_failed e))
  saved svc m w meta host (s, Manager.ok u) =
      registered m (record w { store = s }) meta host
        (prune_retention op cluster json s svc.keep_count (some svc.retention_days) m.pruning)

  unfoldable pub save_captured :
      ProxyBackupService
      → Machine
      → World op
      → Text
      → Result (BasebackupMeta × Bytes)
      → Outcome (World op) BasebackupMeta
  save_captured svc m w host (err f) = returned w (err f)
  save_captured svc m w host (ok (meta, tar)) =
      saved svc m w meta host (save_basebackup op cluster json w.store meta tar)

  unfoldable pub back_up :
      ProxyBackupService
      → Machine
      → World op
      → BackupType
      → Option Text
      → Target
      → Outcome (World op) BasebackupMeta
  back_up svc m w kind label target =
      if m.has_temp_dir
      then save_captured svc m w target.host (
          capture tools m (initial_meta m kind label target.host)
            (m.pg_basebackup target.host target.port))
      else returned w (err no_temp_dir)

  unfoldable pub create_backup_inner :
      Network
      → ProxyBackupService
      → Machine
      → World op
      → BackupType
      → Option Text
      → Outcome (World op) BasebackupMeta
  create_backup_inner net svc m w kind label =
      back_up svc m w kind label
        (select_backup_target svc (net.standby_addrs w.calls) (net.leader_addr w.calls))
