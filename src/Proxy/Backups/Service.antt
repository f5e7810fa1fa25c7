-- ===== src/Proxy/Backups/Service.antt =====
-- The operations of `ProxyBackupService` in proxy/src/backup.rs, under the cluster's backup lock.
use pgvisor.Prelude.{ℕ, Option, List, [], ◌∷◌, leb, String, if◌then◌else◌}
use pgvisor.Prelude.Texts.{Text}
use pgvisor.Storage.Bytes.{Bytes}
use pgvisor.Backup.Store.{Operator}
use pgvisor.Backup.Manager.{
  BackupType, BasebackupMeta, Json, list_basebackups, get_basebackup, delete_basebackup,
}
use pgvisor.Backup.Manager as Manager
use pgvisor.Backup.Archive.Packing.{Tools}
use pgvisor.Proxy.Backups.{
  Network, ProxyBackupService, World, Result, ok, err, get_failed, acquire_backup_lock_on_leader,
  release_backup_lock_on_leader,
}
use pgvisor.Proxy.Backups.Creation.{Machine, Outcome, returned, panicking, create_backup_inner}
use pgvisor.Proxy.Backups.Restore.{restore_backup_inner}

-- `sort_by` of the creation times, latest first, keeps the order of equal ones.
unfoldable pub insert_latest : BasebackupMeta → List BasebackupMeta → List BasebackupMeta
insert_latest m [] = m ∷ []
insert_latest m (n ∷ ns) =
    let rest = insert_latest m ns in if leb n.created_at m.created_at then m ∷ n ∷ ns else n ∷ rest

unfoldable pub sort_latest : List BasebackupMeta → List BasebackupMeta
sort_latest [] = []
sort_latest (m ∷ ms) = insert_latest m (sort_latest ms)

unfoldable pub got : {A : Type 0} → Manager.Result A → Result A
got (Manager.ok a) = ok a
got (Manager.err e) = err (get_failed e)

unfoldable pub of_pair : {W A : Type 0} → W × Result A → Outcome W A
of_pair (w, r) = returned w r

module _ (op : Operator) (net : Network) where
  unfoldable pub unlock : {A : Type 0} → Text → String → Outcome (World op) A → Outcome (World op) A
  unlock host token (returned w r) = returned (release_backup_lock_on_leader op net w host token) r
  unlock host token (panicking w) = panicking w

  -- An operation under the lock.
  unfoldable pub locked :
      {A : Type 0}
      → (World op → Outcome (World op) A)
      → World op × Result (Text × String)
      → Outcome (World op) A
  locked operation (w, err f) = returned w (err f)
  locked operation (w, ok (host, token)) = unlock host token (operation w)

  unfoldable pub restore_backup :
      (Text → Option ℕ)
      → ProxyBackupService
      → World op
      → Text
      → Option Text
      → Outcome (World op) Text
  restore_backup parse_time svc w snapshot_id target =
      locked (λ v. of_pair (restore_backup_inner op net parse_time svc v snapshot_id target))
        (acquire_backup_lock_on_leader op net svc w)

  module _ (cluster : Text) where
    unfoldable pub delete_backup_inner : Text → World op → Outcome (World op) Unit
    delete_backup_inner snapshot_id w =
        returned (record w { store = delete_basebackup op cluster w.store snapshot_id }) (ok tt)

    unfoldable pub delete_backup : ProxyBackupService → World op → Text → Outcome (World op) Unit
    delete_backup svc w snapshot_id =
        locked (delete_backup_inner snapshot_id) (acquire_backup_lock_on_leader op net svc w)

    module _ (json : Json) where
      unfoldable pub list_backups : World op → List BasebackupMeta
      list_backups w = sort_latest (list_basebackups op cluster json w.store)

      unfoldable pub get_backup_archive : World op → Text → Result (BasebackupMeta × Bytes)
      get_backup_archive w snapshot_id = got (get_basebackup op cluster json w.store snapshot_id)

      unfoldable pub create_backup :
          Tools
          → ProxyBackupService
          → Machine
          → World op
          → BackupType
          → Option Text
          → Outcome (World op) BasebackupMeta
      create_backup tools svc m w kind label =
          locked (λ v. create_backup_inner op cluster json tools net svc m v kind label)
            (acquire_backup_lock_on_leader op net svc w)
