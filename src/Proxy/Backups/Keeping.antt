-- ===== src/Proxy/Backups/Keeping.antt =====
-- What proxy/src/backup.rs leaves of a created backup in the object store (Backup.Manager).
use pgvisor.Prelude.{ℕ, ◌≡◌, refl, sym, ap, ◌∙◌, subst, true, Option, none, some, if_elim, arith}
use pgvisor.Prelude.Texts.{Text}
use pgvisor.Storage.Bytes.{Bytes}
use pgvisor.Backup.Store.{Operator, IsObjectStore}
use pgvisor.Backup.Manager.{
  BackupError, BackupType, BasebackupMeta, Json, enriched, meta_key, tar_key, list_basebackups,
  save_basebackup, get_basebackup, read_meta,
}
use pgvisor.Backup.Manager as Manager
use pgvisor.Backup.Manager.Order.{newest}
use pgvisor.Backup.Manager.Prune.{Pruned, panicked, pruned, prune_retention}
use pgvisor.Backup.Manager.RoundTrip.{ReadsBack, get_basebackup-save_basebackup}
use pgvisor.Backup.Manager.Retention.{prune_retention-keeps_newest}
use pgvisor.Backup.Archive.Packing.{Tools}
use pgvisor.Proxy.Backups.{
  Network, ProxyBackupService, World, Result, ok, err, save_failed, Target, select_backup_target,
}
use pgvisor.Proxy.Backups.Creation.{
  Machine, Outcome, returned, panicking, initial_meta, capture, registered, saved, save_captured,
  back_up, create_backup_inner,
}

enriched-snapshot_id : (meta : BasebackupMeta) → (enriched meta).snapshot_id ≡ meta.snapshot_id
unfolding enriched
enriched-snapshot_id meta = by_id meta.backup_id
  where
    by_id :
        (o : Option Text)
        → (elim o as (λ o. BasebackupMeta) [
          | none ↦ record meta { backup_id = some meta.snapshot_id }
          | some id ↦ meta
        ]).snapshot_id
          ≡ meta.snapshot_id
    by_id none = refl
    by_id (some id) = refl

module _ (op : Operator) (law : IsObjectStore op) (cluster : Text) (json : Json)
    (tools : Tools) where
  -- The snapshot can be fetched from a store, with its metadata and its archive.
  abbrev pub Holds : op.Store → BasebackupMeta → Bytes → Type 0
  Holds s meta tar =
      get_basebackup op cluster json s meta.snapshot_id ≡ Manager.ok (enriched meta, tar)

  Holds-same :
      (s t : op.Store) (meta : BasebackupMeta) (tar : Bytes)
      → op.read t (tar_key cluster meta.snapshot_id) ≡ op.read s (tar_key cluster meta.snapshot_id)
      → op.read t (meta_key cluster meta.snapshot_id)
        ≡ op.read s (meta_key cluster meta.snapshot_id)
      → Holds s meta tar
      → Holds t meta tar
  unfolding get_basebackup
  Holds-same s t meta tar a b h =
      ap
        (λ r.
          read_meta op cluster json meta.snapshot_id r
            (op.read t (tar_key cluster meta.snapshot_id)))
        b
      ∙ ap
          (read_meta op cluster json meta.snapshot_id
            (op.read s (meta_key cluster meta.snapshot_id)))
          a
      ∙ h

  prune_retention-Holds :
      (s t : op.Store) (keep days : Option ℕ) (now count : ℕ) (meta : BasebackupMeta) (tar : Bytes)
      → newest (list_basebackups op cluster json s) ≡ some (enriched meta)
      → prune_retention op cluster json s keep days now ≡ pruned t count
      → Holds s meta tar
      → Holds t meta tar
  prune_retention-Holds s t keep days now count meta tar last e h =
      let kept =
        prune_retention-keeps_newest op law cluster json keep days now s t count (enriched meta)
          last e in
      let same = enriched-snapshot_id meta in
      Holds-same s t meta tar
        (subst (λ id. op.read t (tar_key cluster id) ≡ op.read s (tar_key cluster id)) same kept.1)
        (subst (λ id. op.read t (meta_key cluster id) ≡ op.read s (meta_key cluster id)) same
          kept.2)
        h

  -- The result is the captured snapshot, which can be fetched; only its upload can fail; and a panic
  -- of the retention leaves it.
  abbrev pub IsRegistered : BasebackupMeta → Bytes → Outcome (World op) BasebackupMeta → Type 0
  IsRegistered meta tar (returned v (ok n)) = (n ≡ meta) × Holds v.store meta tar
  IsRegistered meta tar (returned v (err f)) = (e : BackupError) × (f ≡ save_failed e)
  IsRegistered meta tar (panicking v) = Holds v.store meta tar

  module _ (svc : ProxyBackupService) (m : Machine) (w : World op) (host : Text)
      (meta : BasebackupMeta) (tar : Bytes) where
    registered-IsRegistered :
        (s : op.Store) (p : Pruned op.Store)
        → ((t : op.Store) (count : ℕ) → p ≡ pruned t count → Holds t meta tar)
        → Holds s meta tar
        → IsRegistered meta tar
            (registered op cluster json tools m (record w { store = s }) meta host p)
    unfolding registered
    registered-IsRegistered s panicked kept h = h
    registered-IsRegistered s (pruned t count) kept h = (refl, kept t count refl)

    saved-IsRegistered :
        (r : op.Store × Manager.Result Unit)
        → newest (list_basebackups op cluster json r.0) ≡ some (enriched meta)
        → (r.1 ≡ Manager.ok tt → Holds r.0 meta tar)
        → IsRegistered meta tar (saved op cluster json tools svc m w meta host r)
    unfolding saved
    saved-IsRegistered (s, Manager.err e) last h = (e, refl)
    saved-IsRegistered (s, Manager.ok u) last h =
        registered-IsRegistered s
          (prune_retention op cluster json s svc.keep_count (some svc.retention_days) m.pruning)
          (λ t count e.
            prune_retention-Holds s t svc.keep_count (some svc.retention_days) m.pruning count meta
              tar last e (h refl))
          (h refl)

    save_captured-IsRegistered :
        (r : Result (BasebackupMeta × Bytes))
        → r ≡ ok (meta, tar)
        → ReadsBack json (enriched meta)
        → newest
            (list_basebackups op cluster json (save_basebackup op cluster json w.store meta tar).0)
          ≡ some (enriched meta)
        → IsRegistered meta tar (save_captured op cluster json tools svc m w host r)
    unfolding save_captured
    save_captured-IsRegistered r e codec last =
        subst (λ q. IsRegistered meta tar (save_captured op cluster json tools svc m w host q))
          (sym e)
          (saved-IsRegistered (save_basebackup op cluster json w.store meta tar) last
            (get_basebackup-save_basebackup op law cluster json w.store meta tar codec))

  -- Over an object store, once the archive is captured, and if the metadata is read back and its listing
  -- after the upload shows the snapshot as the newest, then the created backup is the captured one, and
  -- can be fetched by its id with its metadata and archive after the retention has pruned the store; or
  -- its upload has failed. Where the retention panics it is in the store all the same.
  pub create_backup_inner-IsRegistered :
      (net : Network) (svc : ProxyBackupService) (m : Machine) (w : World op) (kind : BackupType)
      (label : Option Text) (target : Target) (meta : BasebackupMeta) (tar : Bytes)
      → m.has_temp_dir ≡ true
      → select_backup_target svc (net.standby_addrs w.calls) (net.leader_addr w.calls) ≡ target
      → capture tools m
          (initial_meta m kind label target.host)
          (m.pg_basebackup target.host target.port)
        ≡ ok (meta, tar)
      → ReadsBack json (enriched meta)
      → newest
          (list_basebackups op cluster json (save_basebackup op cluster json w.store meta tar).0)
        ≡ some (enriched meta)
      → IsRegistered meta tar (create_backup_inner op cluster json tools net svc m w kind label)
  unfolding create_backup_inner back_up
  create_backup_inner-IsRegistered net svc m w kind label target meta tar made chosen taken codec
        last =
      subst (λ t. IsRegistered meta tar (back_up op cluster json tools svc m w kind label t))
        (sym chosen)
        (if_elim (IsRegistered meta tar) m.has_temp_dir
          (λ yes_dir. save_captured-IsRegistered svc m w target.host meta tar _ taken codec last)
          (λ no_dir. absurd (ground (arith, made, no_dir))))
