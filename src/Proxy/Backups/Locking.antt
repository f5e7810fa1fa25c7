-- ===== src/Proxy/Backups/Locking.antt =====
-- The backup lock around the operations of proxy/src/backup.rs, and the lock of the leader's sidecar
-- (Sidecar.BackupLock) under them.
use pgvisor.Prelude.{ℕ, ◌≡◌, refl, Option, List, ◌∷◌, String}
use pgvisor.Prelude.Tests.{text_key}
use pgvisor.Prelude.Texts.{Text}
use pgvisor.Backup.Store.{Operator}
use pgvisor.Backup.Manager.{BackupType, Json}
use pgvisor.Backup.Archive.Packing.{Tools}
use pgvisor.Proxy.Backups.{
  Call, acquire_lock, release_lock, Network, ProxyBackupService, World, Result, ok, err, called,
  lock_answer, resolve_leader_host, acquire_backup_lock_on_leader, release_backup_lock_on_leader,
}
use pgvisor.Proxy.Backups.Restore.{restore_backup_inner}
use pgvisor.Proxy.Backups.Restoring.{restore_backup_inner-Restores}
use pgvisor.Proxy.Backups.Creation.{Machine, Outcome, returned, panicking}
use pgvisor.Proxy.Backups.Service.{
  unlock, locked, create_backup, restore_backup, delete_backup, delete_backup_inner,
}
use pgvisor.Proxy.Backups.Working.{
  Extends, Extends-same, Works, create_backup_inner-Works, RefusesOrRestores-Works,
}

module _ (op : Operator) where
  module _ (net : Network) (svc : ProxyBackupService) (w : World op) where
    abbrev pub lock_host : Text
    lock_host = resolve_leader_host svc (net.leader_addr w.calls)

    abbrev pub lock_result : Result (Text × String)
    lock_result = lock_answer op net lock_host (net.answer w.calls (acquire_lock lock_host))

    abbrev pub Ends : {A : Type 0} → Result (Text × String) → Outcome (World op) A → Type 0
    Ends (err f) (returned v r) = (v ≡ called op net w (acquire_lock lock_host)) × (r ≡ err f)
    Ends (err f) (panicking v) = ⊥
    Ends (ok (host, token)) (returned v r) =
        (cs : List Call) × Extends (acquire_lock lock_host ∷ w.calls) cs
        × (v.calls ≡ release_lock host token ∷ cs)
    Ends (ok (host, token)) (panicking v) = Extends (acquire_lock lock_host ∷ w.calls) v.calls

    unlock-Ends :
        {A : Type 0} (host : Text) (token : String) (o : Outcome (World op) A)
        → Works op (called op net w (acquire_lock lock_host)) o
        → Ends (ok (host, token)) (unlock op net host token o)
    unfolding unlock release_backup_lock_on_leader called
    unlock-Ends host token (returned v r) works = (v.calls, works, refl)
    unlock-Ends host token (panicking v) works = works

    locked-Ends :
        {A : Type 0} (operation : World op → Outcome (World op) A)
        → ((u : World op) → Works op u (operation u))
        → Ends lock_result (locked op net operation (acquire_backup_lock_on_leader op net svc w))
    unfolding locked acquire_backup_lock_on_leader
    locked-Ends operation works = by_lock lock_result
      where
        u : World op
        u = called op net w (acquire_lock lock_host)

        by_lock : (l : Result (Text × String)) → Ends l (locked op net operation (u, l))
        by_lock (err f) = (refl, refl)
        by_lock (ok (host, token)) = unlock-Ends host token (operation u) (works u)

    -- Whatever the sidecars answer, creating, restoring and deleting a backup end in one of these ways. The
    -- lock is not granted, which is all that happens, and is the error; or it is granted, every call
    -- between is about something else, and the last call gives the lock back to the same host with the
    -- token it granted, whether the operation succeeds or fails. Only a panic leaves the lock.
    pub create_backup-Ends :
        (cluster : Text) (json : Json) (tools : Tools) (m : Machine) (parse_time : Text → Option ℕ)
        (kind : BackupType) (label : Option Text) (id : Text) (target : Option Text)
        → Ends lock_result (create_backup op net cluster json tools svc m w kind label)
          × Ends lock_result (restore_backup op net parse_time svc w id target)
          × Ends lock_result (delete_backup op net cluster svc w id)
    unfolding create_backup restore_backup delete_backup delete_backup_inner
    create_backup-Ends cluster json tools m parse_time kind label id target = (
      locked-Ends _ (λ u. create_backup_inner-Works op net cluster json tools svc m u kind label),
      locked-Ends _ (λ u.
          RefusesOrRestores-Works op net svc u id target parse_time
            (restore_backup_inner op net parse_time svc u id target)
            (restore_backup_inner-Restores op net svc u id target parse_time).1),
      locked-Ends _ (λ u. Extends-same u.calls u.calls refl),
    )
