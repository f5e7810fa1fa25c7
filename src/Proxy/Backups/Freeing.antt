-- ===== src/Proxy/Backups/Freeing.antt =====
-- The operations of proxy/src/backup.rs over the lock handlers of the leader's sidecar
-- (Sidecar.BackupLock): what the lock is afterwards.
use pgvisor.Prelude.{
  ℕ, ◌≡◌, refl, ap, ◌∙◌, subst, Option, none, some, List, [], ◌∷◌, ◌++◌, All, String, if_elim, ltb,
  same_iff, arith,
}
use pgvisor.Prelude.Tests.{text_key}
use pgvisor.Prelude.Texts.{Text}
use pgvisor.Backup.Store.{Operator}
use pgvisor.Backup.Manager.{BackupType, Json}
use pgvisor.Backup.Archive.Packing.{Tools}
use pgvisor.Sidecar.BackupLock.{
  BackupLockInfo, Response, acquired, conflict, service_unavailable, released, mismatch,
  already_free, take_lock, acquire_over, handle_acquire_backup_lock, handle_release_backup_lock,
}
use pgvisor.Proxy.Backups.{
  Call, acquire_lock, release_lock, prepare_restore, cancel_restore, restore_snapshot, resync,
  Reply, unreachable, refused, accepted, Network, ProxyBackupService, World, Result, ok, err,
  lock_answer, token_of,
}
use pgvisor.Proxy.Backups.Creation.{Machine, Outcome, returned, panicking}
use pgvisor.Proxy.Backups.Service.{create_backup, restore_backup, delete_backup}
use pgvisor.Proxy.Backups.Working.{IsInner}
use pgvisor.Proxy.Backups.Locking.{lock_host, lock_result, Ends, create_backup-Ends}

-- The leader's lock after the calls, each handled with the clock and the new token of its time.
module _ (clock : List Call → ℕ) (fresh : List Call → String) where
  abbrev pub request : List Call → Option BackupLockInfo → Option BackupLockInfo × Response
  request cs lock = handle_acquire_backup_lock "leader" lock (clock cs) (fresh cs)

  abbrev pub lock_after : List Call → Option BackupLockInfo
  lock_after [] = none
  lock_after (acquire_lock host ∷ cs) = (request cs (lock_after cs)).0
  lock_after (release_lock host token ∷ cs) = (handle_release_backup_lock (lock_after cs) token).0
  lock_after (prepare_restore host ∷ cs) = lock_after cs
  lock_after (cancel_restore host ∷ cs) = lock_after cs
  lock_after (restore_snapshot host id target ∷ cs) = lock_after cs
  lock_after (resync host info ∷ cs) = lock_after cs

  -- A token that the proxy reads in an answer is that of the lock the handler has granted.
  abbrev pub IsLeader : Network → Type 0
  IsLeader net =
      (cs : List Call) (host body : Text) (token : String)
      → net.answer cs (acquire_lock host) ≡ accepted body
      → net.lock_token body ≡ some (some token)
      → (info : BackupLockInfo) × ((request cs (lock_after cs)).1 ≡ acquired info)
        × (info.token ≡ token)

  inner-lock_after :
      (inner cs : List Call) → All IsInner inner → lock_after (inner ++ cs) ≡ lock_after cs
  inner-lock_after [] cs a = refl
  inner-lock_after (acquire_lock host ∷ inner) cs a = absurd a.0
  inner-lock_after (release_lock host token ∷ inner) cs a = absurd a.0
  inner-lock_after (prepare_restore host ∷ inner) cs a = inner-lock_after inner cs a.1
  inner-lock_after (cancel_restore host ∷ inner) cs a = inner-lock_after inner cs a.1
  inner-lock_after (restore_snapshot host id target ∷ inner) cs a = inner-lock_after inner cs a.1
  inner-lock_after (resync host info ∷ inner) cs a = inner-lock_after inner cs a.1

abbrev Held : BackupLockInfo → Option BackupLockInfo × Response → Type 0
Held info r = r.1 ≡ acquired info → r.0 ≡ some info

abbrev granted : Response → Option BackupLockInfo
granted service_unavailable = none
granted (conflict until) = none
granted (acquired info) = some info
granted released = none
granted mismatch = none
granted already_free = none

acquire-Held :
    (lock : Option BackupLockInfo) (now : ℕ) (token : String) (info : BackupLockInfo)
    → Held info (handle_acquire_backup_lock "leader" lock now token)
unfolding handle_acquire_backup_lock acquire_over take_lock
acquire-Held none now token info = ap granted
acquire-Held (some old) now token info =
    if_elim (Held info) (ltb now old.expires_at) {y = take_lock now token}
      (λ early. λ e. absurd (ground (arith, e))) (λ late. ap granted)

release-Held :
    (info : BackupLockInfo) (token : String)
    → info.token ≡ token
    → (handle_release_backup_lock (some info) token).0 ≡ none
unfolding handle_release_backup_lock
release-Held info token e = rw ((same_iff info.token token).1 e) refl

abbrev token_in : Result (Text × String) → Option String
token_in (ok (host, token)) = some token
token_in (err f) = none

token_of-token :
    (from host : Text) (token : String) (o : Option (Option String))
    → token_of from o ≡ ok (host, token)
    → o ≡ some (some token)
unfolding token_of
token_of-token from host token none e = absurd (ground (arith, e))
token_of-token from host token (some none) e = absurd (ground (arith, e))
token_of-token from host token (some (some t)) e = ap some (ap token_in e)

module _ (op : Operator) (net : Network) (svc : ProxyBackupService) (w : World op)
    (clock : List Call → ℕ) (fresh : List Call → String) where
  -- The lock is free, or a panic has left it to the token granted.
  abbrev pub IsFreed : {A : Type 0} → String → Outcome (World op) A → Type 0
  IsFreed token (returned v r) = lock_after clock fresh v.calls ≡ none
  IsFreed token (panicking v) =
      (info : BackupLockInfo) × (lock_after clock fresh v.calls ≡ some info) × (info.token ≡ token)

  Granted : Text → String → Type 0
  Granted host token =
      (info : BackupLockInfo) × (lock_after clock fresh
          (acquire_lock (lock_host op net svc w) ∷ w.calls)
        ≡ some info)
      × (info.token ≡ token)

  Ends-IsFreed :
      {A : Type 0} (host : Text) (token : String) (o : Outcome (World op) A)
      → Granted host token
      → Ends op net svc w (ok (host, token)) o
      → IsFreed token o
  unfolding Granted
  Ends-IsFreed host token (returned v r) (info, held, same) (cs, x, last) =
      ap (lock_after clock fresh) last
      ∙ ap (λ l. (handle_release_backup_lock l token).0)
          (ap (lock_after clock fresh) x.calls
            ∙ inner-lock_after clock fresh x.inner _ x.others
            ∙ held)
      ∙ release-Held info token same
  Ends-IsFreed host token (panicking v) (info, held, same) x = (
    info,
    ap (lock_after clock fresh) x.calls ∙ inner-lock_after clock fresh x.inner _ x.others ∙ held,
    same,
  )

  lock_answer-Granted :
      (host : Text) (token : String) (r : Reply)
      → IsLeader clock fresh net
      → net.answer w.calls (acquire_lock (lock_host op net svc w)) ≡ r
      → lock_answer op net (lock_host op net svc w) r ≡ ok (host, token)
      → Granted host token
  unfolding Granted lock_answer token_of
  lock_answer-Granted host token unreachable leads e granting = absurd (ground (arith, granting))
  lock_answer-Granted host token (refused status body) leads e granting =
      absurd (ground (arith, granting))
  lock_answer-Granted host token (accepted body) leads e granting =
      let (info, grant, same) =
        leads w.calls (lock_host op net svc w) body token e
          (token_of-token (lock_host op net svc w) host token (net.lock_token body) granting) in
      (
        info,
        acquire-Held (lock_after clock fresh w.calls) (clock w.calls) (fresh w.calls) info grant,
        same,
      )

  -- Over a leader whose handlers answer the calls, and no other client, once the proxy reads that it has been
  -- granted the lock, the lock is free after creating, restoring or deleting a backup, whether that
  -- succeeds or fails; after a panic it is still held under the token.
  pub create_backup-IsFreed :
      (host : Text) (token : String)
      → IsLeader clock fresh net
      → lock_result op net svc w ≡ ok (host, token)
      → (cluster : Text) (json : Json) (tools : Tools) (m : Machine) (parse_time : Text → Option ℕ)
        (kind : BackupType) (label : Option Text) (id : Text) (target : Option Text)
      → IsFreed token (create_backup op net cluster json tools svc m w kind label)
        × IsFreed token (restore_backup op net parse_time svc w id target)
        × IsFreed token (delete_backup op net cluster svc w id)
  create_backup-IsFreed host token leads e cluster json tools m parse_time kind label id target =
      let held = lock_answer-Granted host token _ leads refl e in
      let all =
        create_backup-Ends op net svc w cluster json tools m parse_time kind label id target in
      (freed _ held all.0, freed _ held all.1, freed _ held all.2)
    where
      freed :
          {A : Type 0} (o : Outcome (World op) A)
          → Granted host token
          → Ends op net svc w (lock_result op net svc w) o
          → IsFreed token o
      freed o held x = Ends-IsFreed host token o held (subst (λ l. Ends op net svc w l o) e x)
