-- ===== src/Sidecar/BackupLock/Exclusion.antt =====
-- Who gets the backup lock of sidecar/control, and for how long.
use pgvisor.Prelude.{
  ℕ, ◌+◌, ◌≤◌, ◌<◌, ◌≡◌, ◌≢◌, ◌↔◌, refl, not, Option, none, some, List, [], ◌∷◌, ltb, String,
  if_elim, ◌==◌, same_iff, All, arith,
}
use pgvisor.Prelude.Tests.{text_key}
use pgvisor.Sidecar.BackupLock.{
  BackupLockInfo, Response, service_unavailable, conflict, acquired, released, mismatch,
  already_free, new_lock, take_lock, acquire_over, handle_acquire_backup_lock,
  handle_release_backup_lock, Request, acquire, release, handle,
}

-- The lock and the answers after a list of requests.
unfoldable pub run : Option BackupLockInfo → List Request → Option BackupLockInfo × List Response
run lock [] = (lock, [])
run lock (request ∷ requests) =
    let here = handle lock request in let rest = run here.0 requests in (rest.0, here.1 ∷ rest.1)

-- A request that a holder of the lock need not expect to be overruled by: one before the lock
-- expires, or a release with another token.
abbrev pub IsForeign : BackupLockInfo → Request → Type 0
IsForeign info (acquire role now token) = now < info.expires_at
IsForeign info (release token) = info.token ≢ token

abbrev pub IsRefusal : Response → Type 0
IsRefusal service_unavailable = Unit
IsRefusal (conflict expires_at) = Unit
IsRefusal (acquired info) = ⊥
IsRefusal released = ⊥
IsRefusal mismatch = Unit
IsRefusal already_free = ⊥

abbrev Keeps : BackupLockInfo → Option BackupLockInfo × Response → Type 0
Keeps info r = (r.0 ≡ some info) × IsRefusal r.1

handle-Keeps :
    (info : BackupLockInfo) (request : Request)
    → IsForeign info request
    → Keeps info (handle (some info) request)
unfolding handle handle_acquire_backup_lock acquire_over handle_release_backup_lock
handle-Keeps info (acquire role now token) f =
    if_elim (Keeps info) (not (role == "leader")) (λ e. (refl, tt))
      (λ e.
        if_elim (Keeps info) (ltb now info.expires_at) (λ early. (refl, tt))
          (λ late. absurd (ground (arith, late, f))))
handle-Keeps info (release token) f =
    if_elim (Keeps info) (info.token == token) (λ e. absurd (f ((same_iff info.token token).0 e)))
      (λ e. (refl, tt))

-- While a lock is held, until it expires or is released with its token, no other request changes it,
-- and every request is refused.
pub run-held :
    (info : BackupLockInfo) (requests : List Request)
    → All (IsForeign info) requests
    → ((run (some info) requests).0 ≡ some info) × All IsRefusal (run (some info) requests).1
unfolding run
run-held info [] f = (refl, tt)
run-held info (request ∷ requests) f =
    let here = handle-Keeps info request f.0 in
    let rest = run-held info requests f.1 in rw here.0 (rest.0, (here.1, rest.1))

abbrev pub Grants : BackupLockInfo → Option BackupLockInfo × Response → Type 0
Grants info r = (r.0 ≡ some info) × (r.1 ≡ acquired info)

-- The lock is free, or it has expired.
abbrev pub IsFree : Option BackupLockInfo → ℕ → Type 0
IsFree none now = Unit
IsFree (some existing) now = existing.expires_at ≤ now

acquire_over-IsFree :
    (lock : Option BackupLockInfo) (now : ℕ) (token : String)
    → Grants (new_lock now token) (acquire_over lock now token) ↔ IsFree lock now
unfolding acquire_over take_lock
acquire_over-IsFree none now token = (λ g. tt, λ h. (refl, refl))
acquire_over-IsFree (some existing) now token =
    if_elim (λ r. Grants (new_lock now token) r ↔ (existing.expires_at ≤ now))
      (ltb now existing.expires_at)
      (λ early. (λ g. absurd (unlike g.1), λ h. absurd (ground (arith, early, h))))
      (λ late. (λ g. ground (arith, late), λ h. (refl, refl)))
  where
    unlike : conflict existing.expires_at ≡ acquired (new_lock now token) → ⊥
    unlike e = ground (arith, e)

release-new_lock :
    (now : ℕ) (token : String)
    → handle_release_backup_lock (some (new_lock now token)) token ≡ (none, released)
unfolding handle_release_backup_lock new_lock
release-new_lock now token = rw ((same_iff token token).1 refl) refl

-- The leader grants the lock, for fifteen minutes and under the new token, exactly if it is free or
-- has expired; and a release with that token frees it.
pub handle_acquire_backup_lock_iff :
    (lock : Option BackupLockInfo) (now : ℕ) (token : String)
    → (Grants (new_lock now token) (handle_acquire_backup_lock "leader" lock now token)
        ↔ IsFree lock now)
      × (handle_release_backup_lock (some (new_lock now token)) token ≡ (none, released))
      × ((new_lock now token).expires_at ≡ now + 900000)
unfolding handle_acquire_backup_lock handle_release_backup_lock new_lock
handle_acquire_backup_lock_iff lock now token =
    (acquire_over-IsFree lock now token, release-new_lock now token, omega arith)
