-- ===== src/Sidecar/BackupLock.antt =====
-- The backup lock of crates/pgvisor-sidecar/src/control (handlers.rs, state.rs). The clock (in
-- milliseconds) and the new token of a request are parameters; the lock makes a request one step.
pub mod Exclusion
use pgvisor.Prelude.{
  ℕ, ◌+◌, ◌*◌, Bool, true, false, not, Option, none, some, ltb, String, if◌then◌else◌, ◌==◌,
}
use pgvisor.Prelude.Tests.{text_key}

pub record BackupLockInfo : Type 0 where
  pub token : String
  pub acquired_at : ℕ
  pub expires_at : ℕ

abbrev pub backup_lock_ttl_minutes : ℕ
backup_lock_ttl_minutes = 15

-- The answers: status 503, status 409, the lock's token, and the three answers to a release.
pub data Response : Type 0 where
  service_unavailable : Response
  conflict : ℕ → Response
  acquired : BackupLockInfo → Response
  released mismatch already_free : Response

unfoldable pub new_lock : ℕ → String → BackupLockInfo
new_lock now token = record {
  token = token;
  acquired_at = now;
  expires_at = now + backup_lock_ttl_minutes * 60000;
}

unfoldable pub take_lock : ℕ → String → Option BackupLockInfo × Response
take_lock now token = (some (new_lock now token), acquired (new_lock now token))

unfoldable pub acquire_over : Option BackupLockInfo → ℕ → String → Option BackupLockInfo × Response
acquire_over none now token = take_lock now token
acquire_over (some existing) now token =
    if ltb now existing.expires_at
    then (some existing, conflict existing.expires_at)
    else take_lock now token

unfoldable pub handle_acquire_backup_lock :
    String → Option BackupLockInfo → ℕ → String → Option BackupLockInfo × Response
handle_acquire_backup_lock role lock now token =
    if not (role == "leader") then (lock, service_unavailable) else acquire_over lock now token

unfoldable pub handle_release_backup_lock :
    Option BackupLockInfo → String → Option BackupLockInfo × Response
handle_release_backup_lock none token = (none, already_free)
handle_release_backup_lock (some existing) token =
    if existing.token == token then (none, released) else (some existing, mismatch)

-- The requests, and the node's role when an acquisition is handled.
pub data Request : Type 0 where
  acquire : String → ℕ → String → Request
  release : String → Request

unfoldable pub handle : Option BackupLockInfo → Request → Option BackupLockInfo × Response
handle lock (acquire role now token) = handle_acquire_backup_lock role lock now token
handle lock (release token) = handle_release_backup_lock lock token
