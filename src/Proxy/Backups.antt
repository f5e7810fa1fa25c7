-- ===== src/Proxy/Backups.antt =====
-- `ProxyBackupService` of proxy/src/backup.rs: the calls to the sidecars, the cluster's backup lock, and
-- the choice of the node to back up. The sidecars' answers, the shared addresses, the clock and the JSON
-- of an answer are a `Network`, which may depend on all calls made before.
pub mod Creation
pub mod Restore
pub mod Service
pub mod Targets
pub mod Asking
pub mod Working
pub mod Locking
pub mod Freeing
pub mod Keeping
pub mod Restoring
mod Examples
use pgvisor.Prelude.{
  ℕ, ◌^◌, Bool, true, false, not, ◌&&◌, ◌||◌, Option, none, some, List, [], ◌∷◌, ◌++◌, eqb, leb,
  ltb, String, contains, ◌==◌, if◌then◌else◌,
}
use pgvisor.Prelude.Texts.{Text, text, chars_key}
use pgvisor.Backup.Config.{parse_number}
use pgvisor.Backup.Store.{Operator}
use pgvisor.Backup.Manager.{BackupError}
use pgvisor.Audit.{AuditLog}
use pgvisor.Proxy.Pool.{PoolInner}

-- A request to the control server of a host.
pub data Call : Type 0 where
  acquire_lock : Text → Call
  release_lock : Text → String → Call
  prepare_restore cancel_restore : Text → Call
  restore_snapshot : Text → Text → Option Text → Call
  resync : Text → Text → Call

-- No answer, or a status that is no success with the text of the answer, or a success.
pub data Reply : Type 0 where
  unreachable : Reply
  refused : ℕ → Text → Reply
  accepted : Text → Reply

-- The calls before, latest first, come first in each argument list. `lock_token` reads the token from
-- an answer: `none` is no JSON, `some none` has no such string.
pub record Network : Type 0 where
  pub answer : List Call → Call → Reply
  pub leader_addr : List Call → Option Text
  pub standby_addrs : List Call → List Text
  pub now : List Call → ℕ
  pub lock_token : Text → Option (Option String)

pub record ProxyBackupService : Type 0 where
  pub configured_leader : Option Text
  pub configured_standbys : List Text
  pub retention_days : ℕ
  pub keep_count : Option ℕ

-- What the service changes: the calls made, the object store, and its pool and audit log, if any.
pub record World (op : Operator) : Type 0 where
  pub calls : List Call
  pub store : op.Store
  pub pool : Option PoolInner
  pub audit_log : Option AuditLog

pub data Failure : Type 0 where
  lock_unreachable in_progress lock_unreadable no_lock_token : Failure
  lock_refused restore_refused : ℕ → Text → Failure
  no_temp_dir tar_unreadable archive_failed simulation_failed : Failure
  save_failed get_failed : BackupError → Failure
  future_target : ℕ → Failure
  restore_unreachable : Failure

pub data Result (A : Type 0) : Type 0 where
  ok : A → Result A
  err : Failure → Result A

-- `addr.split(':')`, and its first part.
unfoldable pub push_first : ℕ → List Text → List Text
push_first c [] = (c ∷ []) ∷ []
push_first c (part ∷ parts) = (c ∷ part) ∷ parts

unfoldable pub split_colon : Text → List Text
split_colon [] = [] ∷ []
split_colon (c ∷ s) = let rest = split_colon s in if eqb c 58 then [] ∷ rest else push_first c rest

unfoldable pub first_part : List Text → Text
first_part [] = []
first_part (part ∷ parts) = part

unfoldable pub host_of : Text → Text
host_of addr = first_part (split_colon addr)

unfoldable pub port_or_default : Option ℕ → ℕ
port_or_default none = 5432
port_or_default (some p) = p

unfoldable pub port_part : List Text → ℕ
port_part [] = 5432
port_part (host ∷ []) = 5432
port_part (host ∷ port ∷ parts) = port_or_default (parse_number (2 ^ 16) port)

unfoldable pub port_of : Text → ℕ
port_of addr = port_part (split_colon addr)

unfoldable pub or_configured : Option Text → Option Text → Option Text
or_configured none configured = configured
or_configured (some addr) configured = some addr

unfoldable pub host_or : Text → Option Text → Text
host_or fallback none = fallback
host_or fallback (some addr) = host_of addr

unfoldable pub resolve_leader_host : ProxyBackupService → Option Text → Text
resolve_leader_host svc leader =
    host_or (text "127.0.0.1") (or_configured leader svc.configured_leader)

-- The known standbys that are not on the leader's host, each once.
unfoldable pub is_host : Text → Option Text → Bool
is_host host none = false
is_host host (some addr) = host == host_of addr

unfoldable pub add_candidate : Option Text → List Text → Text → List Text
add_candidate leader candidates s =
    if not (is_host (host_of s) leader) && not (contains candidates s)
    then candidates ++ s ∷ []
    else candidates

unfoldable pub add_candidates : Option Text → List Text → List Text → List Text
add_candidates leader candidates [] = candidates
add_candidates leader candidates (s ∷ ss) =
    add_candidates leader (add_candidate leader candidates s) ss

-- The host, the port, and whether it is a follower.
pub record Target : Type 0 where
  pub host : Text
  pub port : ℕ
  pub is_follower : Bool

unfoldable pub leader_target : Option Text → Target
leader_target none = record { host = text "127.0.0.1"; port = 5432; is_follower = false }
leader_target (some addr) = record { host = host_of addr; port = port_of addr; is_follower = false }

unfoldable pub choose_target : Option Text → List Text → Target
choose_target leader [] = leader_target leader
choose_target leader (s ∷ ss) = record { host = host_of s; port = port_of s; is_follower = true }

unfoldable pub select_backup_target : ProxyBackupService → List Text → Option Text → Target
select_backup_target svc standbys leader =
    let known = or_configured leader svc.configured_leader in
    choose_target known (add_candidates known [] (standbys ++ svc.configured_standbys))

unfoldable pub token_of : Text → Option (Option String) → Result (Text × String)
token_of host none = err lock_unreadable
token_of host (some none) = err no_lock_token
token_of host (some (some token)) = ok (host, token)

module _ (op : Operator) (net : Network) where
  -- The world after a call.
  unfoldable pub called : World op → Call → World op
  called w c = record w { calls = c ∷ w.calls }

  unfoldable pub lock_answer : Text → Reply → Result (Text × String)
  lock_answer host unreachable = err lock_unreachable
  lock_answer host (refused status body) =
      if eqb status 409 then err in_progress else err (lock_refused status body)
  lock_answer host (accepted body) = token_of host (net.lock_token body)

  -- The leader's host and the token.
  unfoldable pub acquire_backup_lock_on_leader :
      ProxyBackupService → World op → World op × Result (Text × String)
  acquire_backup_lock_on_leader svc w =
      let host = resolve_leader_host svc (net.leader_addr w.calls) in
      (called w (acquire_lock host), lock_answer host (net.answer w.calls (acquire_lock host)))

  -- The answer is only logged.
  unfoldable pub release_backup_lock_on_leader : World op → Text → String → World op
  release_backup_lock_on_leader w host token = called w (release_lock host token)
