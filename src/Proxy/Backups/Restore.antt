-- ===== src/Proxy/Backups/Restore.antt =====
-- `restore_backup_inner` of proxy/src/backup.rs. The parsing of a target time is a parameter; the name
-- under which a restore is logged is left out.
use pgvisor.Prelude.{
  ℕ, zero, suc, ◌+◌, ◌*◌, Bool, true, false, Option, none, some, List, [], ◌∷◌, ◌++◌, ltb, contains,
  is_empty, ◌==◌, if◌then◌else◌,
}
use pgvisor.Prelude.Texts.{Text, text, chars_key, trim}
use pgvisor.Backup.Store.{Operator}
use pgvisor.Audit.{AuditLog, Entry, append}
use pgvisor.Audit.Kind.{backup_restored}
use pgvisor.Proxy.Pool.{PoolInner, drain_all}
use pgvisor.Proxy.Backups.{
  Call, prepare_restore, cancel_restore, restore_snapshot, resync, Reply, unreachable, refused,
  accepted, Network, ProxyBackupService, World, Result, ok, err, future_target, restore_unreachable,
  restore_refused, host_of, host_or, or_configured, called,
}

abbrev pub nanoseconds_per_second : ℕ
nanoseconds_per_second = 1000000000

unfoldable pub is_future : ℕ → Option ℕ → Bool
is_future now none = false
is_future now (some t) = ltb (now + 10 * nanoseconds_per_second) t

-- Whether a target time is refused: only one that is read and lies in the future.
unfoldable pub is_refused : (Text → Option ℕ) → ℕ → Option Text → Bool
is_refused parse_time now none = false
is_refused parse_time now (some target) =
    if is_empty (trim target) then false else is_future now (parse_time (trim target))

unfoldable pub time_or_zero : Option ℕ → ℕ
time_or_zero none = 0
time_or_zero (some t) = t

unfoldable pub target_of : (Text → Option ℕ) → Option Text → ℕ
target_of parse_time none = 0
target_of parse_time (some target) = time_or_zero (parse_time (trim target))

-- The dynamic standbys and those configured beside them, without the leader's host.
unfoldable pub add_standby : List Text → Text → List Text
add_standby standbys s = if contains standbys s then standbys else standbys ++ s ∷ []

unfoldable pub union_standbys : List Text → List Text → List Text
union_standbys standbys [] = standbys
union_standbys standbys (s ∷ ss) = union_standbys (add_standby standbys s) ss

unfoldable pub without_host : Text → List Text → List Text
without_host leader_host [] = []
without_host leader_host (s ∷ ss) =
    let rest = without_host leader_host ss in if host_of s == leader_host then rest else s ∷ rest

unfoldable pub conninfo : Text → Text
conninfo leader_host = text "host=" ++ (leader_host ++ text " port=5432 user=postgres")

unfoldable pub target_detail : Option Text → Text
target_detail none = []
target_detail (some t) = text " with PITR target timestamp '" ++ (t ++ text "'")

unfoldable pub restored_entry : ℕ → Text → Text → Option Text → Entry
restored_entry now host snapshot_id target = record {
  occurred_at = now;
  kind = backup_restored;
  node_id = none;
  node_address = some host;
  detail =
      text "Snapshot '"
      ++ (snapshot_id ++ (text "' successfully restored to cluster" ++ target_detail target));
  pitr_target = target;
}

unfoldable pub drain_pool : Option PoolInner → Option PoolInner
drain_pool none = none
drain_pool (some p) = some (drain_all p)

unfoldable pub audit : Option AuditLog → Entry → Option AuditLog
audit none entry = none
audit (some log) entry = some (append log entry).0

unfoldable pub is_accepted : Reply → Bool
is_accepted unreachable = false
is_accepted (refused status body) = false
is_accepted (accepted body) = true

abbrev pub resync_attempts : ℕ
resync_attempts = 5

module _ (op : Operator) (net : Network) where
  -- One call to each host, whatever is answered.
  unfoldable pub tell_all : (Text → Call) → World op → List Text → World op
  tell_all call w [] = w
  tell_all call w (s ∷ ss) = tell_all call (called op net w (call (host_of s))) ss

  -- At most so many attempts, until one succeeds.
  unfoldable pub resync_standby : ℕ → World op → Text → Text → World op
  resync_standby zero w leader_host host = w
  resync_standby (suc attempts) w leader_host host =
      let call = resync host (conninfo leader_host) in
      let again = resync_standby attempts (called op net w call) leader_host host in
      if is_accepted (net.answer w.calls call) then called op net w call else again

  unfoldable pub resync_all : World op → Text → List Text → World op
  resync_all w leader_host [] = w
  resync_all w leader_host (s ∷ ss) =
      resync_all (resync_standby resync_attempts w leader_host (host_of s)) leader_host ss

  -- The pool is drained, and the restore is audited.
  unfoldable pub complete : World op → Text → Text → Option Text → World op × Result Text
  complete w leader_host snapshot_id target = (
    record w {
      pool = drain_pool w.pool;
      audit_log =
          audit w.audit_log (restored_entry (net.now w.calls) leader_host snapshot_id target);
    },
    ok (
        text "Snapshot "
        ++ (snapshot_id ++ (text " successfully restored to cluster" ++ target_detail target))),
  )

  unfoldable pub after_restore :
      World op → Text → List Text → Text → Option Text → Reply → World op × Result Text
  after_restore w leader_host standbys snapshot_id target unreachable =
      (tell_all cancel_restore w standbys, err restore_unreachable)
  after_restore w leader_host standbys snapshot_id target (refused status body) =
      (tell_all cancel_restore w standbys, err (restore_refused status body))
  after_restore w leader_host standbys snapshot_id target (accepted body) =
      complete (resync_all w leader_host standbys) leader_host snapshot_id target

  unfoldable pub restore_leader :
      World op → Text → List Text → Text → Option Text → World op × Result Text
  restore_leader w leader_host standbys snapshot_id target =
      let call = restore_snapshot leader_host snapshot_id target in
      after_restore (called op net w call) leader_host standbys snapshot_id target
        (net.answer w.calls call)

  unfoldable pub restore_leader_host : ProxyBackupService → World op → Text
  restore_leader_host svc w =
      host_or (text "pgvisor-node1") (or_configured (net.leader_addr w.calls) svc.configured_leader)

  unfoldable pub restore_standbys : ProxyBackupService → World op → List Text
  restore_standbys svc w =
      without_host (restore_leader_host svc w)
        (union_standbys (net.standby_addrs w.calls) svc.configured_standbys)

  unfoldable pub restore_backup_inner :
      (Text → Option ℕ)
      → ProxyBackupService
      → World op
      → Text
      → Option Text
      → World op × Result Text
  restore_backup_inner parse_time svc w snapshot_id target =
      let leader_host = restore_leader_host svc w in
      let standbys = restore_standbys svc w in
      if is_refused parse_time (net.now w.calls) target
      then (w, err (future_target (target_of parse_time target)))
      else restore_leader (tell_all prepare_restore w standbys) leader_host standbys snapshot_id
          target
