-- ===== src/Proxy/Backups/Examples.antt =====
-- A cluster of a leader and two standbys, over the lock handlers of the leader's sidecar.
use pgvisor.Prelude.{
  ℕ, ◌≡◌, refl, ap, ◌∙◌, true, Option, none, some, List, [], ◌∷◌, ◌++◌, String, if_elim, ltb,
  if◌then◌else◌, ◌==◌, arith,
}
use pgvisor.Prelude.Texts.{Text, text, chars_key, trim, trim_start, trim_end_by, is_whitespace}
use pgvisor.Backup.Fixtures.{bucket, bucket-IsObjectStore}
use pgvisor.Backup.Config.{parse_number, parse_digits}
use pgvisor.Backup.Manager.{
  BasebackupMeta, Json, full, new, enriched, list_basebackups, save_basebackup, save_meta,
  save_json, read_entries, parse_entry, sort_by_time, insert_by_time, ends_with, meta_key, tar_key,
  basebackup_prefix,
}
use pgvisor.Backup.Manager.Order.{newest}
use pgvisor.Backup.Archive.{generate_snapshot_id}
use pgvisor.Backup.Archive.Packing.{
  Tools, process_basebackup_archive, copy_members, learn, learn_version, pass_on, finish_copy,
  finish, with_id, is_named,
}
use pgvisor.Sidecar.BackupLock.{
  BackupLockInfo, Response, acquired, service_unavailable, conflict, released, mismatch,
  already_free, handle_acquire_backup_lock, acquire_over, take_lock, new_lock,
}
use pgvisor.Proxy.Backups.{
  Call, acquire_lock, release_lock, prepare_restore, cancel_restore, restore_snapshot, resync,
  Reply, unreachable, refused, accepted, Network, ProxyBackupService, World, ok, or_configured,
  select_backup_target, add_candidates, add_candidate, is_host, choose_target, port_of, port_part,
  port_or_default, lock_answer, token_of, resolve_leader_host, host_or, host_of, first_part,
  split_colon, push_first,
}
use pgvisor.Proxy.Backups.Restore.{restore_backup_inner}
use pgvisor.Proxy.Backups.Creation.{
  Machine, initial_meta, capture, from_tar, processed, or_start, finish_date, create_backup_inner,
}
use pgvisor.Proxy.Backups.Keeping.{IsRegistered, create_backup_inner-IsRegistered}
use pgvisor.Proxy.Backups.Service.{create_backup, restore_backup, delete_backup}
use pgvisor.Proxy.Backups.Targets.{IsStandbys, IsTarget, select_backup_target-IsTarget}
use pgvisor.Proxy.Backups.Restoring.{
  leader, standbys, RefusesOrRestores, restore_backup_inner-Restores,
}
use pgvisor.Proxy.Backups.Locking.{Ends, lock_result, create_backup-Ends}
use pgvisor.Proxy.Backups.Freeing.{lock_after, IsLeader, IsFreed, create_backup-IsFreed}

abbrev clock : List Call → ℕ
clock cs = 0

abbrev fresh : List Call → String
fresh cs = "t"

abbrev reply_of : Response → Reply
reply_of (acquired info) = accepted []
reply_of service_unavailable = refused 503 []
reply_of (conflict until) = refused 409 []
reply_of released = accepted []
reply_of mismatch = accepted []
reply_of already_free = accepted []

-- The second standby's sidecar does not answer.
abbrev answer : List Call → Call → Reply
answer cs (acquire_lock host) =
    reply_of (handle_acquire_backup_lock "leader" (lock_after clock fresh cs) 0 "t").1
answer cs (release_lock host token) = accepted []
answer cs (prepare_restore host) = accepted []
answer cs (cancel_restore host) = accepted []
answer cs (restore_snapshot host id target) = accepted []
answer cs (resync host info) = if host == text "n3" then unreachable else accepted []

abbrev net : Network
net = record {
  answer = answer;
  leader_addr = λ cs. some (text "n1:5432");
  standby_addrs = λ cs. text "n2:5433" ∷ [];
  now = λ cs. 0;
  lock_token = λ body. some (some "t");
}

abbrev service : ProxyBackupService
service = record {
  configured_leader = none;
  configured_standbys = text "n1:5432" ∷ text "n3:5432" ∷ [];
  retention_days = 7;
  keep_count = some 10;
}

abbrev world : World bucket
world = record { calls = []; store = []; pool = none; audit_log = none }

select_backup_target-IsTarget_example :
    IsTarget
      (or_configured (some (text "n1:5432")) service.configured_leader)
      (text "n2:5433" ∷ [] ++ service.configured_standbys)
      (select_backup_target service (text "n2:5433" ∷ []) (some (text "n1:5432")))
select_backup_target-IsTarget_example =
    select_backup_target-IsTarget service (text "n2:5433" ∷ []) (some (text "n1:5432"))

restore_backup_inner-Restores_example :
    IsStandbys
      (leader bucket net service world (text "snap") none)
      (net.standby_addrs world.calls ++ service.configured_standbys)
      (standbys bucket net service world (text "snap") none)
    × RefusesOrRestores bucket net service world
        (text "snap")
        none
        (λ t. none)
        (restore_backup_inner bucket net (λ t. none) service world (text "snap") none)
restore_backup_inner-Restores_example =
    restore_backup_inner-Restores bucket net service world (text "snap") none (λ t. none)

abbrev json : Json
json = record { to_vec = λ m. some m.snapshot_id; from_slice = λ bytes. none }

abbrev tools : Tools
tools = record {
  unpack = λ bytes. some (
      record { path = text "PG_VERSION"; content = text "16" }
      ∷ record { path = text "backup_label.old"; content = [] }
      ∷ []);
  pack = λ members. some (1 ∷ []);
  from_utf8 = λ bytes. some bytes;
  to_utf8 = λ t. t;
  to_vec_pretty = λ m. some m.snapshot_id;
  format_time = λ t. [];
}

abbrev machine : Machine
machine = record {
  has_temp_dir = true;
  pg_basebackup = λ host port. some true;
  base_tar = some (some (1 ∷ []));
  timestamp = λ t. text "20260916-000711";
  started = 1;
  finished = 2;
  pruning = 3;
}

create_backup-Ends_example :
    Ends bucket net service world
      (lock_result bucket net service world)
      (create_backup bucket net [] json tools service machine world full none)
    × Ends bucket net service world
        (lock_result bucket net service world)
        (restore_backup bucket net (λ t. none) service world (text "snap") none)
    × Ends bucket net service world
        (lock_result bucket net service world)
        (delete_backup bucket net [] service world (text "snap"))
create_backup-Ends_example =
    create_backup-Ends bucket net service world [] json tools machine (λ t. none) full none
      (text "snap") none

leads :
    (lock : Option BackupLockInfo) (body : Text)
    → reply_of (handle_acquire_backup_lock "leader" lock 0 "t").1 ≡ accepted body
    → (info : BackupLockInfo) × ((handle_acquire_backup_lock "leader" lock 0 "t").1 ≡ acquired info)
      × (info.token ≡ "t")
unfolding handle_acquire_backup_lock acquire_over take_lock new_lock
leads none body = λ e. (new_lock 0 "t", refl, refl)
leads (some old) body =
    if_elim
      (λ (r : Option BackupLockInfo × Response).
        reply_of r.1 ≡ accepted body
        → (info : BackupLockInfo) × (r.1 ≡ acquired info) × (info.token ≡ "t"))
      (ltb 0 old.expires_at) {y = take_lock 0 "t"} (λ early e. absurd (ground (arith, e)))
      (λ late e. (new_lock 0 "t", refl, refl))

net-IsLeader : IsLeader clock fresh net
net-IsLeader cs host body token e t =
    let granted = leads (lock_after clock fresh cs) body e in
    (
      granted.0,
      granted.1,
      granted.2 ∙ ap (λ o. elim o [ none ↦ "t" | some p ↦ elim p [ none ↦ "t" | some s ↦ s ] ]) t,
    )

lock_granted : lock_result bucket net service world ≡ ok (text "n1", "t")
unfolding lock_answer token_of resolve_leader_host host_or or_configured host_of first_part
    split_colon push_first handle_acquire_backup_lock acquire_over take_lock
lock_granted = refl

create_backup-IsFreed_example :
    IsFreed bucket net service world clock fresh "t"
      (create_backup bucket net [] json tools service machine world full none)
    × IsFreed bucket net service world clock fresh "t"
        (restore_backup bucket net (λ t. none) service world (text "snap") none)
    × IsFreed bucket net service world clock fresh "t"
        (delete_backup bucket net [] service world (text "snap"))
create_backup-IsFreed_example =
    create_backup-IsFreed bucket net service world clock fresh (text "n1") "t" net-IsLeader
      lock_granted [] json tools machine (λ t. none) full none (text "snap") none

-- The snapshot that the machine gives, and a codec that knows it.
abbrev made : BasebackupMeta
made = record (initial_meta machine full none (text "n2")) {
  backup_id = some (text "snap-20260916-000711");
  backup_finish_date = some 2;
  total_bytes = 1;
  stop_wal = some (text "000000010000000000000001");
  pg_version = some (text "16");
}

abbrev codec : Json
codec = record { to_vec = λ m. some m.snapshot_id; from_slice = λ bytes. some made }

chosen :
    select_backup_target service (net.standby_addrs world.calls) (net.leader_addr world.calls)
    ≡ record { host = text "n2"; port = 5433; is_follower = true }
unfolding select_backup_target or_configured add_candidates add_candidate is_host host_of first_part
    split_colon push_first choose_target port_of port_part port_or_default parse_number parse_digits
chosen = refl

taken :
    capture tools machine (initial_meta machine full none (text "n2")) (some true)
    ≡ ok (made, 1 ∷ [])
unfolding capture from_tar processed or_start finish_date initial_meta process_basebackup_archive
    copy_members learn learn_version pass_on finish_copy finish with_id is_named
    generate_snapshot_id new trim trim_start trim_end_by is_whitespace ends_with
taken = refl

saved_last :
    newest (
      list_basebackups bucket [] codec
        (save_basebackup bucket [] codec world.store made (1 ∷ [])).0)
    ≡ some (enriched made)
unfolding list_basebackups save_basebackup save_meta save_json enriched read_entries parse_entry
    sort_by_time insert_by_time ends_with meta_key tar_key basebackup_prefix initial_meta
    generate_snapshot_id new
saved_last = refl

known : made ≡ enriched made
unfolding enriched initial_meta new
known = refl

create_backup_inner-IsRegistered_example :
    IsRegistered bucket bucket-IsObjectStore [] codec tools made
      (1 ∷ [])
      (create_backup_inner bucket [] codec tools net service machine world full none)
create_backup_inner-IsRegistered_example =
    create_backup_inner-IsRegistered bucket bucket-IsObjectStore [] codec tools net service machine
      world full none record { host = text "n2"; port = 5433; is_follower = true } made (1 ∷ [])
      refl chosen taken (λ bytes e. ap some known) saved_last
