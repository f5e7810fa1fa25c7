-- ===== src/Proxy/Backups/Working.antt =====
-- What the operations of proxy/src/backup.rs call while they hold the lock: nothing about the lock.
use mathlib.Core.List.{append_assoc}
use pgvisor.Prelude.{
  inl, inr, ℕ, zero, suc, ◌≡◌, refl, sym, ap, ◌∙◌, subst, Option, some, List, [], ◌∷◌, ◌++◌, All,
  if_elim,
}
use pgvisor.Prelude.Tests.{text_key}
use pgvisor.Prelude.Texts.{Text}
use pgvisor.Backup.Store.{Operator}
use pgvisor.Storage.Bytes.{Bytes}
use pgvisor.Backup.Manager.{BackupType, BasebackupMeta, Json, save_basebackup}
use pgvisor.Backup.Manager as Manager
use pgvisor.Backup.Manager.Prune.{Pruned, panicked, pruned, prune_retention}
use pgvisor.Backup.Archive.Packing.{Tools}
use pgvisor.Proxy.Backups.{
  Call, acquire_lock, release_lock, prepare_restore, cancel_restore, restore_snapshot, resync,
  Network, ProxyBackupService, World, Result, ok, err, lock_unreachable, in_progress,
  lock_unreadable, no_lock_token, lock_refused, no_temp_dir, tar_unreadable, archive_failed,
  simulation_failed, save_failed, get_failed, future_target, restore_unreachable, restore_refused,
  host_of,
}
use pgvisor.Proxy.Backups.Restore.{conninfo}
use pgvisor.Proxy.Backups.Asking.{told, repeat, Resyncs, done, next, with_calls}
use pgvisor.Proxy.Backups.Restoring.{
  leader as restored_leader, standbys, before, Restores, RefusesOrRestores,
}
use pgvisor.Proxy.Backups.Creation.{
  Machine, Outcome, returned, panicking, registered, saved, save_captured, back_up,
  create_backup_inner,
}
use pgvisor.Proxy.Backups.Service.{of_pair}

-- A call that is not about the lock.
abbrev pub IsInner : Call → Type 0
IsInner (acquire_lock host) = ⊥
IsInner (release_lock host token) = ⊥
IsInner (prepare_restore host) = Unit
IsInner (cancel_restore host) = Unit
IsInner (restore_snapshot host id target) = Unit
IsInner (resync host info) = Unit

-- More calls, none of them about the lock.
pub record Extends (cs ds : List Call) : Type 0 where
  pub inner : List Call
  pub calls : ds ≡ inner ++ cs
  pub others : All IsInner inner

pub Extends-same : (cs ds : List Call) → ds ≡ cs → Extends cs ds
Extends-same cs ds e = record { inner = []; calls = e; others = tt }

Extends-trans : (bs cs ds : List Call) → Extends bs cs → Extends cs ds → Extends bs ds
Extends-trans bs cs ds e f = record {
  inner = f.inner ++ e.inner;
  calls = f.calls ∙ ap (λ l. f.inner ++ l) e.calls ∙ sym (append_assoc f.inner e.inner bs);
  others = append-All f.inner e.inner f.others e.others;
}
  where
    append-All : (xs ys : List Call) → All IsInner xs → All IsInner ys → All IsInner (xs ++ ys)
    append-All [] ys a b = b
    append-All (x ∷ xs) ys a b = (a.0, append-All xs ys a.1 b)

told-Extends :
    (call : Text → Call)
    → ((host : Text) → IsInner (call host))
    → (ss : List Text) (cs : List Call) → Extends cs (told call ss ++ cs)
told-Extends call inner [] cs = Extends-same cs cs refl
told-Extends call inner (s ∷ ss) cs =
    let first : Extends cs (call (host_of s) ∷ cs) = record {
      inner = call (host_of s) ∷ [];
      calls = refl;
      others = (inner (host_of s), tt);
    } in
    let rest = told-Extends call inner ss (call (host_of s) ∷ cs) in
    subst (Extends cs) (sym (append_assoc (told call ss) (call (host_of s) ∷ []) cs)) (
      Extends-trans cs (call (host_of s) ∷ cs) (told call ss ++ (call (host_of s) ∷ cs)) first rest)

repeat-Extends : (n : ℕ) (c : Call) (cs : List Call) → IsInner c → Extends cs (repeat n c cs)
repeat-Extends zero c cs inner = Extends-same cs cs refl
repeat-Extends (suc n) c cs inner =
    Extends-trans cs (c ∷ cs) (repeat n c (c ∷ cs))
      record { inner = c ∷ []; calls = refl; others = (inner, tt) }
      (repeat-Extends n c (c ∷ cs) inner)

Resyncs-Extends :
    (net : Network) (leader : Text) (ss : List Text) (cs ds : List Call)
    → Resyncs net leader ss cs ds
    → Extends cs ds
Resyncs-Extends net leader ss cs ds (done bs) = Extends-same cs cs refl
Resyncs-Extends net leader ss cs es (next s later bs ds fs t rest) =
    Extends-trans cs ds es
      (subst (Extends cs) (sym t.calls)
        (repeat-Extends (suc t.failed) (resync (host_of s) (conninfo leader)) cs tt))
      (Resyncs-Extends net leader later ds es rest)

module _ (op : Operator) where
  abbrev pub Works : {A : Type 0} → World op → Outcome (World op) A → Type 0
  Works w (returned v r) = Extends w.calls v.calls
  Works w (panicking v) = Extends w.calls v.calls

  module _ (net : Network) (svc : ProxyBackupService) (u : World op) (id : Text)
      (target : Option Text) where
    before-Extends : Extends u.calls (before op net svc u id target)
    before-Extends =
        let told_all =
          told-Extends prepare_restore (λ host. tt) (standbys op net svc u id target) u.calls in
        record {
          inner =
              restore_snapshot (restored_leader op net svc u id target) id target ∷ told_all.inner;
          calls =
              ap (λ cs. restore_snapshot (restored_leader op net svc u id target) id target ∷ cs)
                told_all.calls;
          others = (tt, told_all.others);
        }

    cancelled-Extends :
        (v : World op)
        → v
          ≡ with_calls op net u (
              told cancel_restore (standbys op net svc u id target)
              ++ before op net svc u id target)
        → Extends u.calls v.calls
    cancelled-Extends v e =
        subst (λ (x : World op). Extends u.calls x.calls) (sym e)
          (Extends-trans u.calls (before op net svc u id target)
            (told cancel_restore (standbys op net svc u id target) ++ before op net svc u id target)
            before-Extends
            (told-Extends cancel_restore (λ host. tt) (standbys op net svc u id target)
              (before op net svc u id target)))

    Restores-Works :
        (p : World op × Result Text) → Restores op net svc u id target p → Works u (of_pair p)
    unfolding of_pair
    Restores-Works (v, ok message) r =
        Extends-trans u.calls (before op net svc u id target) v.calls before-Extends (
          Resyncs-Extends net (restored_leader op net svc u id target)
            (standbys op net svc u id target) (before op net svc u id target) v.calls r.resyncs)
    Restores-Works (v, err (future_target t)) r = absurd r
    Restores-Works (v, err restore_unreachable) r = cancelled-Extends v r.0
    Restores-Works (v, err (restore_refused status body)) r = cancelled-Extends v r.0
    Restores-Works (v, err lock_unreachable) r = absurd r
    Restores-Works (v, err in_progress) r = absurd r
    Restores-Works (v, err lock_unreadable) r = absurd r
    Restores-Works (v, err no_lock_token) r = absurd r
    Restores-Works (v, err (lock_refused status body)) r = absurd r
    Restores-Works (v, err no_temp_dir) r = absurd r
    Restores-Works (v, err tar_unreadable) r = absurd r
    Restores-Works (v, err archive_failed) r = absurd r
    Restores-Works (v, err simulation_failed) r = absurd r
    Restores-Works (v, err (save_failed e)) r = absurd r
    Restores-Works (v, err (get_failed e)) r = absurd r

    pub RefusesOrRestores-Works :
        (parse_time : Text → Option ℕ) (p : World op × Result Text)
        → RefusesOrRestores op net svc u id target parse_time p
        → Works u (of_pair p)
    unfolding of_pair
    RefusesOrRestores-Works parse_time p (inl late) =
        subst (λ (q : World op × Result Text). Works u (of_pair q)) (sym late.2)
          (Extends-same u.calls u.calls refl)
    RefusesOrRestores-Works parse_time p (inr timely) = Restores-Works p timely.1

  module _ (net : Network) (cluster : Text) (json : Json) (tools : Tools) (svc : ProxyBackupService)
      (m : Machine) where
    registered-Works :
        (w : World op) (meta : BasebackupMeta) (host : Text) (p : Pruned op.Store)
        → Works w (registered op cluster json tools m w meta host p)
    unfolding registered
    registered-Works w meta host panicked = Extends-same w.calls w.calls refl
    registered-Works w meta host (pruned s count) = Extends-same w.calls w.calls refl

    saved-Works :
        (w : World op) (meta : BasebackupMeta) (host : Text) (r : op.Store × Manager.Result Unit)
        → Works w (saved op cluster json tools svc m w meta host r)
    unfolding saved
    saved-Works w meta host (s, Manager.err e) = Extends-same w.calls w.calls refl
    saved-Works w meta host (s, Manager.ok x) =
        registered-Works (record w { store = s }) meta host
          (prune_retention op cluster json s svc.keep_count (some svc.retention_days) m.pruning)

    save_captured-Works :
        (w : World op) (host : Text) (r : Result (BasebackupMeta × Bytes))
        → Works w (save_captured op cluster json tools svc m w host r)
    unfolding save_captured
    save_captured-Works w host (err f) = Extends-same w.calls w.calls refl
    save_captured-Works w host (ok (meta, tar)) =
        saved-Works w meta host (save_basebackup op cluster json w.store meta tar)

    pub create_backup_inner-Works :
        (w : World op) (kind : BackupType) (label : Option Text)
        → Works w (create_backup_inner op cluster json tools net svc m w kind label)
    unfolding create_backup_inner back_up
    create_backup_inner-Works w kind label =
        if_elim (Works w) m.has_temp_dir (λ made. save_captured-Works w _ _)
          (λ unmade. Extends-same w.calls w.calls refl)
