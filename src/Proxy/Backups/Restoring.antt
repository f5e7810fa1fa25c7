-- ===== src/Proxy/Backups/Restoring.antt =====
-- What a restore of proxy/src/backup.rs asks of the sidecars, and in which order.
use pgvisor.Prelude.{
  ℕ, ◌+◌, ◌*◌, ◌<◌, ltb, ◌≡◌, ◌≢◌, refl, sym, ap, ◌∙◌, subst, ◌⊎◌, inl, inr, true, false, Option,
  none, some, List, [], ◌∷◌, ◌++◌, is_empty, if◌then◌else◌, Bool-cases, Option-cases, arith,
}
use pgvisor.Prelude.Texts.{Text, chars_key, trim}
use pgvisor.Backup.Store.{Operator}
use pgvisor.Proxy.Backups.{
  Call, prepare_restore, cancel_restore, restore_snapshot, Reply, unreachable, refused, accepted,
  Network, ProxyBackupService, World, Result, ok, err, future_target, restore_unreachable,
  restore_refused, called,
}
use pgvisor.Proxy.Backups.Targets.{IsStandbys, restore_standbys-IsStandbys}
use pgvisor.Proxy.Backups.Restore.{
  nanoseconds_per_second, is_future, is_refused, time_or_zero, target_of, drain_pool, tell_all,
  is_accepted, complete, after_restore, restore_leader, restore_leader_host, restore_standbys,
  restore_backup_inner,
}
use pgvisor.Proxy.Backups.Asking.{told, Resyncs, with_calls, tell_all_lem, resync_all-Resyncs}

-- The target is read as the time `t`, more than ten seconds ahead.
abbrev pub IsTime : (Text → Option ℕ) → ℕ → Text → ℕ → Type 0
IsTime parse_time now s t =
    (s ≢ []) × (parse_time s ≡ some t) × (now + 10 * nanoseconds_per_second < t)

abbrev pub IsFuture : (Text → Option ℕ) → ℕ → Option Text → ℕ → Type 0
IsFuture parse_time now none t = ⊥
IsFuture parse_time now (some target) t = IsTime parse_time now (trim target) t

read_cases :
    (parse_time : Text → Option ℕ) (now : ℕ) (s : Text)
    → ((t : ℕ) × IsTime parse_time now s t
        × ((if is_empty s then false else is_future now (parse_time s)) ≡ true)
        × (time_or_zero (parse_time s) ≡ t))
      ⊎ (((t : ℕ) → ¬ IsTime parse_time now s t)
          × ((if is_empty s then false else is_future now (parse_time s)) ≡ false))
unfolding is_future time_or_zero
read_cases parse_time now [] = inr (λ t f. f.0 refl, refl)
read_cases parse_time now (c ∷ s) = elim (Option-cases (parse_time (c ∷ s))) [
  | inl e ↦ inr (λ t f. absurd (ground (arith, sym e ∙ f.1)), ap (is_future now) e)
  | inr (t, e) ↦ elim (Bool-cases (ltb (now + 10 * nanoseconds_per_second) t)) [
    | inl late ↦ inl (
      t,
      (λ n. absurd (ground (arith, n)), e, ground (arith, late)),
      ap (is_future now) e ∙ late,
      ap time_or_zero e,
    )
    | inr timely ↦
        inr (λ u f. ground (arith, timely, sym e ∙ f.1, f.2), ap (is_future now) e ∙ timely)
  ]
]

refused_cases :
    (parse_time : Text → Option ℕ) (now : ℕ) (target : Option Text)
    → ((t : ℕ) × IsFuture parse_time now target t
        × (is_refused parse_time now target ≡ true)
        × (target_of parse_time target ≡ t))
      ⊎ (((t : ℕ) → ¬ IsFuture parse_time now target t)
          × (is_refused parse_time now target ≡ false))
unfolding is_refused target_of
refused_cases parse_time now none = inr (λ t f. f, refl)
refused_cases parse_time now (some target) = read_cases parse_time now (trim target)

-- What is asked before the leader answers, latest first.
abbrev pub prepared : Text → List Text → Text → Option Text → List Call → List Call
prepared leader standbys id target cs =
    restore_snapshot leader id target ∷ (told prepare_restore standbys ++ cs)

module _ (op : Operator) (net : Network) (svc : ProxyBackupService) (w : World op) (id : Text)
    (target : Option Text) where
  abbrev pub leader : Text
  leader = restore_leader_host op net svc w

  abbrev pub standbys : List Text
  standbys = restore_standbys op net svc w

  abbrev pub leader_answer : Reply
  leader_answer =
      net.answer (told prepare_restore standbys ++ w.calls) (restore_snapshot leader id target)

  abbrev pub before : List Call
  before = prepared leader standbys id target w.calls

  -- Every standby is told to cancel, and nothing else has changed.
  abbrev pub IsCancelled : World op → Type 0
  IsCancelled v = v ≡ with_calls op net w (told cancel_restore standbys ++ before)

  -- Every standby has been asked to resynchronise; the idle connections are dropped.
  pub record IsRestored (v : World op) : Type 0 where
    pub answered : is_accepted leader_answer ≡ true
    pub resyncs : Resyncs net leader standbys before v.calls
    pub store : v.store ≡ w.store
    pub pool : v.pool ≡ drain_pool w.pool

  abbrev pub Restores : World op × Result Text → Type 0
  Restores (v, ok message) = IsRestored v
  Restores (v, err f) = elim f [
    | restore_unreachable ↦ IsCancelled v × (leader_answer ≡ unreachable)
    | restore_refused status body ↦ IsCancelled v × (leader_answer ≡ refused status body)
    | _ ↦ ⊥
  ]

  started : World op
  started = with_calls op net w before

  by_answer :
      (r : Reply)
      → leader_answer ≡ r
      → Restores (after_restore op net started leader standbys id target r)
  unfolding after_restore complete started is_accepted
  by_answer unreachable e = (tell_all_lem op net cancel_restore started standbys, e)
  by_answer (refused status body) e = (tell_all_lem op net cancel_restore started standbys, e)
  by_answer (accepted body) e =
      let all = resync_all-Resyncs op net started leader standbys in
      record {
        answered = ap is_accepted e;
        resyncs = all.1;
        store = ap (λ (v : World op). v.store) all.0;
        pool = ap (λ (v : World op). drain_pool v.pool) all.0;
      }

  asked-Restores :
      Restores (
        restore_leader op net
          (tell_all op net prepare_restore w standbys)
          leader
          standbys
          id
          target)
  unfolding restore_leader called started
  asked-Restores =
      subst (λ u. Restores (restore_leader op net u leader standbys id target))
        (sym (tell_all_lem op net prepare_restore w standbys)) (by_answer leader_answer refl)

  -- A target time in the future is refused and nothing is done; else the cluster is restored.
  abbrev pub RefusesOrRestores : (Text → Option ℕ) → World op × Result Text → Type 0
  RefusesOrRestores parse_time p =
      ((t : ℕ) × IsFuture parse_time (net.now w.calls) target t × (p ≡ (w, err (future_target t))))
      ⊎ (((t : ℕ) → ¬ IsFuture parse_time (net.now w.calls) target t) × Restores p)

  -- The standbys are the known ones, dynamic or configured, that are not on the leader's host: all of
  -- them, and no other. Whatever the sidecars answer, a restore is one of these. Where there is a target
  -- time that can be read and lies more than ten seconds ahead, it is refused with that time, and nothing is
  -- called or changed. Where there is none such, the standbys are told to prepare, in order, and then the
  -- leader is asked to restore; if it does not answer or refuses, every standby is told to cancel,
  -- nothing but the calls has changed, and the error is the leader's; if it accepts, every standby in turn
  -- is asked to resynchronise, up to five times until it accepts, then the pool's idle connections are
  -- dropped, and the restore succeeds.
  pub restore_backup_inner-Restores :
      (parse_time : Text → Option ℕ)
      → IsStandbys leader (net.standby_addrs w.calls ++ svc.configured_standbys) standbys
        × RefusesOrRestores parse_time (restore_backup_inner op net parse_time svc w id target)
  unfolding restore_backup_inner
  restore_backup_inner-Restores parse_time = (
    restore_standbys-IsStandbys op net svc w,
    elim (refused_cases parse_time (net.now w.calls) target) [
      | inl late ↦ inl (
        late.0,
        late.1,
        ap (λ b. if b then refusal (target_of parse_time target) else asked) late.2
            ∙ ap refusal late.3,
      )
      | inr timely ↦ inr (
        timely.0,
        subst (λ b. Restores (if b then refusal (target_of parse_time target) else asked))
            (sym timely.1) asked-Restores,
      )
    ],
  )
    where
      refusal : ℕ → World op × Result Text
      refusal t = (w, err (future_target t))

      asked : World op × Result Text
      asked =
          restore_leader op net (tell_all op net prepare_restore w standbys) leader standbys id
            target
