-- ===== src/Sidecar/Supervisor/Running.antt =====
-- A supervisor of sidecar/src/supervisor.rs that says it runs has a child.
use pgvisor.Prelude.{
  ℕ, ◌≡◌, Bool, true, false, not, ◌&&◌, Option, none, some, ltb, if◌then◌else◌, if_elim, arith,
}
use pgvisor.Sidecar.Election.{ProcessStatus, stopped, running, fenced, restoring}
use pgvisor.Sidecar.Supervisor.{
  Child, absent, alive, exited, Supervisor, System, Readiness, ready, exits, times_out,
  is_running_status, is_stopped, unless_restoring, unless_fenced, spawned, start, stop, set_status,
  child_exits, wait_ready, wait, start_ready, resync_inner, resync_from_primary, restored,
  restored_by, joined, restart, restore_from_snapshot,
}

-- What a status says of the child.
abbrev pub Fits : ProcessStatus → Child → Type 0
Fits running absent = ⊥
Fits _ _ = Unit

abbrev pub HasChild : Supervisor → Type 0
HasChild s = Fits s.status s.child

abbrev IsPresent : Child → Type 0
IsPresent absent = ⊥
IsPresent _ = Unit

Fits-present : (p : ProcessStatus) (c : Child) → IsPresent c → Fits p c
Fits-present p absent h = absurd h
Fits-present running alive h = tt
Fits-present running exited h = tt
Fits-present stopped alive h = tt
Fits-present stopped exited h = tt
Fits-present fenced alive h = tt
Fits-present fenced exited h = tt
Fits-present restoring alive h = tt
Fits-present restoring exited h = tt

spawned-HasChild : (s : Supervisor) (o : Option ℕ) → HasChild s → HasChild (spawned s o).0
unfolding spawned
spawned-HasChild s none h = h
spawned-HasChild s (some pid) h = Fits-present (unless_restoring s.status running) alive tt

pub start-HasChild : (sys : System) (s : Supervisor) → HasChild s → HasChild (start sys s).0
unfolding start
start-HasChild sys s h =
    if_elim (λ (r : Supervisor × Bool). HasChild r.0) (is_running_status s.status) (λ e. h)
      (λ e.
        if_elim (λ (r : Supervisor × Bool). HasChild r.0) sys.writes_configs
          (λ w. spawned-HasChild s sys.spawn h) (λ w. h))

pub stop-HasChild : (s : Supervisor) → HasChild s → HasChild (stop s)
unfolding stop unless_restoring
stop-HasChild s h = if_elim HasChild (is_stopped s.status) (λ e. h) (λ e. halted s.status)
  where
    halted : (p : ProcessStatus) → Fits (unless_restoring p stopped) absent
    halted stopped = tt
    halted running = tt
    halted fenced = tt
    halted restoring = tt

start-IsPresent :
    (sys : System) (s : Supervisor)
    → HasChild s
    → (start sys s).1 ≡ true
    → IsPresent (start sys s).0.child
unfolding start spawned is_running_status
start-IsPresent sys s h =
    if_elim (λ (r : Supervisor × Bool). r.1 ≡ true → IsPresent r.0.child)
      (is_running_status s.status) (λ e t. runs s.status s.child h e)
      (λ e.
        if_elim (λ (r : Supervisor × Bool). r.1 ≡ true → IsPresent r.0.child) sys.writes_configs
          (λ w. by_spawn sys.spawn) (λ w t. absurd (ground (arith, t))))
  where
    runs : (p : ProcessStatus) (c : Child) → Fits p c → is_running_status p ≡ true → IsPresent c
    runs running absent h e = h
    runs stopped absent h e = absurd (ground (arith, e))
    runs fenced absent h e = absurd (ground (arith, e))
    runs restoring absent h e = absurd (ground (arith, e))
    runs p alive h e = tt
    runs p exited h e = tt

    by_spawn : (o : Option ℕ) → (spawned s o).1 ≡ true → IsPresent (spawned s o).0.child
    by_spawn none t = absurd (ground (arith, t))
    by_spawn (some pid) t = tt

-- Waiting until PostgreSQL is ready takes no child away.
wait_ready-IsPresent :
    (sys : System) (s : Supervisor) → IsPresent s.child → IsPresent (wait_ready sys s).0.child
unfolding wait_ready child_exits
wait_ready-IsPresent sys s h = by_readiness sys.readiness
  where
    gone : (c : Child) → IsPresent c → IsPresent (child_exits s c).0.child
    gone absent h = absurd h
    gone alive h = tt
    gone exited h = tt

    outcome : Readiness → Supervisor × Bool
    outcome r = elim r [
      | ready ↦ (s, true)
      | times_out ↦ (s, false)
      | exits ↦ child_exits s s.child
    ]

    by_readiness : (r : Readiness) → IsPresent (outcome r).0.child
    by_readiness ready = h
    by_readiness times_out = h
    by_readiness exits = gone s.child h

pub wait_ready-HasChild :
    (sys : System) (s : Supervisor) → HasChild s → HasChild (wait_ready sys s).0
unfolding wait_ready child_exits
wait_ready-HasChild sys s h = by_readiness sys.readiness
  where
    gone : (c : Child) → Fits s.status s.child → Fits s.status c → HasChild (child_exits s c).0
    gone absent a b = a
    gone alive a b = Fits-present (unless_fenced s.status stopped) exited tt
    gone exited a b = Fits-present (unless_fenced s.status stopped) exited tt

    outcome : Readiness → Supervisor × Bool
    outcome r = elim r [
      | ready ↦ (s, true)
      | times_out ↦ (s, false)
      | exits ↦ child_exits s s.child
    ]

    by_readiness : (r : Readiness) → HasChild (outcome r).0
    by_readiness ready = h
    by_readiness times_out = h
    by_readiness exits = gone s.child h h

pub wait-HasChild : (s : Supervisor) → HasChild s → HasChild (wait s)
unfolding wait unless_fenced
wait-HasChild s h = by_child s.child h
  where
    unfenced : (p : ProcessStatus) (c : Child) → Fits p c → Fits (unless_fenced p stopped) c
    unfenced stopped c a = a
    unfenced fenced c a = a
    unfenced running absent a = absurd a
    unfenced running alive a = tt
    unfenced running exited a = tt
    unfenced restoring absent a = tt
    unfenced restoring alive a = tt
    unfenced restoring exited a = tt

    after : Child → Supervisor
    after c = elim c [
      | absent ↦ s
      | alive ↦ record s { child = exited; status = unless_fenced s.status stopped }
      | exited ↦ record s { status = unless_fenced s.status stopped }
    ]

    by_child : (c : Child) → Fits s.status c → HasChild (after c)
    by_child absent g = h
    by_child alive g = Fits-present (unless_fenced s.status stopped) exited tt
    by_child exited g = unfenced s.status s.child h

-- A pair of a call that, where it succeeds, leaves a child.
abbrev Leaves : Supervisor × Bool → Type 0
Leaves r = HasChild r.0 × (r.1 ≡ true → IsPresent r.0.child)

start-Leaves : (sys : System) (s : Supervisor) → HasChild s → Leaves (start sys s)
start-Leaves sys s h = (start-HasChild sys s h, start-IsPresent sys s h)

wait_ready-Leaves :
    (sys : System) (s : Supervisor) → HasChild s → IsPresent s.child → Leaves (wait_ready sys s)
wait_ready-Leaves sys s h p = (wait_ready-HasChild sys s h, λ t. wait_ready-IsPresent sys s p)

start_ready-Leaves : (sys : System) (s : Supervisor) → HasChild s → Leaves (start_ready sys s)
unfolding start_ready
start_ready-Leaves sys s h =
    let begun : Leaves (start sys s) = start-Leaves sys s h in
    if_elim Leaves (start sys s).1
      (λ e.
        if_elim Leaves (ltb 0 (start sys s).0.child_pid)
          (λ l. wait_ready-Leaves sys (start sys s).0 begun.0 (begun.1 e)) (λ l. begun))
      (λ e. begun)

joined-HasChild : (r : Supervisor × Bool) → Leaves r → HasChild (joined r).0
unfolding joined set_status
joined-HasChild r l =
    if_elim (λ (x : Supervisor × Bool). HasChild x.0) r.1
      (λ e. Fits-present running r.0.child (l.1 e)) (λ e. l.0)

-- A status other than running asks for no child.
stop_restoring-HasChild : (s : Supervisor) → HasChild (stop (set_status s restoring))
unfolding set_status
stop_restoring-HasChild s = stop-HasChild (record s { status = restoring }) tt

pub resync_from_primary-HasChild :
    (sys : System) (s : Supervisor) → HasChild (resync_from_primary sys s).0
unfolding resync_from_primary resync_inner set_status
resync_from_primary-HasChild sys s =
    let halted : Supervisor = stop (record s { status = restoring }) in
    let quiet : HasChild halted = stop-HasChild (record s { status = restoring }) tt in
    let inner : HasChild (resync_inner sys halted).0 =
      if_elim (λ (x : Supervisor × Bool). HasChild x.0)
        (sys.primary_ready && sys.clears_directory && sys.basebackup)
        (λ e. joined-HasChild (start_ready sys halted) (start_ready-Leaves sys halted quiet))
        (λ e. quiet) in
    if_elim (λ (x : Supervisor × Bool). HasChild x.0) (resync_inner sys halted).1 (λ e. inner)
      (λ e. tt)

restored_by-HasChild :
    (sys : System) (r : Supervisor × Bool) → Leaves r → HasChild (restored_by sys r).0
unfolding restored_by restored set_status
restored_by-HasChild sys r l =
    if_elim (λ (x : Supervisor × Bool). HasChild x.0) r.1
      (λ e.
        let waited : Supervisor × Bool =
          if ltb 0 r.0.child_pid then wait_ready sys r.0 else (r.0, true) in
        let there : IsPresent waited.0.child =
          if_elim (λ (x : Supervisor × Bool). IsPresent x.0.child) (ltb 0 r.0.child_pid)
            (λ p. wait_ready-IsPresent sys r.0 (l.1 e)) (λ p. l.1 e) in
        if_elim (λ (x : Supervisor × Bool). HasChild x.0) waited.1
          (λ t. Fits-present running waited.0.child there) (λ t. tt))
      (λ e. l.0)

pub restore_from_snapshot-HasChild :
    (sys : System) (s : Supervisor) → HasChild (restore_from_snapshot sys s).0
unfolding restore_from_snapshot set_status
restore_from_snapshot-HasChild sys s =
    let halted : Supervisor = stop (record s { status = restoring }) in
    let quiet : HasChild halted = stop-HasChild (record s { status = restoring }) tt in
    if_elim (λ (x : Supervisor × Bool). HasChild x.0)
      (sys.clears_directory && sys.writes_archive && not sys.tar_fails)
      (λ e. restored_by-HasChild sys (start sys halted) (start-Leaves sys halted quiet))
      (λ e. quiet)

restart-HasChild : (sys : System) (s : Supervisor) → HasChild s → HasChild (restart sys s).0
unfolding restart
restart-HasChild sys s h =
    let begun : Leaves (start sys (stop s)) = start-Leaves sys (stop s) (stop-HasChild s h) in
    if_elim (λ (x : Supervisor × Bool). HasChild x.0) (start sys (stop s)).1
      (λ e. wait_ready-HasChild sys (start sys (stop s)).0 begun.0) (λ e. begun.0)
