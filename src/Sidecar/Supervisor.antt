-- ===== src/Sidecar/Supervisor.antt =====
-- crates/pgvisor-sidecar/src/supervisor.rs: the status and the child process. What the operating system
-- and PostgreSQL's tools answer during a call is a parameter; files and logs are left out. A call is
-- one step: what another task does while it waits is not modelled, nor an exit of the child between calls.
pub mod Running
use pgvisor.Prelude.{ℕ, Bool, true, false, not, ◌&&◌, Option, none, some, ltb, if◌then◌else◌}
use pgvisor.Sidecar.Election.{ProcessStatus, stopped, running, fenced, restoring}

-- `active_child`: none, one that runs, and one that has exited and was not waited for.
pub data Child : Type 0 where
  absent alive exited : Child

pub record Supervisor : Type 0 where
  pub status : ProcessStatus
  pub child : Child
  pub child_pid : ℕ

pub data Promotion : Type 0 where
  promoted already_primary refused unrunnable : Promotion

pub data Readiness : Type 0 where
  ready exits times_out : Readiness

-- `spawn` gives the process id, zero for one that is not known.
pub record System : Type 0 where
  pub writes_configs : Bool
  pub spawn : Option ℕ
  pub promotion : Promotion
  pub writes_auto_conf : Bool
  pub readiness : Readiness
  pub primary_ready : Bool
  pub clears_directory : Bool
  pub basebackup : Bool
  pub writes_archive : Bool
  pub tar_fails : Bool

unfoldable pub is_running_status : ProcessStatus → Bool
is_running_status running = true
is_running_status _ = false

unfoldable pub is_stopped : ProcessStatus → Bool
is_stopped stopped = true
is_stopped _ = false

-- A status that is not to be changed to the second one.
unfoldable pub unless_restoring : ProcessStatus → ProcessStatus → ProcessStatus
unless_restoring restoring next = restoring
unless_restoring _ next = next

unfoldable pub unless_fenced : ProcessStatus → ProcessStatus → ProcessStatus
unless_fenced fenced next = fenced
unless_fenced _ next = next

-- Each call gives the supervisor after it, and whether it succeeded.
unfoldable pub spawned : Supervisor → Option ℕ → Supervisor × Bool
spawned s none = (s, false)
spawned s (some pid) =
    (record s { child = alive; child_pid = pid; status = unless_restoring s.status running }, true)

unfoldable pub start : System → Supervisor → Supervisor × Bool
start sys s =
    if is_running_status s.status
    then (s, true)
    else if sys.writes_configs
    then spawned s sys.spawn
    else (s, false)

-- Whether pg_ctl stops it or it is killed, the child is taken.
unfoldable pub stop : Supervisor → Supervisor
stop s =
    if is_stopped s.status
    then s
    else record s { child = absent; child_pid = 0; status = unless_restoring s.status stopped }

unfoldable pub fence : Supervisor → Supervisor
fence s = record s { status = fenced; child = absent; child_pid = 0 }

unfoldable pub promote : System → Bool
promote sys = elim sys.promotion [
  | promoted ↦ true
  | already_primary ↦ true
  | refused ↦ false
  | unrunnable ↦ false
]

unfoldable pub set_status : Supervisor → ProcessStatus → Supervisor
set_status s status = record s { status = status }

unfoldable pub is_running : Supervisor → Bool
is_running s = elim s.child [ absent ↦ false | alive ↦ true | exited ↦ false ]

unfoldable pub child_exits : Supervisor → Child → Supervisor × Bool
child_exits s absent = (s, false)
child_exits s alive =
    (record s { child = exited; child_pid = 0; status = unless_fenced s.status stopped }, false)
child_exits s exited =
    (record s { child = exited; child_pid = 0; status = unless_fenced s.status stopped }, false)

unfoldable pub wait_ready : System → Supervisor → Supervisor × Bool
wait_ready sys s = elim sys.readiness [
  | ready ↦ (s, true)
  | times_out ↦ (s, false)
  | exits ↦ child_exits s s.child
]

-- `Ok` of a wait for the child: it is not taken.
unfoldable pub wait : Supervisor → Supervisor
wait s = elim s.child [
  | absent ↦ s
  | alive ↦ record s { child = exited; status = unless_fenced s.status stopped }
  | exited ↦ record s { status = unless_fenced s.status stopped }
]

-- `start`, then `wait_ready` where the process id is known.
unfoldable pub start_ready : System → Supervisor → Supervisor × Bool
start_ready sys s =
    let begun = start sys s in
    if begun.1 then if ltb 0 begun.0.child_pid then wait_ready sys begun.0 else begun else begun

unfoldable pub joined : Supervisor × Bool → Supervisor × Bool
joined begun = if begun.1 then (set_status begun.0 running, true) else begun

unfoldable pub resync_inner : System → Supervisor → Supervisor × Bool
resync_inner sys s =
    if sys.primary_ready && sys.clears_directory && sys.basebackup
    then joined (start_ready sys s)
    else (s, false)

unfoldable pub resync_from_primary : System → Supervisor → Supervisor × Bool
resync_from_primary sys s =
    let done = resync_inner sys (stop (set_status s restoring)) in
    if done.1 then done else (set_status done.0 fenced, false)

-- Behind a start that succeeded: one that does not get ready is killed.
unfoldable pub restored : System → Supervisor → Supervisor × Bool
restored sys s =
    let waited = if ltb 0 s.child_pid then wait_ready sys s else (s, true) in
    if waited.1
    then (set_status waited.0 running, true)
    else (record waited.0 { status = stopped; child = absent; child_pid = 0 }, false)

unfoldable pub restored_by : System → Supervisor × Bool → Supervisor × Bool
restored_by sys begun = if begun.1 then restored sys begun.0 else begun

unfoldable pub restore_from_snapshot : System → Supervisor → Supervisor × Bool
restore_from_snapshot sys s =
    let halted = stop (set_status s restoring) in
    if sys.clears_directory && sys.writes_archive && not sys.tar_fails
    then restored_by sys (start sys halted)
    else (halted, false)

unfoldable pub restart : System → Supervisor → Supervisor × Bool
restart sys s = let begun = start sys (stop s) in if begun.1 then wait_ready sys begun.0 else begun
