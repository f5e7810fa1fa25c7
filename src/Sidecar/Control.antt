-- ===== src/Sidecar/Control.antt =====
-- crates/pgvisor-sidecar/src/control/handlers.rs: the handlers that change the node. What they meet is a
-- parameter; texts of answers and logs are left out.
pub mod Histories
use pgvisor.Prelude.{
  ℕ, Bool, true, false, not, ◌&&◌, ◌||◌, Option, none, some, List, [], ◌∷◌, ◌++◌, ◌==◌,
  if◌then◌else◌,
}
use pgvisor.Prelude.Texts.{Text, text, chars_key, contains_text}
use pgvisor.Sidecar.Election.{ProcessStatus, stopped, running, fenced, restoring, StatusResponse}
use pgvisor.Sidecar.Supervisor.{
  Supervisor, System, is_running_status, is_stopped, start, stop, fence, promote, set_status,
  is_running, wait_ready, resync_from_primary, restore_from_snapshot,
}

pub data NodeEvent : Type 0 where
  election_result node_joined cluster_restore node_up node_down : NodeEvent

pub data Reply : Type 0 where
  done bad_request not_found internal_error unavailable : Reply

pub record Node : Type 0 where
  pub node_id : ℕ
  pub role : Text
  pub primary_conninfo : Option Text
  pub supervisor : Supervisor
  pub events : List NodeEvent

-- The peers and their answers, the printing of numbers, and for a restore whether its target time is in
-- the future, whether there is a backup manager, and whether it has the snapshot.
pub record Around : Type 0 where
  pub system : System
  pub peers : List Text
  pub probe : Text → Option StatusResponse
  pub decimal : ℕ → Text
  pub target_in_future : Bool
  pub has_manager : Bool
  pub has_snapshot : Bool

unfoldable pub handle_promote : Around → Node → Node × Reply
handle_promote w n =
    if promote w.system
    then (
      record n {
        role = text "leader";
        primary_conninfo = none;
        events = election_result ∷ n.events;
      },
      done,
    )
    else (n, internal_error)

unfoldable pub handle_fence : Node → Node × Reply
handle_fence n = (
  record n {
    supervisor = fence n.supervisor;
    role = text "fenced";
    events = election_result ∷ n.events;
  },
  done,
)

unfoldable pub handle_demote : Node → Node × Reply
handle_demote n = (
  record n {
    supervisor = set_status (stop n.supervisor) fenced;
    role = text "fenced";
    events = election_result ∷ n.events;
  },
  done,
)

unfoldable pub with_application : Around → Node → Text → Text
with_application w n conninfo =
    if contains_text conninfo (text "application_name=")
    then conninfo
    else conninfo ++ (text " application_name=pgvisor-node" ++ w.decimal n.node_id)

unfoldable pub handle_repoint : Around → Node → Text → Node × Reply
handle_repoint w n conninfo =
    if n.role == text "leader" && is_running_status n.supervisor.status
    then (n, done)
    else if w.system.writes_auto_conf
    then (
      record n {
        role = text "standby";
        primary_conninfo = some (with_application w n conninfo);
        events = node_joined ∷ n.events;
      },
      done,
    )
    else (n, internal_error)

-- The role and the configuration change before the restore, and stay where it fails.
unfoldable pub begin_restore : Around → Node → Node × Reply
begin_restore w n =
    let result = restore_from_snapshot w.system (set_status n.supervisor restoring) in
    (
      record n { role = text "leader"; primary_conninfo = none; supervisor = result.0 },
      (if result.1 then done else internal_error),
    )

unfoldable pub handle_restore : Around → Node → Node × Reply
handle_restore w n =
    if w.target_in_future
    then (n, bad_request)
    else if not w.has_manager
    then (n, unavailable)
    else if not w.has_snapshot
    then (n, not_found)
    else begin_restore w n

unfoldable pub handle_prepare_restore : Node → Node × Reply
handle_prepare_restore n = (
  record n { supervisor = set_status n.supervisor restoring; events = cluster_restore ∷ n.events },
  done,
)

unfoldable pub handle_cancel_restore : Node → Node × Reply
handle_cancel_restore n = (
  record n {
    supervisor = set_status n.supervisor (if is_running n.supervisor then running else stopped);
  },
  done,
)

unfoldable pub or_configured : Option Text → Option Text → Option Text
or_configured none configured = configured
or_configured (some given) configured = some given

-- The status is set before the connection to the primary is known.
unfoldable pub resync_to : Around → Node → Option Text → Node × Reply
resync_to w n none = (record n { supervisor = set_status n.supervisor restoring }, bad_request)
resync_to w n (some conninfo) =
    let result = resync_from_primary w.system (set_status n.supervisor restoring) in
    let configured = record n {
      primary_conninfo = some (with_application w n conninfo);
      supervisor = result.0;
    } in
    if result.1
    then (record configured { role = text "standby" }, done)
    else (configured, internal_error)

unfoldable pub handle_resync : Around → Node → Option Text → Node × Reply
handle_resync w n given = resync_to w n (or_configured given n.primary_conninfo)

unfoldable pub leads_or_restores : StatusResponse → Bool
leads_or_restores st =
    st.role == text "leader" && (st.status == text "running" || (st.status == text "restoring"))

unfoldable pub leader_in : Option StatusResponse → Option ℕ → Option ℕ
leader_in none rest = rest
leader_in (some st) rest = if leads_or_restores st then some st.node_id else rest

unfoldable pub find_peer_leader : Around → ℕ → List Text → Option ℕ
find_peer_leader w id [] = none
find_peer_leader w id (peer ∷ peers) =
    let rest = find_peer_leader w id peers in
    if contains_text peer (text "node" ++ w.decimal id) then rest else leader_in (w.probe peer) rest

unfoldable pub standby_conninfo : Around → ℕ → ℕ → Text
standby_conninfo w leader_id id =
    text "host=pgvisor-node"
    ++ w.decimal leader_id
    ++ text " port=5432 user=postgres application_name=pgvisor-node"
    ++ w.decimal id

-- `start`, then `wait_ready`.
unfoldable pub start_and_wait : System → Supervisor → Supervisor × Bool
start_and_wait sys s = let begun = start sys s in if begun.1 then wait_ready sys begun.0 else begun

unfoldable pub or_resync : System → Supervisor × Bool → Supervisor × Bool
or_resync sys begun = if begun.1 then begun else resync_from_primary sys begun.0

unfoldable pub start_as : Around → Node → Option ℕ → Node × Bool
start_as w n none =
    let begun = start_and_wait w.system n.supervisor in (record n { supervisor = begun.0 }, begun.1)
start_as w n (some leader_id) =
    let begun = or_resync w.system (start_and_wait w.system n.supervisor) in
    (
      record n {
        role = text "standby";
        primary_conninfo = some (standby_conninfo w leader_id n.node_id);
        supervisor = begun.0;
      },
      begun.1,
    )

unfoldable pub start_postgres_safely : Around → Node → Node × Bool
start_postgres_safely w n = start_as w n (find_peer_leader w n.node_id w.peers)

unfoldable pub announce : NodeEvent → Node × Bool → Node × Reply
announce e begun =
    if begun.1
    then (record (begun.0) { events = e ∷ begun.0.events }, done)
    else (begun.0, internal_error)

unfoldable pub handle_start : Around → Node → Node × Reply
handle_start w n =
    if is_running_status n.supervisor.status
    then (n, bad_request)
    else announce node_up (start_postgres_safely w n)

unfoldable pub handle_stop : Node → Node × Reply
handle_stop n =
    if is_stopped n.supervisor.status
    then (n, bad_request)
    else (record n { supervisor = stop n.supervisor; events = node_down ∷ n.events }, done)

unfoldable pub handle_restart : Around → Node → Node × Reply
handle_restart w n =
    announce node_up (start_postgres_safely w (record n { supervisor = stop n.supervisor }))
