-- ===== src/Sidecar/Control/Histories.antt =====
-- What every history of requests keeps, in sidecar/src/control/handlers.rs.
use pgvisor.Prelude.{
  ℕ, ◌≡◌, refl, Bool, true, false, not, ◌&&◌, Option, none, some, List, [], ◌∷◌, ◌==◌,
  if◌then◌else◌, if_elim, sym, subst, arith,
}
use pgvisor.Prelude.Texts.{Text, text, chars_key}
use pgvisor.Sidecar.Election.{stopped, running, restoring}
use pgvisor.Sidecar.Supervisor.{
  Child, absent, alive, exited, Supervisor, System, is_running_status, is_stopped, start, stop,
  fence, promote, set_status, is_running, wait, resync_from_primary,
}
use pgvisor.Sidecar.Supervisor.Running.{
  Fits, HasChild, start-HasChild, stop-HasChild, wait-HasChild, wait_ready-HasChild,
  resync_from_primary-HasChild, restore_from_snapshot-HasChild,
}
use pgvisor.Sidecar.Control.{
  Node, Around, Reply, done, standby_conninfo, NodeEvent, node_up, handle_promote, handle_fence,
  handle_demote, handle_repoint, begin_restore, handle_restore, handle_prepare_restore,
  handle_cancel_restore, or_configured, resync_to, handle_resync, find_peer_leader, start_and_wait,
  or_resync, start_as, start_postgres_safely, announce, handle_start, handle_stop, handle_restart,
}

pub data Request : Type 0 where
  promote_it fence_it demote_it restore_it prepare cancel start_it stop_it restart_it
        wait_for_exit :
      Request
  repoint_it : Text → Request
  resync_it : Option Text → Request

-- The routes that change the node; `wait_for_exit` is the supervisor's own wait for its child.
unfoldable pub handle : Around → Node → Request → Node
handle w n promote_it = (handle_promote w n).0
handle w n fence_it = (handle_fence n).0
handle w n demote_it = (handle_demote n).0
handle w n restore_it = (handle_restore w n).0
handle w n prepare = (handle_prepare_restore n).0
handle w n cancel = (handle_cancel_restore n).0
handle w n start_it = (handle_start w n).0
handle w n stop_it = (handle_stop n).0
handle w n restart_it = (handle_restart w n).0
handle w n wait_for_exit = record n { supervisor = wait n.supervisor }
handle w n (repoint_it conninfo) = (handle_repoint w n conninfo).0
handle w n (resync_it given) = (handle_resync w n given).0

unfoldable pub run : Node → List (Around × Request) → Node
run n [] = n
run n ((w, r) ∷ rest) = run (handle w n r) rest

abbrev Holds : Node × Reply → Type 0
Holds r = HasChild r.0.supervisor

start_and_wait-HasChild :
    (sys : System) (s : Supervisor) → HasChild s → HasChild (start_and_wait sys s).0
unfolding start_and_wait
start_and_wait-HasChild sys s h =
    if_elim (λ (x : Supervisor × Bool). HasChild x.0) (start sys s).1
      (λ e. wait_ready-HasChild sys (start sys s).0 (start-HasChild sys s h))
      (λ e. start-HasChild sys s h)

or_resync-HasChild :
    (sys : System) (r : Supervisor × Bool) → HasChild r.0 → HasChild (or_resync sys r).0
unfolding or_resync
or_resync-HasChild sys r h =
    if_elim (λ (x : Supervisor × Bool). HasChild x.0) r.1 (λ e. h)
      (λ e. resync_from_primary-HasChild sys r.0)

start_as-HasChild :
    (w : Around) (n : Node) (o : Option ℕ)
    → HasChild n.supervisor
    → HasChild (start_as w n o).0.supervisor
unfolding start_as
start_as-HasChild w n none h = start_and_wait-HasChild w.system n.supervisor h
start_as-HasChild w n (some leader_id) h =
    or_resync-HasChild w.system (start_and_wait w.system n.supervisor)
      (start_and_wait-HasChild w.system n.supervisor h)

announce-HasChild :
    (e : NodeEvent) (r : Node × Bool) → HasChild r.0.supervisor → Holds (announce e r)
unfolding announce
announce-HasChild e r h = if_elim Holds r.1 (λ t. h) (λ t. h)

resync_to-HasChild : (w : Around) (n : Node) (o : Option Text) → Holds (resync_to w n o)
unfolding resync_to set_status
resync_to-HasChild w n none = tt
resync_to-HasChild w n (some conninfo) =
    let kept = resync_from_primary-HasChild w.system (set_status n.supervisor restoring) in
    if_elim Holds (resync_from_primary w.system (set_status n.supervisor restoring)).1 (λ e. kept)
      (λ e. kept)

restore-HasChild : (w : Around) (n : Node) → HasChild n.supervisor → Holds (handle_restore w n)
unfolding handle_restore begin_restore
restore-HasChild w n h =
    if_elim Holds w.target_in_future (λ e. h)
      (λ e.
        if_elim Holds (not w.has_manager) (λ e. h)
          (λ e.
            if_elim Holds (not w.has_snapshot) (λ e. h)
              (λ e. restore_from_snapshot-HasChild w.system (set_status n.supervisor restoring))))

cancel-HasChild : (n : Node) → Holds (handle_cancel_restore n)
unfolding handle_cancel_restore set_status is_running
cancel-HasChild n = by_child n.supervisor.child
  where
    found : Child → Bool
    found c = elim c [ absent ↦ false | alive ↦ true | exited ↦ false ]

    by_child : (c : Child) → Fits (if found c then running else stopped) c
    by_child absent = tt
    by_child alive = tt
    by_child exited = tt

handle-HasChild :
    (w : Around) (n : Node) (r : Request)
    → HasChild n.supervisor
    → HasChild (handle w n r).supervisor
unfolding handle handle_promote handle_fence handle_demote handle_prepare_restore handle_start
    handle_stop handle_restart handle_repoint handle_resync start_postgres_safely fence set_status
handle-HasChild w n promote_it h = if_elim Holds (promote w.system) (λ e. h) (λ e. h)
handle-HasChild w n fence_it h = tt
handle-HasChild w n demote_it h = tt
handle-HasChild w n restore_it h = restore-HasChild w n h
handle-HasChild w n prepare h = tt
handle-HasChild w n cancel h = cancel-HasChild n
handle-HasChild w n start_it h =
    if_elim Holds (is_running_status n.supervisor.status) (λ e. h)
      (λ e.
        announce-HasChild node_up (start_postgres_safely w n)
          (start_as-HasChild w n (find_peer_leader w n.node_id w.peers) h))
handle-HasChild w n stop_it h =
    if_elim Holds (is_stopped n.supervisor.status) (λ e. h) (λ e. stop-HasChild n.supervisor h)
handle-HasChild w n restart_it h =
    let m : Node = record n { supervisor = stop n.supervisor } in
    announce-HasChild node_up (start_postgres_safely w m)
      (start_as-HasChild w m (find_peer_leader w m.node_id w.peers) (stop-HasChild n.supervisor h))
handle-HasChild w n wait_for_exit h = wait-HasChild n.supervisor h
handle-HasChild w n (repoint_it conninfo) h =
    if_elim Holds (n.role == text "leader" && is_running_status n.supervisor.status) (λ e. h)
      (λ e. if_elim Holds w.system.writes_auto_conf (λ e. h) (λ e. h))
handle-HasChild w n (resync_it given) h =
    resync_to-HasChild w n (or_configured given n.primary_conninfo)

-- Requests handled one after the other keep that a supervisor that says PostgreSQL runs has a child process
-- that it has not let go of, though the process may have exited.
run-HasChild :
    (n : Node) (history : List (Around × Request))
    → HasChild n.supervisor
    → HasChild (run n history).supervisor
unfolding run
run-HasChild n [] h = h
run-HasChild n ((w, r) ∷ rest) h = run-HasChild (handle w n r) rest (handle-HasChild w n r h)

-- With another node that leads, or restores as the leader, in sight, starting a node that succeeds makes it
-- a standby of that node, and does not leave it in its old role.
pub handle_start-standby :
    (w : Around) (n : Node) (leader_id : ℕ)
    → find_peer_leader w n.node_id w.peers ≡ some leader_id
    → (handle_start w n).1 ≡ done
    → ((handle_start w n).0.role ≡ text "standby")
      × ((handle_start w n).0.primary_conninfo ≡ some (standby_conninfo w leader_id n.node_id))
unfolding handle_start announce start_postgres_safely start_as
handle_start-standby w n leader_id e =
    if_elim IsStandby (is_running_status n.supervisor.status) (λ b h. absurd (ground (arith, h)))
      (λ b.
        subst (λ o. IsStandby (announce node_up (start_as w n o))) (sym e)
          (if_elim IsStandby (or_resync w.system (start_and_wait w.system n.supervisor)).1
            (λ s h. (refl, refl)) (λ s h. absurd (ground (arith, h)))))
  where
    IsStandby : Node × Reply → Type 0
    IsStandby r =
        r.1 ≡ done
        → (r.0.role ≡ text "standby")
          × (r.0.primary_conninfo ≡ some (standby_conninfo w leader_id n.node_id))
