-- ===== src/Raft/Orchestrator/Run.antt =====
-- The orchestrator driven by a history of notifications, and the PostgreSQL instance beside it
-- that carries the returned actions out.
use pgvisor.Prelude.{ℕ, List, [], ◌∷◌, ◌≡◌, ◌⊎◌}
use pgvisor.Raft.Types.{NodeRole, leader, standby, fenced}
use pgvisor.Raft.Orchestrator.{
  FailoverOrchestrator, OrchestratorAction, noop, promote_to_leader, fence_immediately,
  demote_to_standby, on_leader_elected, check_quorum_lease, on_quorum_acknowledged,
  recover_to_standby,
}

pub data Event : Type 0 where
  elected : ℕ → Event
  check : Event
  acked : Event
  recover : ℕ → Event

-- One notification at a time `now`.
unfoldable pub step : FailoverOrchestrator → ℕ → Event → FailoverOrchestrator × OrchestratorAction
unfolding on_leader_elected check_quorum_lease on_quorum_acknowledged recover_to_standby
step o now (elected id) = on_leader_elected o id now
step o now check = check_quorum_lease o now
step o now acked = (on_quorum_acknowledged o now, noop)
step o now (recover id) = recover_to_standby o id

-- What PostgreSQL is after an action: writable as primary, a standby, or stopped.
unfoldable pub perform : NodeRole → OrchestratorAction → NodeRole
perform r noop = r
perform r promote_to_leader = leader
perform r fence_immediately = fenced
perform r (demote_to_standby id) = standby

unfoldable pub run :
    FailoverOrchestrator → NodeRole → List (ℕ × Event) → FailoverOrchestrator × NodeRole
unfolding step perform
run o pg [] = (o, pg)
run o pg ((now, e) ∷ es) = run (step o now e).0 (perform pg (step o now e).1) es

-- The events that renew the lease of a node that leads after them.
abbrev pub Renewing : ℕ → Event → Type 0
Renewing id (elected leader_id) = leader_id ≡ id
Renewing id check = ⊥
Renewing id acked = Unit
Renewing id (recover other) = ⊥

-- The history holds such an event at time `t`.
abbrev pub RenewedAt : ℕ → ℕ → List (ℕ × Event) → Type 0
RenewedAt id t [] = ⊥
RenewedAt id t ((now, e) ∷ es) = ((now ≡ t) × Renewing id e) ⊎ RenewedAt id t es

abbrev pub NoElection : List (ℕ × Event) → Type 0
NoElection [] = Unit
NoElection ((now, elected id) ∷ es) = ⊥
NoElection ((now, check) ∷ es) = NoElection es
NoElection ((now, acked) ∷ es) = NoElection es
NoElection ((now, recover id) ∷ es) = NoElection es
