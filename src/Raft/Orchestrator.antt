-- ===== src/Raft/Orchestrator.antt =====
-- crates/pgvisor-core/src/raft/orchestrator.rs. An `Instant` and a `Duration` are counts of the
-- same unit; `duration_since` saturates at zero, as it does since Rust 1.60.
pub mod Run
pub mod Safety
mod Examples
use pgvisor.Prelude.{ℕ, ◌-◌, Bool, true, false, not, ◌&&◌, leb, eqb, if◌then◌else◌}
use pgvisor.Raft.Types.{NodeRole, leader, standby, fenced}

pub record QuorumLease : Type 0 where
  pub lease_duration : ℕ
  pub last_quorum_ack : ℕ

-- `Instant::now()` is the argument `now`.
unfoldable pub new_lease : ℕ → ℕ → QuorumLease
new_lease lease_duration now = record { lease_duration = lease_duration; last_quorum_ack = now }

unfoldable pub renew : QuorumLease → ℕ → QuorumLease
renew l now = record l { last_quorum_ack = now }

unfoldable pub is_valid : QuorumLease → ℕ → Bool
is_valid l now = leb (now - l.last_quorum_ack) l.lease_duration

unfoldable pub remaining_time : QuorumLease → ℕ → ℕ
remaining_time l now =
    let elapsed = now - l.last_quorum_ack in
    if leb l.lease_duration elapsed then 0 else l.lease_duration - elapsed

pub data OrchestratorAction : Type 0 where
  noop promote_to_leader fence_immediately : OrchestratorAction
  demote_to_standby : ℕ → OrchestratorAction

pub record FailoverOrchestrator : Type 0 where
  pub node_id : ℕ
  pub current_role : NodeRole
  pub lease : QuorumLease

unfoldable pub new : ℕ → ℕ → ℕ → FailoverOrchestrator
unfolding new_lease
new node_id lease_duration now = record {
  node_id = node_id;
  current_role = standby;
  lease = new_lease lease_duration now;
}

unfoldable pub is_leader : NodeRole → Bool
is_leader leader = true
is_leader standby = false
is_leader fenced = false

unfoldable pub on_leader_elected :
    FailoverOrchestrator → ℕ → ℕ → FailoverOrchestrator × OrchestratorAction
unfolding is_leader renew
on_leader_elected o leader_id now =
    if eqb leader_id o.node_id
    then if not (is_leader o.current_role)
      then (record o { current_role = leader; lease = renew o.lease now }, promote_to_leader)
      else (o, noop)
    else if is_leader o.current_role
    then (record o { current_role = fenced }, fence_immediately)
    else (record o { current_role = standby }, demote_to_standby leader_id)

unfoldable pub check_quorum_lease :
    FailoverOrchestrator → ℕ → FailoverOrchestrator × OrchestratorAction
unfolding is_leader is_valid
check_quorum_lease o now =
    if is_leader o.current_role && not (is_valid o.lease now)
    then (record o { current_role = fenced }, fence_immediately)
    else (o, noop)

unfoldable pub on_quorum_acknowledged : FailoverOrchestrator → ℕ → FailoverOrchestrator
unfolding is_leader renew
on_quorum_acknowledged o now =
    if is_leader o.current_role then record o { lease = renew o.lease now } else o

unfoldable pub recover_to_standby :
    FailoverOrchestrator → ℕ → FailoverOrchestrator × OrchestratorAction
recover_to_standby o primary_node_id =
    (record o { current_role = standby }, demote_to_standby primary_node_id)
