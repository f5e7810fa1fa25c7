-- ===== src/Raft/Orchestrator/Examples.antt =====
-- Runs and instances for raft/orchestrator.rs.
use pgvisor.Prelude.{ℕ, ◌+◌, ◌≤◌, List, [], ◌∷◌, ◌≡◌, refl, ◌≢◌, arith}
use pgvisor.Raft.Types.{leader, standby}
use pgvisor.Raft.Orchestrator.{QuorumLease, check_quorum_lease, new}
use pgvisor.Raft.Orchestrator.Run.{Event, elected, check, acked, recover, run, RenewedAt}
use pgvisor.Raft.Orchestrator.Safety.{check_quorum_lease-fresh, one_leader}

-- The unit test's history: elected, kept alive, cut off and fenced, recovered.
abbrev failover : List (ℕ × Event)
failover = (0, elected 1) ∷ (100, acked) ∷ (150, check) ∷ (400, check) ∷ (500, recover 2) ∷ []

failover_ends : (run (new 1 200 0) standby failover).1 ≡ standby
unfolding run new
failover_ends = refl

abbrev lease : QuorumLease
lease = record { lease_duration = 100; last_quorum_ack = 50 }

check_quorum_lease-fresh_example :
    (t : ℕ) × RenewedAt 1 t ((0, elected 1) ∷ (100, acked) ∷ []) × (150 ≤ t + 200)
unfolding run new check_quorum_lease
check_quorum_lease-fresh_example =
    check_quorum_lease-fresh 1 200 0 150 ((0, elected 1) ∷ (100, acked) ∷ []) refl

one_leader_example :
    (run (new 2 200 0) standby ((7, elected 1) ∷ (9, recover 1) ∷ [])).0.current_role ≢ leader
unfolding run new
one_leader_example =
    one_leader (new 1 200 0) (new 2 200 0) standby standby 1 5 7 ((8, acked) ∷ [])
      ((9, recover 1) ∷ []) (λ e. absurd (omega arith)) tt tt refl
