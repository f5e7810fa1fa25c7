-- ===== src/Raft/Orchestrator/Safety.antt =====
-- Fencing before promotion elsewhere: theorems on the orchestrator of raft/orchestrator.rs.
use pgvisor.Prelude.{
  ℕ, ◌+◌, ◌-◌, ◌≤◌, List, [], ◌∷◌, ◌≡◌, refl, sym, subst, ◌∙◌, ◌≢◌, ◌⊎◌, inl, inr, ◌↔◌, true, eqb,
  Bool-cases, arith,
}
use pgvisor.Raft.Types.{NodeRole, leader, standby}
use pgvisor.Raft.Orchestrator.{
  FailoverOrchestrator, QuorumLease, is_valid, remaining_time, check_quorum_lease,
  recover_to_standby, new,
}
use pgvisor.Raft.Orchestrator.Run.{
  Event, elected, check, acked, recover, step, perform, run, Renewing, RenewedAt, NoElection,
}

-- A lease is valid exactly up to its deadline, the last acknowledgement plus the duration, and the
-- remaining time is what is left until that deadline, nothing once it has passed.
pub is_valid-remaining_time :
    (l : QuorumLease) (now : ℕ)
    → l.last_quorum_ack ≤ now
    → ((is_valid l now ≡ true) ↔ (now ≤ l.last_quorum_ack + l.lease_duration))
      × (remaining_time l now ≡ l.last_quorum_ack + l.lease_duration - now)
unfolding is_valid remaining_time
is_valid-remaining_time l now h = ((λ v. ground arith, λ v. ground arith), ground arith)

-- At every point of every history, and whatever the times, the role that the orchestrator records
-- is what PostgreSQL is after carrying out the returned actions, if it is so at the start.
pub run_agrees :
    (o : FailoverOrchestrator) (pg : NodeRole) (es : List (ℕ × Event))
    → o.current_role ≡ pg
    → (run o pg es).0.current_role ≡ (run o pg es).1
unfolding run
run_agrees o pg [] h = h
run_agrees o pg ((now, e) ∷ es) h =
    run_agrees (step o now e).0 (perform pg (step o now e).1) es (agrees e)
  where
    agrees : (e : Event) → (step o now e).0.current_role ≡ perform pg (step o now e).1
    agrees (elected id) = ground arith
    agrees check = ground arith
    agrees acked = ground arith
    agrees (recover id) = ground arith

-- One notification leaves a leader only where one led before with the same lease, or renews it.
step_leads :
    (o : FailoverOrchestrator) (now : ℕ) (e : Event)
    → (step o now e).0.current_role ≡ leader
    → ((o.current_role ≡ leader)
        × ((step o now e).0.lease.last_quorum_ack ≡ o.lease.last_quorum_ack))
      ⊎ (((step o now e).0.lease.last_quorum_ack ≡ now) × Renewing o.node_id e)
unfolding step
step_leads o now (elected id) h = ground arith
step_leads o now check h = ground arith
step_leads o now acked h = ground arith
step_leads o now (recover id) h = ground arith

step_keeps :
    (o : FailoverOrchestrator) (now : ℕ) (e : Event)
    → ((step o now e).0.node_id ≡ o.node_id)
      × ((step o now e).0.lease.lease_duration ≡ o.lease.lease_duration)
unfolding step
step_keeps o now (elected id) = ground arith
step_keeps o now check = ground arith
step_keeps o now acked = ground arith
step_keeps o now (recover id) = ground arith

run_keeps :
    (o : FailoverOrchestrator) (pg : NodeRole) (es : List (ℕ × Event))
    → ((run o pg es).0.node_id ≡ o.node_id)
      × ((run o pg es).0.lease.lease_duration ≡ o.lease.lease_duration)
unfolding run
run_keeps o pg [] = (refl, refl)
run_keeps o pg ((now, e) ∷ es) =
    let k = step_keeps o now e in
    let r = run_keeps (step o now e).0 (perform pg (step o now e).1) es in (r.0 ∙ k.0, r.1 ∙ k.1)

-- A node that leads after a history was already leading, with the lease untouched, or holds a lease
-- that dates from an election or an acknowledgement in the history.
run_leads :
    (o : FailoverOrchestrator) (pg : NodeRole) (es : List (ℕ × Event))
    → (run o pg es).0.current_role ≡ leader
    → ((o.current_role ≡ leader)
        × ((run o pg es).0.lease.last_quorum_ack ≡ o.lease.last_quorum_ack))
      ⊎ RenewedAt o.node_id (run o pg es).0.lease.last_quorum_ack es
unfolding run
run_leads o pg [] h = inl (h, refl)
run_leads o pg ((now, e) ∷ es) h =
    go (run_leads (step o now e).0 (perform pg (step o now e).1) es h)
  where
    o' : FailoverOrchestrator
    o' = (step o now e).0

    last : ℕ
    last = (run o' (perform pg (step o now e).1) es).0.lease.last_quorum_ack

    first_step :
        last ≡ o'.lease.last_quorum_ack
        → ((o.current_role ≡ leader) × (o'.lease.last_quorum_ack ≡ o.lease.last_quorum_ack))
          ⊎ ((o'.lease.last_quorum_ack ≡ now) × Renewing o.node_id e)
        → ((o.current_role ≡ leader) × (last ≡ o.lease.last_quorum_ack))
          ⊎ RenewedAt o.node_id last ((now, e) ∷ es)
    first_step same (inl (led, kept)) = inl (led, same ∙ kept)
    first_step same (inr (new_ack, renewing)) = inr (inl (sym (same ∙ new_ack), renewing))

    go :
        ((o'.current_role ≡ leader) × (last ≡ o'.lease.last_quorum_ack))
          ⊎ RenewedAt o'.node_id last es
        → ((o.current_role ≡ leader) × (last ≡ o.lease.last_quorum_ack))
          ⊎ RenewedAt o.node_id last ((now, e) ∷ es)
    go (inl (led, same)) = first_step same (step_leads o now e led)
    go (inr later) = inr (inr (subst (λ id. RenewedAt id last es) (step_keeps o now e).0 later))

-- A node is started as a standby, goes through any history of notifications and then checks its
-- lease at time `now`. If it still leads, then its election or an acknowledgement by a quorum
-- stands in that history at a time `t`, and at most the lease's duration has passed since `t`.
pub check_quorum_lease-fresh :
    (node_id duration t₀ now : ℕ) (es : List (ℕ × Event))
    → (check_quorum_lease (run (new node_id duration t₀) standby es).0 now).0.current_role ≡ leader
    → (t : ℕ) × RenewedAt node_id t es × (now ≤ t + duration)
unfolding check_quorum_lease new
check_quorum_lease-fresh node_id duration t₀ now es led =
    (o.lease.last_quorum_ack, evidence (run_leads start standby es still), ground (arith, kept))
  where
    start : FailoverOrchestrator
    start = new node_id duration t₀

    o : FailoverOrchestrator
    o = (run start standby es).0

    kept : o.lease.lease_duration ≡ duration
    kept = (run_keeps start standby es).1

    still : o.current_role ≡ leader
    still = ground arith

    evidence :
        ((standby ≡ leader) × (o.lease.last_quorum_ack ≡ t₀))
          ⊎ RenewedAt node_id o.lease.last_quorum_ack es
        → RenewedAt node_id o.lease.last_quorum_ack es
    evidence (inl (e, _)) = cc e
    evidence (inr r) = r

-- Without an election no node becomes leader.
run_follows :
    (o : FailoverOrchestrator) (pg : NodeRole) (es : List (ℕ × Event))
    → NoElection es
    → o.current_role ≢ leader
    → (run o pg es).0.current_role ≢ leader
unfolding run step
run_follows o pg [] n h = h
run_follows o pg ((now, elected id) ∷ es) n h = absurd n
run_follows o pg ((now, check) ∷ es) n h =
    run_follows (step o now check).0 (perform pg (step o now check).1) es n (λ e. ground arith)
run_follows o pg ((now, acked) ∷ es) n h =
    run_follows (step o now acked).0 (perform pg (step o now acked).1) es n (λ e. ground arith)
run_follows o pg ((now, recover id) ∷ es) n h =
    run_follows (recover_to_standby o id).0 (perform pg (recover_to_standby o id).1) es n
      (λ e. ground arith)

-- Two different nodes, in any states, are told of the same election, each at its own time, and
-- then each goes through a history with no further election. They do not both lead.
pub one_leader :
    (a b : FailoverOrchestrator) (pa pb : NodeRole) (leader_id ta tb : ℕ) (es fs : List (ℕ × Event))
    → a.node_id ≢ b.node_id
    → NoElection es
    → NoElection fs
    → (run a pa ((ta, elected leader_id) ∷ es)).0.current_role ≡ leader
    → (run b pb ((tb, elected leader_id) ∷ fs)).0.current_role ≢ leader
unfolding run
one_leader a b pa pb leader_id ta tb es fs distinct na nb la =
    elim (Bool-cases (eqb leader_id a.node_id)) [
      | inl at_a ↦ run_follows _ _ fs nb (λ e. ground arith)
      | inr other ↦ absurd (run_follows _ _ es na (λ e. ground arith) la)
    ]
