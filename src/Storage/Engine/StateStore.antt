-- ===== src/Storage/Engine/StateStore.antt =====
-- The state machine store of storage/engine.rs. `stored` is openraft's `StoredMembership::new`.
use pgvisor.Prelude.{Option, none, some, List, [], ◌∷◌}
use pgvisor.Raft.Types.{
  LogId, Entry, EntryPayload, blank, normal, membership, ClusterResponse, success,
}
use pgvisor.Storage.Bytes.{Bytes}
use pgvisor.Storage.StateMachine.{
  StateMachineData, StateCodec, Disk, Result, ok, err, apply_command, persist_to_disk,
  build_snapshot_payload, restore_from_snapshot,
}

pub record StateStore (S : Type 0) : Type 0 where
  pub state : StateMachineData S
  pub disk : Disk

-- The part of openraft's `SnapshotMeta` that the store reads back, and the payload.
pub record Snapshot (S : Type 0) : Type 0 where
  pub last_log_id : Option LogId
  pub last_membership : S
  pub payload : Bytes

module _ {M S : Type 0} (stored : Option LogId → M → S) where
  unfoldable pub apply_payload :
      LogId → EntryPayload M → StateMachineData S → StateMachineData S × ClusterResponse
  apply_payload id (normal cmd) d = apply_command d cmd
  apply_payload id (membership mem) d =
      (record d { last_membership = stored (some id) mem }, success)
  apply_payload id blank d = (d, success)

  -- One round of the loop of `apply`.
  unfoldable pub apply_entry : StateMachineData S → Entry M → StateMachineData S × ClusterResponse
  apply_entry d e = apply_payload e.log_id e.payload (record d { last_applied = some e.log_id })

  unfoldable pub apply_entries :
      StateMachineData S → List (Entry M) → StateMachineData S × List ClusterResponse
  apply_entries d [] = (d, [])
  apply_entries d (e ∷ es) =
      let (d', resp) = apply_entry d e in
      let (final, resps) = apply_entries d' es in (final, resp ∷ resps)

  unfoldable pub apply :
      StateCodec S → StateStore S → List (Entry M) → StateStore S × List ClusterResponse
  apply c s es =
      let (d, resps) = apply_entries s.state es in
      (record { state = d; disk = persist_to_disk c d s.disk }, resps)

module _ {S : Type 0} (c : StateCodec S) where
  unfoldable pub applied_state : StateStore S → Option LogId × S
  applied_state s = (s.state.last_applied, s.state.last_membership)

  unfoldable pub get_current_snapshot : StateStore S → Option (Snapshot S)
  get_current_snapshot s = elim s.state.last_applied [
    | none ↦ none
    | some id ↦ some (record {
      last_log_id = some id;
      last_membership = s.state.last_membership;
      payload = build_snapshot_payload c s.state;
    })
  ]

  unfoldable pub install_snapshot : Snapshot S → StateStore S → Result (StateStore S)
  install_snapshot snap s = elim (restore_from_snapshot c snap.payload (s.state, s.disk)) [
    | err e ↦ err e
    | ok (d, disk) ↦
        let d' = record d {
          last_applied = snap.last_log_id;
          last_membership = snap.last_membership;
        } in
        ok (record { state = d'; disk = persist_to_disk c d' disk })
  ]
