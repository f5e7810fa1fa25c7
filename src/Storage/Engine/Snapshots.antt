-- ===== src/Storage/Engine/Snapshots.antt =====
-- Replication of the state machine by entries and by snapshots, for storage/engine.rs.
use pgvisor.Prelude.{◌≡◌, refl, ap, ◌∙◌, Option, none, some, List, [], ◌∷◌, ◌++◌, length, arith}
use pgvisor.Raft.Types.{
  LogId, Entry, EntryPayload, blank, normal, membership, ClusterCommand, register_node,
  update_node_role, set_state, delete_state,
}
use pgvisor.Storage.StateMachine.{
  StateMachineData, StateCodec, IsStorable, ok, apply_command, persist_to_disk,
  build_snapshot_payload, restore_from_snapshot, open_state, encode,
}
use pgvisor.Storage.StateMachine.Persistence.{open_state-persist_to_disk}
use pgvisor.Storage.Engine.StateStore.{
  StateStore, Snapshot, apply_payload, apply_entry, apply_entries, apply, get_current_snapshot,
  install_snapshot,
}

-- The log id of the last entry, or what was there before.
abbrev pub last_id : {M : Type 0} → Option LogId → List (Entry M) → Option LogId
last_id old [] = old
last_id old (e ∷ es) = last_id (some e.log_id) es

module _ {M S : Type 0} (stored : Option LogId → M → S) where
  command_keeps :
      (d : StateMachineData S) (cmd : ClusterCommand)
      → (apply_command d cmd).0.last_applied ≡ d.last_applied
  unfolding apply_command
  command_keeps d (register_node node_id info) = refl
  command_keeps d (update_node_role node_id role) = refl
  command_keeps d (set_state key v) = refl
  command_keeps d (delete_state key) = refl

  payload_keeps :
      (id : LogId) (p : EntryPayload M) (d : StateMachineData S)
      → (apply_payload stored id p d).0.last_applied ≡ d.last_applied
  unfolding apply_payload
  payload_keeps id (normal cmd) d = command_keeps d cmd
  payload_keeps id (membership mem) d = refl
  payload_keeps id blank d = refl

  apply_entries-append :
      (d : StateMachineData S) (es fs : List (Entry M))
      → ((apply_entries stored d (es ++ fs)).0
          ≡ (apply_entries stored (apply_entries stored d es).0 fs).0)
        × ((apply_entries stored d (es ++ fs)).1
            ≡ (apply_entries stored d es).1
              ++ (apply_entries stored (apply_entries stored d es).0 fs).1)
  unfolding apply_entries
  apply_entries-append d [] fs = (refl, refl)
  apply_entries-append d (e ∷ es) fs =
      let rest = apply_entries-append (apply_entry stored d e).0 es fs in
      (rest.0, ap (◌∷◌ (apply_entry stored d e).1) rest.1)

  length-apply_entries :
      (d : StateMachineData S) (es : List (Entry M))
      → length (apply_entries stored d es).1 ≡ length es
  unfolding apply_entries
  length-apply_entries d [] = refl
  length-apply_entries d (e ∷ es) =
      omega (arith, length-apply_entries (apply_entry stored d e).0 es)

  last_applied-apply_entries :
      (d : StateMachineData S) (es : List (Entry M))
      → (apply_entries stored d es).0.last_applied ≡ last_id d.last_applied es
  unfolding apply_entries apply_entry
  last_applied-apply_entries d [] = refl
  last_applied-apply_entries d (e ∷ es) =
      last_applied-apply_entries (apply_entry stored d e).0 es
      ∙ ap (λ o. last_id o es) (payload_keeps e.log_id e.payload _)

  -- A batch of entries is applied: it answers each entry once, the last applied log id is that of its
  -- last entry, and a restart from disk finds the state it left. A batch in two parts gives the same
  -- state, disk and answers as the parts one after the other.
  pub apply_lem :
      (c : StateCodec S) (s : StateStore S) (es fs : List (Entry M))
      → IsStorable c (apply stored c s es).0.state
      → (length (apply stored c s es).1 ≡ length es)
        × ((apply stored c s es).0.state.last_applied ≡ last_id s.state.last_applied es)
        × (open_state c (apply stored c s es).0.disk
            ≡ ok ((apply stored c s es).0.state, (apply stored c s es).0.disk))
        × ((apply stored c s (es ++ fs)).0 ≡ (apply stored c (apply stored c s es).0 fs).0)
        × ((apply stored c s (es ++ fs)).1
            ≡ (apply stored c s es).1 ++ (apply stored c (apply stored c s es).0 fs).1)
  unfolding apply persist_to_disk
  apply_lem c s es fs st = (
    length-apply_entries s.state es,
    last_applied-apply_entries s.state es,
    (open_state-persist_to_disk c (apply_entries stored s.state es).0 s.disk st).1,
    ap (λ (d : StateMachineData S). record { state = d; disk = persist_to_disk c d s.disk })
        (apply_entries-append s.state es fs).0,
    (apply_entries-append s.state es fs).1,
  )

-- The store that an installed state leaves.
installed : {S : Type 0} → StateCodec S → StateMachineData S → StateStore S
installed c d = record { state = d; disk = record { file = some (encode c d); temp = none } }

install_decoded :
    {S : Type 0} (c : StateCodec S) (d : StateMachineData S) (snap : Snapshot S) (t : StateStore S)
    → c.deserialize snap.payload ≡ some d
    → install_snapshot c snap t
      ≡ ok (
          installed c
            (record d { last_applied = snap.last_log_id; last_membership = snap.last_membership }))
unfolding install_snapshot restore_from_snapshot persist_to_disk installed
install_decoded c d snap t h = rw (h, install_snapshot, restore_from_snapshot)

snapshot_fields :
    {S : Type 0} (c : StateCodec S) (s : StateStore S) (snap : Snapshot S)
    → get_current_snapshot c s ≡ some snap
    → (snap.payload ≡ c.serialize s.state)
      × (snap.last_log_id ≡ s.state.last_applied)
      × (snap.last_membership ≡ s.state.last_membership)
unfolding get_current_snapshot build_snapshot_payload
snapshot_fields c s snap taken = ground arith

-- A node whose state machine has applied something builds a snapshot, and any other node installs
-- it. Then the other has the same state, and finds it again when it is opened from its disk.
pub install_snapshot-get_current_snapshot :
    {S : Type 0} (c : StateCodec S) (s t : StateStore S) (snap : Snapshot S)
    → get_current_snapshot c s ≡ some snap
    → IsStorable c s.state
    → (t' : StateStore S) × (install_snapshot c snap t ≡ ok t')
      × (t'.state ≡ s.state)
      × (open_state c t'.disk ≡ ok (s.state, t'.disk))
unfolding installed persist_to_disk
install_snapshot-get_current_snapshot c s t snap taken st =
    let (payload, id, mem) = snapshot_fields c s snap taken in
    let same : record s.state {
      last_applied = snap.last_log_id;
      last_membership = snap.last_membership;
    }
        ≡ s.state =
      λ i. record s.state { last_applied = id i; last_membership = mem i } in
    (
      installed c s.state,
      install_decoded c s.state snap t (ap c.deserialize payload ∙ st.decodes)
          ∙ ap (λ d. ok (installed c d)) same,
      refl,
      (open_state-persist_to_disk c s.state t.disk st).1,
    )
