-- ===== src/Storage/StateMachine/Examples.antt =====
-- Runs and instances for storage/state_machine.rs, with a codec that knows the states of one node.
use pgvisor.Prelude.{◌≡◌, refl, ◌⊎◌, none, some, List, [], ◌∷◌, All}
use pgvisor.Prelude.Tests.{text_key}
use pgvisor.Raft.Types.{
  leader, NodeInfo, ClusterCommand, register_node, update_node_role, set_state, delete_state,
}
use pgvisor.Storage.Bytes.{bytes_eq, read_exact}
use pgvisor.Storage.StateMachine.{
  Disk, ok, err, corrupted_magic, persist_steps, persist_to_disk, open_state, open_magic,
}
use pgvisor.Storage.Fixtures.{with_index, toy_state, with_index-IsStorable}
use pgvisor.Storage.StateMachine.Persistence.{open_state-persist_to_disk}

abbrev info : NodeInfo
info = record { rpc_addr = "node1:7000"; pg_addr = "node1:5432" }

abbrev commands : List ClusterCommand
commands =
    register_node 1 info
    ∷ set_state "a" "x"
    ∷ update_node_role 1 leader
    ∷ set_state "a" "y"
    ∷ delete_state "b"
    ∷ []

abbrev old_disk : Disk
old_disk = record { file = some (1 ∷ 2 ∷ 3 ∷ 4 ∷ []); temp = none }

refused : open_state toy_state old_disk ≡ err corrupted_magic
unfolding open_state open_magic read_exact bytes_eq
refused = refl

open_state-persist_to_disk_example :
    All
      (λ (crashed : Disk).
        (crashed.file ≡ old_disk.file)
        ⊎ (open_state toy_state crashed ≡ ok (with_index 5, crashed)))
      (persist_steps toy_state (with_index 5) old_disk)
    × (open_state toy_state (persist_to_disk toy_state (with_index 5) old_disk)
        ≡ ok (with_index 5, persist_to_disk toy_state (with_index 5) old_disk))
open_state-persist_to_disk_example =
    open_state-persist_to_disk toy_state (with_index 5) old_disk (with_index-IsStorable 5)
