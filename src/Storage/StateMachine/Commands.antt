-- ===== src/Storage/StateMachine/Commands.antt =====
-- What a history of commands leaves in the state machine of storage/state_machine.rs.
use pgvisor.Prelude.{
  ℕ, ◌≡◌, refl, ap, ◌∙◌, String, Option, none, some, List, [], ◌∷◌, eqb, if◌then◌else◌, ◌==◌, arith,
}
use pgvisor.Prelude.Tests.{text_key}
use pgvisor.Prelude.Maps.Assoc
use pgvisor.Prelude.Maps.Ordered
use pgvisor.Raft.Types.{
  NodeRole, standby, ClusterCommand, register_node, update_node_role, set_state, delete_state,
}
use pgvisor.Storage.StateMachine.{StateMachineData, apply_command}

module _ {S : Type 0} where
  unfoldable pub apply_commands : StateMachineData S → List ClusterCommand → StateMachineData S
  apply_commands d [] = d
  apply_commands d (cmd ∷ cmds) = apply_commands (apply_command d cmd).0 cmds

-- The value that one command leaves under a key, from the value before it.
abbrev pub written : String → ClusterCommand → Option String → Option String
written k (register_node node_id info) old = old
written k (update_node_role node_id role) old = old
written k (set_state key v) old = if key == k then some v else old
written k (delete_state key) old = if key == k then none else old

-- The last write of a history.
abbrev pub last_written : String → List ClusterCommand → Option String → Option String
last_written k [] old = old
last_written k (cmd ∷ cmds) old = last_written k cmds (written k cmd old)

-- The role that one command leaves to a node: a registration starts it as a standby.
abbrev pub assigned : ℕ → ClusterCommand → Option NodeRole → Option NodeRole
assigned n (register_node node_id info) old = if eqb node_id n then some standby else old
assigned n (update_node_role node_id role) old = if eqb node_id n then some role else old
assigned n (set_state key v) old = old
assigned n (delete_state key) old = old

abbrev pub last_assigned : ℕ → List ClusterCommand → Option NodeRole → Option NodeRole
last_assigned n [] old = old
last_assigned n (cmd ∷ cmds) old = last_assigned n cmds (assigned n cmd old)

module _ {S : Type 0} where
  kvs-apply_command :
      (d : StateMachineData S) (cmd : ClusterCommand) (k : String)
      → Assoc.get (apply_command d cmd).0.kvs k ≡ written k cmd (Assoc.get d.kvs k)
  unfolding apply_command
  kvs-apply_command d (register_node node_id info) k = refl
  kvs-apply_command d (update_node_role node_id role) k = refl
  kvs-apply_command d (set_state key v) k = Assoc.get-insert d.kvs key k v
  kvs-apply_command d (delete_state key) k = Assoc.get-remove d.kvs key k

  roles-apply_command :
      (d : StateMachineData S) (cmd : ClusterCommand) (n : ℕ)
      → Ordered.get (apply_command d cmd).0.roles n ≡ assigned n cmd (Ordered.get d.roles n)
  unfolding apply_command
  roles-apply_command d (register_node node_id info) n =
      Ordered.get-insert node_id n standby d.roles
  roles-apply_command d (update_node_role node_id role) n =
      Ordered.get-insert node_id n role d.roles
  roles-apply_command d (set_state key v) n = refl
  roles-apply_command d (delete_state key) n = refl

  -- After any history of commands, a key holds what the last command on it wrote or nothing where
  -- that was a deletion, and a node has the role that the last command on it gave, where a
  -- registration gives standby. A key or node that no command names keeps what it had.
  pub apply_commands_last :
      (d : StateMachineData S) (cmds : List ClusterCommand) (k : String) (n : ℕ)
      → (Assoc.get (apply_commands d cmds).kvs k ≡ last_written k cmds (Assoc.get d.kvs k))
        × (Ordered.get (apply_commands d cmds).roles n
            ≡ last_assigned n cmds (Ordered.get d.roles n))
  unfolding apply_commands
  apply_commands_last d [] k n = (refl, refl)
  apply_commands_last d (cmd ∷ cmds) k n =
      let rest = apply_commands_last (apply_command d cmd).0 cmds k n in
      (
        rest.0 ∙ ap (last_written k cmds) (kvs-apply_command d cmd k),
        rest.1 ∙ ap (last_assigned n cmds) (roles-apply_command d cmd n),
      )

  -- Every registered node has a role.
  abbrev pub HaveRoles : StateMachineData S → Type 0
  HaveRoles d = (n : ℕ) → Ordered.get d.roles n ≡ none → Ordered.get d.nodes n ≡ none

  -- Every command keeps it so that each registered node has a role.
  pub apply_command-HaveRoles :
      (d : StateMachineData S) (cmd : ClusterCommand)
      → HaveRoles d
      → HaveRoles (apply_command d cmd).0
  unfolding apply_command
  apply_command-HaveRoles d (register_node node_id info) inv n h = ground (
    arith,
    inv n,
    Ordered.get-insert node_id n standby d.roles,
    Ordered.get-insert node_id n info d.nodes,
  )
  apply_command-HaveRoles d (update_node_role node_id role) inv n h =
      ground (arith, inv n, Ordered.get-insert node_id n role d.roles)
  apply_command-HaveRoles d (set_state key v) inv n h = inv n h
  apply_command-HaveRoles d (delete_state key) inv n h = inv n h
