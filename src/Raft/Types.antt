-- ===== src/Raft/Types.antt =====
-- crates/pgvisor-core/src/raft/types.rs. `LogId`, `Entry` and the membership are openraft's types:
-- an entry carries its log id and one of three payloads, and the membership stays abstract.
use pgvisor.Prelude.{ℕ, String, Option}

pub data NodeRole : Type 0 where
  leader standby fenced : NodeRole

pub record NodeInfo : Type 0 where
  pub rpc_addr : String
  pub pg_addr : String

pub data ClusterCommand : Type 0 where
  register_node : ℕ → NodeInfo → ClusterCommand
  update_node_role : ℕ → NodeRole → ClusterCommand
  set_state : String → String → ClusterCommand
  delete_state : String → ClusterCommand

pub data ClusterResponse : Type 0 where
  success : ClusterResponse
  value : Option String → ClusterResponse
  error : String → ClusterResponse

-- openraft's `LogId<u64>`: the term and node of the leader that wrote the entry, and its index.
pub record LogId : Type 0 where
  pub term : ℕ
  pub node_id : ℕ
  pub index : ℕ

pub data EntryPayload (M : Type 0) : Type 0 where
  blank : EntryPayload M
  normal : ClusterCommand → EntryPayload M
  membership : M → EntryPayload M

pub record Entry (M : Type 0) : Type 0 where
  pub log_id : LogId
  pub payload : EntryPayload M
