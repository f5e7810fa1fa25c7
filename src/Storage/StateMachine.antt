-- ===== src/Storage/StateMachine.antt =====
-- crates/pgvisor-core/src/storage/state_machine.rs. `S` is openraft's `StoredMembership`; `bincode`
-- and `crc32fast` over the whole state are a codec. The disk is the state file and its temporary.
pub mod Commands
pub mod Persistence
mod Examples
use pgvisor.Prelude.{
  ℕ, ◌<◌, ◌≡◌, String, Option, none, some, List, [], ◌∷◌, ◌++◌, not, eqb, if◌then◌else◌, drop, take,
}
use pgvisor.Prelude.Maps.Assoc
use pgvisor.Prelude.Maps.Assoc.{Assoc}
use pgvisor.Prelude.Maps.Ordered
use pgvisor.Prelude.Maps.Ordered.{BTreeMap}
use pgvisor.Prelude.Tests.{text_key}
use pgvisor.Raft.Types.{
  NodeRole, standby, NodeInfo, ClusterCommand, register_node, update_node_role, set_state,
  delete_state, ClusterResponse, success, value, LogId,
}
use pgvisor.Storage.Bytes.{Bytes, put_u32, read_u32, bytes_eq, read_exact}

-- b"PGSM"
abbrev pub state_magic : Bytes
state_magic = b'P' ∷ b'G' ∷ b'S' ∷ b'M' ∷ []

-- The keys and values stand in the order of their insertion, where the program sorts them.
pub record StateMachineData (S : Type 0) : Type 0 where
  pub last_applied : Option LogId
  pub last_membership : S
  pub kvs : Assoc String String
  pub nodes : BTreeMap NodeInfo
  pub roles : BTreeMap NodeRole

pub record StateCodec (S : Type 0) : Type 0 where
  pub crc32 : Bytes → ℕ
  pub serialize : StateMachineData S → Bytes
  pub deserialize : Bytes → Option (StateMachineData S)
  -- `StoredMembership::default()`
  pub no_membership : S

-- What the two crates document, for one state.
pub record IsStorable {S : Type 0} (c : StateCodec S) (d : StateMachineData S) : Type 0 where
  pub crc32_bound : c.crc32 (c.serialize d) < 4294967296
  pub decodes : c.deserialize (c.serialize d) ≡ some d

pub record Disk : Type 0 where
  pub file : Option Bytes
  pub temp : Option Bytes

pub data Error : Type 0 where
  io corrupted_magic checksum_mismatch serialization : Error

pub data Result {ℓ} (A : Type ℓ) : Type ℓ where
  ok : A → Result A
  err : Error → Result A

module _ {S : Type 0} where
  unfoldable pub apply_command :
      StateMachineData S → ClusterCommand → StateMachineData S × ClusterResponse
  apply_command d (register_node node_id info) = (
    record d {
      nodes = Ordered.insert node_id info d.nodes;
      roles = Ordered.insert node_id standby d.roles;
    },
    success,
  )
  apply_command d (update_node_role node_id role) =
      (record d { roles = Ordered.insert node_id role d.roles }, success)
  apply_command d (set_state key v) = (record d { kvs = Assoc.insert d.kvs key v }, success)
  apply_command d (delete_state key) =
      (record d { kvs = Assoc.remove d.kvs key }, value (Assoc.get d.kvs key))

  module _ (c : StateCodec S) where
    unfoldable pub default : StateMachineData S
    default = record {
      last_applied = none;
      last_membership = c.no_membership;
      kvs = [];
      nodes = [];
      roles = [];
    }

    unfoldable pub encode : StateMachineData S → Bytes
    encode d = state_magic ++ (put_u32 (c.crc32 (c.serialize d)) ++ c.serialize d)

    -- The disk after each system call of `persist_to_disk`, the last one the rename.
    unfoldable pub persist_steps : StateMachineData S → Disk → List Disk
    persist_steps d disk =
        record disk { temp = some [] }
        ∷ record disk { temp = some state_magic }
        ∷ record disk { temp = some (state_magic ++ put_u32 (c.crc32 (c.serialize d))) }
        ∷ record disk { temp = some (encode d) }
        ∷ record { file = some (encode d); temp = none }
        ∷ []

    unfoldable pub persist_to_disk : StateMachineData S → Disk → Disk
    persist_to_disk d disk = record { file = some (encode d); temp = none }

    unfoldable pub open_payload : ℕ → Bytes → Result (StateMachineData S)
    open_payload expected_crc payload =
        if not (eqb (c.crc32 payload) expected_crc)
        then err checksum_mismatch
        else elim (c.deserialize payload) [ none ↦ err serialization | some d ↦ ok d ]

    unfoldable pub open_checksum : Option (Bytes × Bytes) → Result (StateMachineData S)
    open_checksum none = err io
    open_checksum (some (crc, payload)) = open_payload (read_u32 crc) payload

    -- Behind the first four bytes; a file too short for them is taken for a new one.
    unfoldable pub open_magic : Disk → Option (Bytes × Bytes) → Result (StateMachineData S × Disk)
    open_magic disk none = ok (default, persist_to_disk default disk)
    open_magic disk (some (magic, rest)) =
        if not (bytes_eq magic state_magic)
        then err corrupted_magic
        else elim (open_checksum (read_exact 4 rest)) [ err e ↦ err e | ok d ↦ ok (d, disk) ]

    unfoldable pub open_state : Disk → Result (StateMachineData S × Disk)
    open_state disk = elim disk.file [
      | none ↦ ok (default, persist_to_disk default disk)
      | some bytes ↦ open_magic disk (read_exact 4 bytes)
    ]

    unfoldable pub build_snapshot_payload : StateMachineData S → Bytes
    build_snapshot_payload d = c.serialize d

    unfoldable pub restore_from_snapshot :
        Bytes → StateMachineData S × Disk → Result (StateMachineData S × Disk)
    restore_from_snapshot payload (old, disk) = elim (c.deserialize payload) [
      | none ↦ err serialization
      | some d ↦ ok (d, persist_to_disk d disk)
    ]
