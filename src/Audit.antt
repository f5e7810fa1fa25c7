-- ===== src/Audit.antt =====
-- The audit log of core/audit.rs: the ring of the latest events, and the batches in the object store.
-- The tasks that `append` spawns wait in `spawned` until they run, each under the batch's lock.
pub mod Kind
pub mod History
mod Persisting
pub mod Loading
pub mod Listing
pub mod Durability
pub mod Ring
mod Sorting
pub mod Reading
pub mod Storing
pub mod Resuming
mod Examples
use pgvisor.Prelude.{
  ℕ, ◌+◌, ◌*◌, Bool, true, false, ◌||◌, Option, none, some, List, [], ◌∷◌, ◌++◌, leb, length, drop,
  if◌then◌else◌,
}
use pgvisor.Prelude.Texts.{Text, text}
use pgvisor.Prelude.Decimals.{decimal8}
use pgvisor.Storage.Bytes.{Bytes}
use pgvisor.Backup.Store.{Operator, Written}
use Kind.{AuditEventKind}

-- Times are counted in nanoseconds from the earliest `DateTime<Utc>`.
pub record AuditEvent : Type 0 where
  pub id : ℕ
  pub occurred_at : ℕ
  pub kind : AuditEventKind
  pub node_id : Option ℕ
  pub node_address : Option Text
  pub detail : Text
  pub pitr_target : Option Text

abbrev pub max_events_per_batch : ℕ
max_events_per_batch = 100

abbrev pub max_batch_bytes : ℕ
max_batch_bytes = 64 * 1024

-- serde_json on a batch and on one event.
pub record Json : Type 0 where
  pub to_vec : List AuditEvent → Option Bytes
  pub from_slice : Bytes → Option (List AuditEvent)
  pub event_from_slice : Bytes → Option AuditEvent

-- `persists` tells whether there is an operator.
pub record AuditLog : Type 0 where
  pub persists : Bool
  pub events : List AuditEvent
  pub next_id : ℕ
  pub capacity : ℕ
  pub current_batch : List AuditEvent
  pub current_batch_id : ℕ
  pub spawned : List AuditEvent

unfoldable pub new : Bool → ℕ → AuditLog
new persists capacity = record {
  persists = persists;
  events = [];
  next_id = 1;
  capacity = capacity;
  current_batch = [];
  current_batch_id = 1;
  spawned = [];
}

-- The arguments of `append`, and the time of the call.
pub record Entry : Type 0 where
  pub occurred_at : ℕ
  pub kind : AuditEventKind
  pub node_id : Option ℕ
  pub node_address : Option Text
  pub detail : Text
  pub pitr_target : Option Text

unfoldable pub event_of : ℕ → Entry → AuditEvent
event_of id e = record {
  id = id;
  occurred_at = e.occurred_at;
  kind = e.kind;
  node_id = e.node_id;
  node_address = e.node_address;
  detail = e.detail;
  pitr_target = e.pitr_target;
}

unfoldable pub push_ring : ℕ → List AuditEvent → AuditEvent → List AuditEvent
push_ring capacity ring e = (if leb capacity (length ring) then drop 1 ring else ring) ++ e ∷ []

-- One step: the program takes the id before it locks the ring, so that two appends at the same time may
-- enter the ring in the other order.
unfoldable pub append : AuditLog → Entry → AuditLog × AuditEvent
append log entry =
    let event = event_of log.next_id entry in
    (
      record log {
        next_id = log.next_id + 1;
        events = push_ring log.capacity log.events event;
        spawned = if log.persists then log.spawned ++ event ∷ [] else log.spawned;
      },
      event,
    )

unfoldable pub audit_prefix : Text → Text
audit_prefix cluster = text "clusters/" ++ (cluster ++ text "/audit/")

unfoldable pub batch_name : ℕ → Text
batch_name id = text "audit_batch_" ++ (decimal8 id ++ text ".json")

unfoldable pub batch_key : Text → ℕ → Text
batch_key cluster id = audit_prefix cluster ++ batch_name id

module _ (op : Operator) (cluster : Text) (json : Json) where
  unfoldable pub rotate : ℕ → AuditLog → Written op.Store → op.Store × AuditLog
  rotate size log written =
      if written.is_ok
      then (
        written.store,
        (if leb max_events_per_batch (length log.current_batch) || leb max_batch_bytes size
            then record log { current_batch = []; current_batch_id = log.current_batch_id + 1 }
            else log),
      )
      else (written.store, log)

  unfoldable pub write_batch : op.Store → AuditLog → Option Bytes → op.Store × AuditLog
  write_batch s log none = (s, log)
  write_batch s log (some bytes) =
      rotate (length bytes) log (op.write s (batch_key cluster log.current_batch_id) bytes)

  -- The task of one event, from its taking of the lock.
  unfoldable pub persist : op.Store → AuditLog → AuditEvent → op.Store × AuditLog
  persist s log event =
      let batch = log.current_batch ++ event ∷ [] in
      write_batch s (record log { current_batch = batch }) (json.to_vec batch)
