-- ===== src/Sidecar/Events.antt =====
-- The event buffer of crates/pgvisor-sidecar/src/control (state.rs, handlers.rs): the last two hundred
-- events, and the poll for those after a given one. The timestamp is a parameter.
pub mod Polling
use pgvisor.Prelude.{
  ℕ, ◌+◌, ◌%◌, ◌^◌, List, [], ◌∷◌, ◌++◌, Option, none, some, ltb, leb, length, drop, String,
  if◌then◌else◌,
}

pub record SidecarEventRecord : Type 0 where
  pub id : ℕ
  pub timestamp : String
  pub kind : String
  pub detail : String

pub record EventState : Type 0 where
  pub events : List SidecarEventRecord
  pub event_id : ℕ

unfoldable pub new : EventState
new = record { events = []; event_id = 1 }

-- `pop_front` of a full queue.
unfoldable pub make_room : List SidecarEventRecord → List SidecarEventRecord
make_room q = if leb 200 (length q) then drop 1 q else q

unfoldable pub record_event : EventState → String → String → String → EventState
record_event s timestamp kind detail = record {
  events =
      make_room s.events
      ++ record { id = s.event_id; timestamp = timestamp; kind = kind; detail = detail } ∷ [];
  event_id = (s.event_id + 1) % 2 ^ 64;
}

unfoldable pub events_since : ℕ → List SidecarEventRecord → List SidecarEventRecord
events_since since_id [] = []
events_since since_id (e ∷ q) =
    let rest = events_since since_id q in if ltb since_id e.id then e ∷ rest else rest

unfoldable pub unwrap_or_zero : Option ℕ → ℕ
unwrap_or_zero none = 0
unwrap_or_zero (some n) = n

unfoldable pub handle_events : EventState → Option ℕ → List SidecarEventRecord
handle_events s since_id = events_since (unwrap_or_zero since_id) s.events
