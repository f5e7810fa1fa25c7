-- ===== src/Proxy/Session.antt =====
-- crates/pgvisor-proxy/src/session.rs: a client's session. Sockets, the clock and the calls of others on
-- the pool are a `World`.
pub mod Query
pub mod Framing
pub mod Streaming
pub mod Delivery
pub mod Answering
pub mod Handshake
pub mod Admission
pub mod Auditing
pub mod Commands
pub mod Releasing
mod Examples
use pgvisor.Prelude.{
  ℕ, zero, suc, ◌+◌, Bool, true, false, String, Option, none, some, List, [], ◌∷◌, ◌++◌, eqb,
  length, take, drop, get_elem?, if◌then◌else◌,
}
use pgvisor.Prelude.Texts.{Text}
use pgvisor.Storage.Bytes.{Bytes}
use pgvisor.Protocol.Tracker.{
  TransactionTracker, TransactionStatus, idle, on_ready_for_query, is_idle,
}
use pgvisor.Protocol.Message.Wire.{Pgwire, frame_len, is_short, tag_of}
use pgvisor.Proxy.Pool.{PoolInner, PooledConnection, PoolError}
use pgvisor.Proxy.Pool.Retry.{Rounds}

-- What was written to the client and to backends is kept, first to last, and the number of calls of
-- `acquire_with_retry`.
pub record Session : Type 0 where
  pub tracker : TransactionTracker
  pub active_backend : Option PooledConnection
  pub pool : PoolInner
  pub acquired : ℕ
  pub sent : List Bytes
  pub forwarded : List (PooledConnection × Bytes)

-- pgwire and its `TransactionStatus::try_from`, the bytes of a text, the text of an error, the rounds of
-- each `acquire_with_retry` and how many are looked at, and whether the next write to the client, or to a
-- backend, succeeds.
pub record World : Type 0 where
  pub pg : Pgwire
  pub try_status : ℕ → Option TransactionStatus
  pub as_bytes : Text → Bytes
  pub describe : PoolError → Bytes
  pub rounds : ℕ → Rounds
  pub fuel : ℕ → ℕ
  pub timeout : ℕ
  pub user : Option String
  pub database : Option String
  pub client_accepts : Session → Bool
  pub backend_accepts : Session → PooledConnection → Bool

pub record Frame : Type 0 where
  pub tag : ℕ
  pub bytes : Bytes

unfoldable pub extract_backend_frame : Bytes → Option (Frame × Bytes)
extract_backend_frame buf =
    if is_short buf
    then none
    else some
        (record { tag = tag_of buf; bytes = take (frame_len buf) buf }, drop (frame_len buf) buf)

-- `frame[5]` if there is one, else `I` (73), and `Idle` for a byte that is no status.
unfoldable pub status_of : (ℕ → Option TransactionStatus) → Bytes → TransactionStatus
status_of try_status frame =
    let byte : ℕ = elim (get_elem? frame 5) [ none ↦ 73 | some b ↦ b ] in
    elim (try_status byte) [ none ↦ idle | some status ↦ status ]

-- What forwarding the complete frames of a buffer comes to: more is needed, ReadyForQuery (tag 90) was
-- forwarded, with whether it is idle, the client is gone, or it goes on for ever.
pub data Forwarded : Type 0 where
  more : Session → ℕ → Bytes → Forwarded
  ready : Session → Bool → Forwarded
  broken : Session → Forwarded
  endless : Forwarded

unfoldable pub send : Session → Bytes → Session
send s bytes = record s { sent = s.sent ++ bytes ∷ [] }

unfoldable pub note_status : World → Session → Frame → Session
note_status w s f =
    if eqb f.tag 90
    then record s { tracker = on_ready_for_query s.tracker (status_of w.try_status f.bytes) }
    else s

-- `rest` forwards what comes after this frame.
unfoldable pub forward_frame : World → Session → Frame → (Session → Forwarded) → Forwarded
forward_frame w s f rest =
    let noted = note_status w s f in
    if w.client_accepts noted
    then if eqb f.tag 90
      then ready (send noted f.bytes) (is_idle (status_of w.try_status f.bytes))
      else rest (send noted f.bytes)
    else broken noted

unfoldable pub forward_frames : World → ℕ → Session → ℕ → Bytes → Forwarded
forward_frames w zero s written buf = endless
forward_frames w (suc fuel) s written buf = elim (extract_backend_frame buf) [
  | none ↦ more s written buf
  | some (f, rest) ↦
      forward_frame w s f (λ t. forward_frames w fuel t (written + length f.bytes) rest)
]
