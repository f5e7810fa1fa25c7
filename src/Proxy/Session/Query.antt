-- ===== src/Proxy/Session/Query.antt =====
-- `handle_query` of proxy/src/session.rs, without its counters and its audit.
use pgvisor.Prelude.{
  ℕ, suc, Bool, true, false, Option, none, some, List, [], ◌∷◌, ◌++◌, eqb, length, is_empty,
  if◌then◌else◌,
}
use pgvisor.Prelude.Texts.{Text, text}
use pgvisor.Storage.Bytes.{Bytes}
use pgvisor.Protocol.Tracker.{requires_leader, idle}
use pgvisor.Protocol.Message.Frontend.{query, encode_frontend}
use pgvisor.Protocol.Message.Backend.{error_response, ready_for_query, encode_backend}
use pgvisor.Proxy.Pool.{
  PoolInner, PooledConnection, BackendRole, leader, standby, Result, ok, err, release,
}
use pgvisor.Proxy.Pool.Retry.{acquire_with_retry}
use pgvisor.Proxy.Session.{
  Session, World, Forwarded, more, ready, broken, endless, send, forward_frames,
}

-- `waiting` is for a backend or for a connection, with the rounds or the reads that are looked at.
pub data Progress : Type 0 where
  answered aborted : Session → Progress
  waiting unending : Progress

unfoldable pub answer_error : World → Session → Bytes → Progress
answer_error w s message =
    let resp =
      encode_backend w.pg (error_response message) ++ encode_backend w.pg (ready_for_query idle) in
    if w.client_accepts s then answered (send s resp) else aborted s

pub data Acquired : Type 0 where
  held : Session → PooledConnection → Acquired
  refused : Session → Bytes → Acquired
  acquiring : Acquired

unfoldable pub acquired_by :
    World → Session → Option (PoolInner × Result PooledConnection) → Acquired
acquired_by w s none = acquiring
acquired_by w s (some (p, ok backend)) =
    held (record s { pool = p; acquired = suc s.acquired }) backend
acquired_by w s (some (p, err e)) =
    refused (record s { pool = p; acquired = suc s.acquired }) (w.describe e)

unfoldable pub acquire : World → Session → BackendRole → Acquired
acquire w s role = acquired_by w s (
    acquire_with_retry (w.rounds s.acquired) w.timeout role w.user w.database (w.fuel s.acquired) 0
      s.pool)

unfoldable pub write_backend : Session → PooledConnection → Bytes → Session
write_backend s backend frame = record s { forwarded = s.forwarded ++ (backend, frame) ∷ [] }

-- A backend that has taken the query, or the end.
pub data Attempt : Type 0 where
  taken : Session → PooledConnection → Attempt
  ended : Progress → Attempt

unfoldable pub resend : World → Text → Bytes → Acquired → Attempt
resend w message frame acquiring = ended waiting
resend w message frame (refused s e) = ended (answer_error w s (w.as_bytes message ++ e))
resend w message frame (held s backend) =
    if w.backend_accepts s backend
    then taken (write_backend s backend frame) backend
    else ended (aborted s)

unfoldable pub settle : Session → PooledConnection → Bool → Session
settle s backend should_release =
    if should_release
    then record s { pool = release s.pool backend }
    else record s { active_backend = some backend }

-- `read_on` goes on with the next read.
unfoldable pub resume : (Session → ℕ → Bytes → Progress) → PooledConnection → Forwarded → Progress
resume read_on backend (more s written rest) = read_on s written rest
resume read_on backend (ready s should_release) = answered (settle s backend should_release)
resume read_on backend (broken s) = aborted s
resume read_on backend endless = unending

-- `written` is `client_bytes_written`; a read that gives nothing is the end of the backend.
unfoldable pub stream_responses :
    World → BackendRole → Bytes → Session → PooledConnection → Bytes → ℕ → List Bytes → Progress
stream_responses w role frame s backend buf written [] = waiting
stream_responses w role frame s backend buf written (chunk ∷ reads) = elim (is_empty chunk) [
  | true ↦ elim (eqb written 0) [
    | true ↦ elim (resend w (text "PgVisor failover retry failed: ") frame (acquire w s role)) [
      | ended r ↦ r
      | taken t next ↦ stream_responses w role frame t next [] 0 reads
    ]
    | false ↦
        answer_error w s
          (w.as_bytes (text "PgVisor: backend connection lost during failover mid-response"))
  ]
  | false ↦
      resume (λ t count rest. stream_responses w role frame t backend rest count reads) backend
        (forward_frames w (suc (length (buf ++ chunk))) s written (buf ++ chunk))
]

unfoldable pub send_query : World → BackendRole → Bytes → Session → PooledConnection → Attempt
send_query w role frame s backend =
    if w.backend_accepts s backend
    then taken (write_backend s backend frame) backend
    else resend w (text "PgVisor backend write failed during failover: ") frame (acquire w s role)

unfoldable pub run_query : World → BackendRole → Bytes → Acquired → List Bytes → Progress
run_query w role frame acquiring reads = waiting
run_query w role frame (refused s e) reads =
    answer_error w s (w.as_bytes (text "PgVisor failover timeout: ") ++ e)
run_query w role frame (held s backend) reads =
    elim (send_query w role frame (record s { active_backend = none }) backend) [
      | ended r ↦ r
      | taken t next ↦ stream_responses w role frame t next [] 0 reads
    ]

unfoldable pub role_for : Session → Text → BackendRole
role_for s sql = if requires_leader s.tracker sql then leader else standby

-- The backend that the session holds, or one from the pool.
unfoldable pub obtain : World → Session → BackendRole → Acquired
obtain w s role = elim s.active_backend [ none ↦ acquire w s role | some backend ↦ held s backend ]

unfoldable pub query_frame : World → Text → Bytes
query_frame w sql = encode_frontend w.pg (query (w.as_bytes sql))

-- The last argument is what the reads from backends give, across retries.
unfoldable pub handle_query : World → Session → Text → List Bytes → Progress
handle_query w s sql reads =
    run_query w (role_for s sql) (query_frame w sql) (obtain w s (role_for s sql)) reads
