-- ===== src/Proxy/Session/Delivery.antt =====
-- What reaches the client in proxy/src/session.rs does not depend on how reads cut a response.
use pgvisor.Prelude.{
  refl, ◌≡◌, ap, ◌∙◌, Bool, true, false, none, some, List, [], eqb, is_empty, All, if◌then◌else◌,
  arith,
}
use pgvisor.Prelude.Texts.{Text, text}
use pgvisor.Storage.Bytes.{Bytes}
use pgvisor.Protocol.Tracker.{is_idle}
use pgvisor.Proxy.Pool.{PooledConnection, release}
use pgvisor.Proxy.Session.{Session, World, Frame, status_of}
use pgvisor.Proxy.Session.Query.{
  Progress, answered, settle, stream_responses, handle_query, run_query, send_query, obtain,
  role_for, query_frame, held, write_backend, Attempt, taken, ended, resend, acquire,
}
use pgvisor.Proxy.Session.Framing.{IsWhole, length-whole}
use pgvisor.Proxy.Session.Streaming.{
  response, concat, first, IsInner, after, first-IsWhole, stream_responses-delivers,
}

-- What becomes of the backend behind a response: back to the pool, or held.
abbrev pub keep_or_release : Session → PooledConnection → Bool → Session
keep_or_release s backend true = record s { pool = release s.pool backend }
keep_or_release s backend false = record s { active_backend = some backend }

settle-keep_or_release :
    (s : Session) (backend : PooledConnection) (b : Bool)
    → settle s backend b ≡ keep_or_release s backend b
unfolding settle
settle-keep_or_release s backend true = refl
settle-keep_or_release s backend false = refl

-- When the client takes what is written, the backend that the session holds or acquires takes the query,
-- and its reads, however they cut it, give a response of whole frames that ends with its only
-- ReadyForQuery, the query is answered: the client was sent these frames, in order and unchanged, the
-- tracker has the status, and the backend was released if that is idle and is held otherwise.
pub handle_query-delivers :
    (w : World)
    → ((s : Session) → w.client_accepts s ≡ true)
    → (s t : Session) (sql : Text) (reads : List Bytes) (backend : PooledConnection)
      (fs : List Frame) (z : Frame)
    → obtain w s (role_for s sql) ≡ held t backend
    → w.backend_accepts (record t { active_backend = none }) backend ≡ true
    → All IsInner fs
    → IsWhole z
    → eqb z.tag 90 ≡ true
    → All (λ (r : Bytes). is_empty r ≡ false) reads
    → concat reads ≡ response fs z
    → handle_query w s sql reads
      ≡ answered (
          keep_or_release
            (after w
              (write_backend (record t { active_backend = none }) backend (query_frame w sql))
              fs
              z)
            backend
            (is_idle (status_of w.try_status z.bytes)))
unfolding handle_query run_query send_query
handle_query-delivers w accepts s t sql reads backend fs z got takes a whole last r e =
    let u : Session = record t { active_backend = none } in
    let frame : Bytes = query_frame w sql in
    ap (λ o. run_query w (role_for s sql) frame o reads) got
    ∙ ap
        (λ b. start (
          if b
          then taken (write_backend u backend frame) backend
          else resend w (text "PgVisor backend write failed during failover: ") frame
              (acquire w u (role_for s sql))))
        takes
    ∙ stream_responses-delivers w accepts (role_for s sql) frame backend z whole last reads
        (write_backend u backend frame) 0 [] fs r a e
        (omega (
          arith,
          length-whole (first fs z)
              (first-IsWhole w accepts (role_for s sql) frame backend z whole last fs a),
        ))
    ∙ ap answered (
        settle-keep_or_release (after w (write_backend u backend frame) fs z) backend
          (is_idle (status_of w.try_status z.bytes)))
  where
    start : Attempt → Progress
    start o = elim o [
      | ended p ↦ p
      | taken x next ↦ stream_responses w (role_for s sql) (query_frame w sql) x next [] 0 reads
    ]
