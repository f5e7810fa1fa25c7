-- ===== src/Proxy/Session/Commands.antt =====
-- The command loop of `run` in proxy/src/session.rs.
use pgvisor.Prelude.{
  ℕ, zero, suc, true, false, none, some, List, [], ◌∷◌, ◌++◌, is_empty, if◌then◌else◌,
}
use pgvisor.Prelude.Texts.{Text}
use pgvisor.Storage.Bytes.{Bytes}
use pgvisor.Protocol.Message.Wire.{message, incomplete, invalid, panic}
use pgvisor.Protocol.Message.Frontend.{
  FrontendMessage, query, sync, flush, terminate, raw, decode_frontend, encode_frontend,
}
use pgvisor.Proxy.Pool.{release}
use pgvisor.Proxy.Session.{Session, World}
use pgvisor.Proxy.Session.Query.{
  Progress, answered, aborted, waiting, unending, write_backend, handle_query,
}

-- How a session ends; a session that waits or goes on for ever in a query does not. `going` has what is
-- left of the buffer.
pub data Serving : Type 0 where
  going : Session → Bytes → Serving
  finished terminated dropped : Session → Serving
  stuck : Serving

-- A message is forwarded to the backend that is held, and lost where there is none.
unfoldable pub forward_to_backend : World → Session → FrontendMessage → Bytes → Serving
forward_to_backend w s m rest = elim s.active_backend [
  | none ↦ going s rest
  | some backend ↦
      if w.backend_accepts s backend
      then going (write_backend s backend (encode_frontend w.pg m)) rest
      else dropped s
]

unfoldable pub after_query : Bytes → Progress → Serving
after_query rest (answered s) = going s rest
after_query rest (aborted s) = dropped s
after_query rest waiting = stuck
after_query rest unending = stuck

-- `reads` gives what the backends send for the query, by the session and the query; `from_utf8` is the
-- query's text.
unfoldable pub on_message :
    World
    → (Session → Text → List Bytes)
    → (Bytes → Text)
    → Session
    → FrontendMessage
    → Bytes
    → Serving
on_message w reads from_utf8 s (query sql) rest =
    after_query rest (handle_query w s (from_utf8 sql) (reads s (from_utf8 sql)))
on_message w reads from_utf8 s terminate rest = terminated s
on_message w reads from_utf8 s sync rest = forward_to_backend w s sync rest
on_message w reads from_utf8 s flush rest = forward_to_backend w s flush rest
on_message w reads from_utf8 s (raw tag payload) rest =
    forward_to_backend w s (raw tag payload) rest
on_message w reads from_utf8 s _ rest = going s rest

module _ (w : World) (reads : Session → Text → List Bytes) (from_utf8 : Bytes → Text) where
  unfoldable pub serve : ℕ → Session → Bytes → Serving
  serve zero s buf = stuck
  serve (suc fuel) s buf = elim (decode_frontend w.pg buf) [
    | incomplete rest ↦ going s rest
    | invalid rest ↦ dropped s
    | panic ↦ dropped s
    | message m rest ↦ elim (on_message w reads from_utf8 s m rest) [
      | going t later ↦ serve fuel t later
      | finished t ↦ finished t
      | terminated t ↦ terminated t
      | dropped t ↦ dropped t
      | stuck ↦ stuck
    ]
  ]

  -- The backend that is held goes back to the pool when the client closes the connection.
  unfoldable pub release_held : Session → Session
  release_held s = elim s.active_backend [
    | none ↦ s
    | some backend ↦ record s { active_backend = none; pool = release s.pool backend }
  ]

  -- On the client's reads, an empty one at its end.
  unfoldable pub run_commands : ℕ → Session → Bytes → List Bytes → Serving
  run_commands fuel s buf [] = going s buf
  run_commands fuel s buf (chunk ∷ chunks) = elim (is_empty chunk) [
    | true ↦ finished (release_held s)
    | false ↦ elim (serve fuel s (buf ++ chunk)) [
      | going t rest ↦ run_commands fuel t rest chunks
      | finished t ↦ finished t
      | terminated t ↦ terminated t
      | dropped t ↦ dropped t
      | stuck ↦ stuck
    ]
  ]
