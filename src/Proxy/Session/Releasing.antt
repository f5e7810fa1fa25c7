-- ===== src/Proxy/Session/Releasing.antt =====
-- A session that the client closes gives its backend back, in proxy/src/session.rs.
use pgvisor.Prelude.{
  ℕ, zero, suc, ◌≡◌, refl, sym, subst, Option, none, some, List, [], ◌∷◌, ◌++◌, if◌then◌else◌,
  if_elim, Option-cases, inl, inr,
}
use pgvisor.Prelude.Texts.{Text}
use pgvisor.Storage.Bytes.{Bytes}
use pgvisor.Protocol.Message.Wire.{Decoded, message, incomplete, invalid, panic}
use pgvisor.Protocol.Message.Frontend.{
  FrontendMessage, query, parse, bind, describe, execute, sync, flush, close, password, terminate,
  raw, decode_frontend, encode_frontend,
}
use pgvisor.Proxy.Pool.{PooledConnection, release}
use pgvisor.Proxy.Session.{Session, World}
use pgvisor.Proxy.Session.Query.{
  Progress, answered, aborted, waiting, unending, handle_query, write_backend,
}
use pgvisor.Proxy.Session.Commands.{
  Serving, going, finished, terminated, dropped, stuck, forward_to_backend, after_query, on_message,
  serve, release_held, run_commands,
}

-- A session that has finished holds no backend.
abbrev pub IsReleased : Serving → Type 0
IsReleased (finished s) = s.active_backend ≡ none
IsReleased _ = Unit

forward_to_backend-IsReleased :
    (w : World) (s : Session) (m : FrontendMessage) (rest : Bytes)
    → IsReleased (forward_to_backend w s m rest)
unfolding forward_to_backend
forward_to_backend-IsReleased w s m rest = by_backend s.active_backend
  where
    by_backend :
        (o : Option PooledConnection)
        → IsReleased (elim o [
          | none ↦ going s rest
          | some backend ↦
              if w.backend_accepts s backend
              then going (write_backend s backend (encode_frontend w.pg m)) rest
              else dropped s
        ])
    by_backend none = tt
    by_backend (some backend) = if_elim IsReleased (w.backend_accepts s backend) (λ e. tt) (λ e. tt)

after_query-IsReleased : (rest : Bytes) (p : Progress) → IsReleased (after_query rest p)
unfolding after_query
after_query-IsReleased rest (answered s) = tt
after_query-IsReleased rest (aborted s) = tt
after_query-IsReleased rest waiting = tt
after_query-IsReleased rest unending = tt

module _ (w : World) (reads : Session → Text → List Bytes) (from_utf8 : Bytes → Text) where
  on_message-IsReleased :
      (s : Session) (m : FrontendMessage) (rest : Bytes)
      → IsReleased (on_message w reads from_utf8 s m rest)
  unfolding on_message
  on_message-IsReleased s (query sql) rest =
      after_query-IsReleased rest (handle_query w s (from_utf8 sql) (reads s (from_utf8 sql)))
  on_message-IsReleased s terminate rest = tt
  on_message-IsReleased s sync rest = forward_to_backend-IsReleased w s sync rest
  on_message-IsReleased s flush rest = forward_to_backend-IsReleased w s flush rest
  on_message-IsReleased s (raw tag payload) rest =
      forward_to_backend-IsReleased w s (raw tag payload) rest
  on_message-IsReleased s (parse a b) rest = tt
  on_message-IsReleased s (bind a b) rest = tt
  on_message-IsReleased s (describe a b) rest = tt
  on_message-IsReleased s (execute a b) rest = tt
  on_message-IsReleased s (close a b) rest = tt
  on_message-IsReleased s (password a) rest = tt

  serve-IsReleased :
      (fuel : ℕ) (s : Session) (buf : Bytes) → IsReleased (serve w reads from_utf8 fuel s buf)
  unfolding serve
  serve-IsReleased zero s buf = tt
  serve-IsReleased (suc fuel) s buf =
      by_message (decode_frontend w.pg buf) (λ t later. serve-IsReleased fuel t later)
    where
      next : Serving → Serving
      next r = elim r [
        | going t later ↦ serve w reads from_utf8 fuel t later
        | finished t ↦ finished t
        | terminated t ↦ terminated t
        | dropped t ↦ dropped t
        | stuck ↦ stuck
      ]

      next-IsReleased :
          (r : Serving)
          → ((t : Session) (later : Bytes) → IsReleased (serve w reads from_utf8 fuel t later))
          → IsReleased r
          → IsReleased (next r)
      next-IsReleased (going t later) h a = h t later
      next-IsReleased (finished t) h a = a
      next-IsReleased (terminated t) h a = tt
      next-IsReleased (dropped t) h a = tt
      next-IsReleased stuck h a = tt

      by_message :
          (d : Decoded FrontendMessage)
          → ((t : Session) (later : Bytes) → IsReleased (serve w reads from_utf8 fuel t later))
          → IsReleased (elim d [
            | incomplete rest ↦ going s rest
            | invalid rest ↦ dropped s
            | panic ↦ dropped s
            | message m rest ↦ next (on_message w reads from_utf8 s m rest)
          ])
      by_message (incomplete rest) h = tt
      by_message (invalid rest) h = tt
      by_message panic h = tt
      by_message (message m rest) h =
          next-IsReleased (on_message w reads from_utf8 s m rest) h (on_message-IsReleased s m rest)

  release_held-none : (s : Session) → (release_held w reads from_utf8 s).active_backend ≡ none
  unfolding release_held
  release_held-none s = elim (Option-cases s.active_backend) [
    | inl e ↦ subst (λ o. (released o).active_backend ≡ none) (sym e) e
    | inr (b, e) ↦ subst (λ o. (released o).active_backend ≡ none) (sym e) refl
  ]
    where
      released : Option PooledConnection → Session
      released o = elim o [
        | none ↦ s
        | some backend ↦ record s { active_backend = none; pool = release s.pool backend }
      ]

  -- Whatever the client and the backends send, a session that ends as the client closes its connection
  -- holds no backend any more.
  pub run_commands-IsReleased :
      (fuel : ℕ) (s : Session) (buf : Bytes) (chunks : List Bytes)
      → IsReleased (run_commands w reads from_utf8 fuel s buf chunks)
  unfolding run_commands
  run_commands-IsReleased fuel s buf [] = tt
  run_commands-IsReleased fuel s buf ([] ∷ chunks) = release_held-none s
  run_commands-IsReleased fuel s buf ((c ∷ chunk) ∷ chunks) =
      next-IsReleased (serve w reads from_utf8 fuel s (buf ++ (c ∷ chunk)))
        (λ t rest. run_commands-IsReleased fuel t rest chunks)
        (serve-IsReleased fuel s (buf ++ (c ∷ chunk)))
    where
      next-IsReleased :
          (r : Serving)
          → ((t : Session) (rest : Bytes)
              → IsReleased (run_commands w reads from_utf8 fuel t rest chunks))
          → IsReleased r
          → IsReleased (elim r [
            | going t rest ↦ run_commands w reads from_utf8 fuel t rest chunks
            | finished t ↦ finished t
            | terminated t ↦ terminated t
            | dropped t ↦ dropped t
            | stuck ↦ stuck
          ])
      next-IsReleased (going t rest) h a = h t rest
      next-IsReleased (finished t) h a = a
      next-IsReleased (terminated t) h a = tt
      next-IsReleased (dropped t) h a = tt
      next-IsReleased stuck h a = tt
