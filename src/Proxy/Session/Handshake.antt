-- ===== src/Proxy/Session/Handshake.antt =====
-- The handshake of `run` in proxy/src/session.rs. The reads are those of the stream of the moment: the
-- plain one, and after the TLS handshake the encrypted one.
use pgvisor.Prelude.{ℕ, Bool, true, false, ◌&&◌, List, [], ◌∷◌, ◌++◌, is_empty, if◌then◌else◌}
use pgvisor.Prelude.Texts.{text}
use pgvisor.Storage.Bytes.{Bytes}
use pgvisor.Protocol.Tracker.{idle}
use pgvisor.Protocol.Message.Wire.{Pgwire, Decoded, message, incomplete, invalid, panic}
use pgvisor.Protocol.Message.Initial.{
  InitialClientMessage, startup_message, ssl_request, cancel, StartupMessage, decode_initial,
}
use pgvisor.Protocol.Message.Backend.{
  BackendMessage, authentication_ok, parameter_status, backend_key_data, ready_for_query,
  error_response, encode_backend,
}

-- `process_id` is the proxy's, and `accepts` tells whether the TLS handshake succeeds.
pub record Listener : Type 0 where
  pub pg : Pgwire
  pub process_id : ℕ
  pub has_acceptor : Bool
  pub tls_required : Bool
  pub tls_succeeds : Bool

-- `client_stream`: plain or TLS, and what was written to it; `buf` is what was read and not used.
pub record Client : Type 0 where
  pub is_tls : Bool
  pub buf : Bytes
  pub written : List Bytes

-- How the handshake ends: the client went away, a protocol error, the session goes on to commands, or it
-- is closed; `reading` is for the next read.
pub data Handshake : Type 0 where
  disconnected aborted closed : Client → Handshake
  started : Client → StartupMessage → Handshake
  reading : Client → Handshake

unfoldable pub say : Client → Bytes → Client
say c bytes = record c { written = c.written ++ bytes ∷ [] }

unfoldable pub encode_all : Pgwire → List BackendMessage → Bytes
encode_all pg [] = []
encode_all pg (m ∷ ms) = encode_backend pg m ++ encode_all pg ms

unfoldable pub greeting : Listener → Bytes
greeting l = encode_all l.pg (
    authentication_ok
    ∷ parameter_status (text "server_version") (text "18.6")
    ∷ parameter_status (text "server_encoding") (text "UTF8")
    ∷ parameter_status (text "client_encoding") (text "UTF8")
    ∷ parameter_status (text "standard_conforming_strings") (text "on")
    ∷ parameter_status (text "TimeZone") (text "UTC")
    ∷ backend_key_data l.process_id 12345678
    ∷ ready_for_query idle
    ∷ [])

-- The answers to an SSLRequest are S (83), before the TLS handshake, and N (78). The client takes what is
-- written.
unfoldable pub on_ssl_request : Listener → Client → Handshake
on_ssl_request l c =
    if l.has_acceptor
    then if c.is_tls
      then aborted (say c (83 ∷ []))
      else if l.tls_succeeds
      then reading (record (say c (83 ∷ [])) { is_tls = true })
      else aborted (say c (83 ∷ []))
    else reading (say c (78 ∷ []))

unfoldable pub on_startup : Listener → Client → StartupMessage → Handshake
on_startup l c startup =
    if l.tls_required && (if c.is_tls then false else true)
    then closed (
        say c (
          encode_backend l.pg
            (error_response (text "FATAL: TLS/SSL is required to connect to this server"))))
    else started (say c (greeting l)) startup

unfoldable pub on_initial : Listener → Client → Decoded InitialClientMessage → Handshake
on_initial l c (message ssl_request rest) = on_ssl_request l (record c { buf = rest })
on_initial l c (message (startup_message startup) rest) =
    on_startup l (record c { buf = rest }) startup
on_initial l c (message (cancel pid secret) rest) = closed (record c { buf = rest })
on_initial l c (incomplete rest) = reading (record c { buf = rest })
on_initial l c (invalid rest) = aborted (record c { buf = rest })
on_initial l c panic = aborted c

unfoldable pub handshake_round : Listener → Client → Bytes → Handshake
handshake_round l c chunk =
    if is_empty chunk
    then disconnected c
    else on_initial l (record c { buf = c.buf ++ chunk }) (decode_initial l.pg (c.buf ++ chunk))

unfoldable pub handshake : Listener → Client → List Bytes → Handshake
handshake l c [] = reading c
handshake l c (chunk ∷ reads) = elim (handshake_round l c chunk) [
  | reading d ↦ handshake l d reads
  | disconnected d ↦ disconnected d
  | aborted d ↦ aborted d
  | closed d ↦ closed d
  | started d startup ↦ started d startup
]
