-- ===== src/Proxy/Session/Admission.antt =====
-- Which clients the handshake of proxy/src/session.rs lets through.
use pgvisor.Prelude.{
  ◌≡◌, refl, Bool, true, false, ◌&&◌, List, [], ◌∷◌, ◌++◌, is_empty, if◌then◌else◌, if_elim, arith,
}
use pgvisor.Storage.Bytes.{Bytes}
use pgvisor.Protocol.Message.Wire.{Decoded, message, incomplete, invalid, panic}
use pgvisor.Protocol.Message.Initial.{
  InitialClientMessage, startup_message, ssl_request, cancel, StartupMessage, decode_initial,
}
use pgvisor.Proxy.Session.Handshake.{
  Listener, Client, Handshake, disconnected, aborted, closed, started, reading, say, greeting,
  on_ssl_request, on_startup, on_initial, handshake_round, handshake,
}

-- A session that goes on to commands is encrypted where that is required, is encrypted only if it was
-- before or there is an acceptor, and was last sent the greeting.
abbrev pub IsAdmitted : Listener → Client → Handshake → Type 0
IsAdmitted l c (started d startup) =
    (l.tls_required ≡ true → d.is_tls ≡ true)
    × (d.is_tls ≡ true → (if c.is_tls then true else l.has_acceptor) ≡ true)
    × ((before : List Bytes) × (d.written ≡ before ++ greeting l ∷ []))
IsAdmitted l c (reading d) = d.is_tls ≡ true → (if c.is_tls then true else l.has_acceptor) ≡ true
IsAdmitted l c _ = Unit

keeps_tls : (l : Listener) (tls : Bool) → tls ≡ true → (if tls then true else l.has_acceptor) ≡ true
keeps_tls l true e = refl
keeps_tls l false e = absurd (ground (arith, e))

on_ssl_request-IsAdmitted : (l : Listener) (c : Client) → IsAdmitted l c (on_ssl_request l c)
unfolding on_ssl_request say
on_ssl_request-IsAdmitted l c =
    if_elim (IsAdmitted l c) l.has_acceptor
      (λ acceptor.
        if_elim (IsAdmitted l c) c.is_tls (λ tls. tt)
          (λ plain.
            if_elim (IsAdmitted l c) l.tls_succeeds (λ done e. ground (arith, acceptor, plain))
              (λ lost. tt)))
      (λ none_there e. keeps_tls l c.is_tls e)

on_startup-IsAdmitted :
    (l : Listener) (c : Client) (startup : StartupMessage) → IsAdmitted l c (on_startup l c startup)
unfolding on_startup say
on_startup-IsAdmitted l c startup =
    if_elim (IsAdmitted l c) (l.tls_required && (if c.is_tls then false else true)) (λ refuse. tt)
      (λ admit.
        ((λ required. ground (arith, admit, required)), keeps_tls l c.is_tls, (c.written, refl)))

on_initial-IsAdmitted :
    (l : Listener) (c : Client) (m : Decoded InitialClientMessage)
    → IsAdmitted l c (on_initial l c m)
unfolding on_initial
on_initial-IsAdmitted l c (message ssl_request rest) =
    on_ssl_request-IsAdmitted l (record c { buf = rest })
on_initial-IsAdmitted l c (message (startup_message startup) rest) =
    on_startup-IsAdmitted l (record c { buf = rest }) startup
on_initial-IsAdmitted l c (message (cancel pid secret) rest) = tt
on_initial-IsAdmitted l c (incomplete rest) = keeps_tls l c.is_tls
on_initial-IsAdmitted l c (invalid rest) = tt
on_initial-IsAdmitted l c panic = tt

handshake_round-IsAdmitted :
    (l : Listener) (c : Client) (chunk : Bytes) → IsAdmitted l c (handshake_round l c chunk)
unfolding handshake_round
handshake_round-IsAdmitted l c chunk =
    if_elim (IsAdmitted l c) (is_empty chunk) (λ e. tt)
      (λ e.
        on_initial-IsAdmitted l (record c { buf = c.buf ++ chunk })
          (decode_initial l.pg (c.buf ++ chunk)))

acceptor_enough :
    (l : Listener) (tls : Bool)
    → l.has_acceptor ≡ true
    → (if tls then true else l.has_acceptor) ≡ true
acceptor_enough l true e = refl
acceptor_enough l false e = e

later :
    (l : Listener) (tls goal : Bool)
    → (l.has_acceptor ≡ true → goal ≡ true)
    → (tls ≡ true → goal ≡ true)
    → (if tls then true else l.has_acceptor) ≡ true
    → goal ≡ true
later l true goal a k e = k refl
later l false goal a k e = a e

IsAdmitted-later :
    (l : Listener) (c d : Client) (h : Handshake)
    → (d.is_tls ≡ true → (if c.is_tls then true else l.has_acceptor) ≡ true)
    → IsAdmitted l d h
    → IsAdmitted l c h
IsAdmitted-later l c d (started e startup) k (a, b, g) = (
  a,
  (λ t.
      later l d.is_tls (if c.is_tls then true else l.has_acceptor) (acceptor_enough l c.is_tls) k
        (b t)),
  g,
)
IsAdmitted-later l c d (reading e) k h = λ t.
    later l d.is_tls (if c.is_tls then true else l.has_acceptor) (acceptor_enough l c.is_tls) k
      (h t)
IsAdmitted-later l c d (disconnected e) k h = tt
IsAdmitted-later l c d (aborted e) k h = tt
IsAdmitted-later l c d (closed e) k h = tt

handshake_next :
    (l : Listener) (c : Client) (reads : List Bytes) (h : Handshake)
    → IsAdmitted l c h
    → ((d : Client) → IsAdmitted l d (handshake l d reads))
    → IsAdmitted l c (elim h [
      | reading d ↦ handshake l d reads
      | disconnected d ↦ disconnected d
      | aborted d ↦ aborted d
      | closed d ↦ closed d
      | started d startup ↦ started d startup
    ])
handshake_next l c reads (reading d) a h = IsAdmitted-later l c d (handshake l d reads) a (h d)
handshake_next l c reads (disconnected d) a h = tt
handshake_next l c reads (aborted d) a h = tt
handshake_next l c reads (closed d) a h = tt
handshake_next l c reads (started d startup) a h = a

-- However the client's packets are cut and whatever they are, a session that goes on to commands is
-- encrypted where that is required, is encrypted only if it was from the start or there is an acceptor,
-- and was last sent the greeting; one that is still in the handshake has the second property.
pub handshake-IsAdmitted :
    (l : Listener) (c : Client) (reads : List Bytes) → IsAdmitted l c (handshake l c reads)
unfolding handshake
handshake-IsAdmitted l c [] = keeps_tls l c.is_tls
handshake-IsAdmitted l c (chunk ∷ reads) =
    handshake_next l c reads (handshake_round l c chunk) (handshake_round-IsAdmitted l c chunk)
      (λ d. handshake-IsAdmitted l d reads)
