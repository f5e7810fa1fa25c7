-- ===== src/Proxy/Session/Streaming.antt =====
-- How proxy/src/session.rs forwards a response whose reads are cut anywhere.
use mathlib.Core.List.{append_assoc, append-nil}
use pgvisor.Prelude.{
  ℕ, zero, suc, ◌+◌, ◌≤◌, ◌<◌, ◌≡◌, sym, ap, ◌∙◌, Bool, true, false, Option, none, some, List, [],
  ◌∷◌, ◌++◌, eqb, ltb, length, is_empty, All, if◌then◌else◌, if_elim, Bool-cases, inl, inr,
  length-append, arith,
}
use pgvisor.Storage.Bytes.{Bytes}
use pgvisor.Protocol.Tracker.{on_ready_for_query, is_idle}
use pgvisor.Proxy.Pool.{PooledConnection, BackendRole}
use pgvisor.Proxy.Session.{
  Session, World, Frame, Forwarded, more, ready, broken, extract_backend_frame, status_of, send,
  note_status, forward_frame, forward_frames,
}
use pgvisor.Proxy.Session.Query.{Progress, answered, settle, resume, stream_responses}
use pgvisor.Proxy.Session.Framing.{
  IsWhole, extract_backend_frame-whole, extract_backend_frame-part, split_off, length-whole,
}

-- The bytes of a response: its frames, and the ReadyForQuery that ends it.
abbrev pub response : List Frame → Frame → Bytes
response [] z = z.bytes
response (f ∷ fs) z = f.bytes ++ response fs z

abbrev pub chunks_of : List Frame → Frame → List Bytes
chunks_of [] z = z.bytes ∷ []
chunks_of (f ∷ fs) z = f.bytes ∷ chunks_of fs z

abbrev pub concat : List Bytes → Bytes
concat [] = []
concat (b ∷ bs) = b ++ concat bs

abbrev pub first : List Frame → Frame → Frame
first [] z = z
first (f ∷ fs) z = f

-- A frame of a response before its ReadyForQuery.
abbrev pub IsInner : Frame → Type 0
IsInner f = IsWhole f × (eqb f.tag 90 ≡ false)

-- The session after a response: all of its bytes sent, and the status noted.
abbrev pub after : World → Session → List Frame → Frame → Session
after w s fs z = record s {
  tracker = on_ready_for_query s.tracker (status_of w.try_status z.bytes);
  sent = s.sent ++ chunks_of fs z;
}

after-send :
    (w : World) (z : Frame) (s : Session) (f : Frame) (fs : List Frame)
    → after w (send s f.bytes) fs z ≡ after w s (f ∷ fs) z
unfolding send
after-send w z s f fs =
    ap
      (λ l. record s {
        tracker = on_ready_for_query s.tracker (status_of w.try_status z.bytes);
        sent = l;
      })
      (append_assoc s.sent (f.bytes ∷ []) (chunks_of fs z))

module _ (w : World) (accepts : (s : Session) → w.client_accepts s ≡ true) (role : BackendRole)
    (query : Bytes) (backend : PooledConnection) (z : Frame) (whole : IsWhole z)
    (last : eqb z.tag 90 ≡ true) where
  abbrev pub released : Bool
  released = is_idle (status_of w.try_status z.bytes)

  forward_frame-inner :
      (s : Session) (f : Frame) (rest : Session → Forwarded)
      → eqb f.tag 90 ≡ false
      → forward_frame w s f rest ≡ rest (send s f.bytes)
  unfolding forward_frame note_status
  forward_frame-inner s f rest h = ground (arith, h, accepts s)

  forward_frame-last :
      (s : Session) (rest : Session → Forwarded)
      → forward_frame w s z rest ≡ ready (after w s [] z) released
  unfolding forward_frame note_status send
  forward_frame-last s rest =
      if_elim
        (λ (n : Session).
          (if w.client_accepts n
            then (if eqb z.tag 90 then ready (send n z.bytes) released else rest (send n z.bytes))
            else broken n)
          ≡ ready (after w s [] z) released)
        (eqb z.tag 90)
        (λ e. ground (
          arith,
          e,
          accepts (record s {
            tracker = on_ready_for_query s.tracker (status_of w.try_status z.bytes);
          }),
        ))
        (λ e. absurd (ground (arith, e, last)))

  pub first-IsWhole : (fs : List Frame) → All IsInner fs → IsWhole (first fs z)
  first-IsWhole [] a = whole
  first-IsWhole (f ∷ fs) a = a.0.0

  -- Forwarding a part of a response leads to all of it, if the later reads do.
  resume-forward :
      (read_on : Session → ℕ → Bytes → Progress) (later : Bytes)
      → ((s : Session) (n : ℕ) (buf : Bytes) (fs : List Frame)
          → All IsInner fs
          → buf ++ later ≡ response fs z
          → length buf < length (first fs z).bytes
          → read_on s n buf ≡ answered (settle (after w s fs z) backend released))
      → (fuel : ℕ) (s : Session) (n : ℕ) (buf : Bytes) (fs : List Frame) → All IsInner fs
      → buf ++ later ≡ response fs z
      → length buf < fuel
      → resume read_on backend (forward_frames w fuel s n buf)
        ≡ answered (settle (after w s fs z) backend released)
  unfolding forward_frames resume
  resume-forward read_on later ih zero s n buf fs a e h = absurd (omega (arith, h))
  resume-forward read_on later ih (suc fuel) s n buf [] a e h =
      elim (Bool-cases (ltb (length buf) (length z.bytes))) [
        | inl short ↦
            ap (λ o. resume read_on backend (step s n buf fuel o))
              (extract_backend_frame-part z whole buf later [] (e ∙ sym (append-nil z.bytes))
                (ground (arith, short)))
            ∙ ih s n buf [] tt e (ground (arith, short))
        | inr full ↦
            let parts : (rest : Bytes) × (buf ≡ z.bytes ++ rest) × (rest ++ later ≡ []) =
              split_off z.bytes buf later [] (e ∙ sym (append-nil z.bytes))
                (ground (arith, full)) in
            ap (λ o. resume read_on backend (step s n buf fuel o))
              (ap extract_backend_frame parts.1 ∙ extract_backend_frame-whole z whole parts.0)
            ∙ ap (resume read_on backend)
                (forward_frame-last s (λ t. forward_frames w fuel t (n + length z.bytes) parts.0))
      ]
    where
      step : Session → ℕ → Bytes → ℕ → Option (Frame × Bytes) → Forwarded
      step s n buf fuel o = elim o [
        | none ↦ more s n buf
        | some (f, rest) ↦
            forward_frame w s f (λ t. forward_frames w fuel t (n + length f.bytes) rest)
      ]
  resume-forward read_on later ih (suc fuel) s n buf (f ∷ fs) a e h =
      elim (Bool-cases (ltb (length buf) (length f.bytes))) [
        | inl short ↦
            ap (λ o. resume read_on backend (step s n buf fuel o))
              (extract_backend_frame-part f a.0.0 buf later (response fs z) e
                (ground (arith, short)))
            ∙ ih s n buf (f ∷ fs) a e (ground (arith, short))
        | inr full ↦
            let parts : (rest : Bytes) × (buf ≡ f.bytes ++ rest) × (rest ++ later ≡ response fs z) =
              split_off f.bytes buf later (response fs z) e (ground (arith, full)) in
            let less : length parts.0 < fuel =
              omega (
                arith,
                h,
                ap length parts.1,
                length-append f.bytes parts.0,
                length-whole f a.0.0,
              ) in
            ap (λ o. resume read_on backend (step s n buf fuel o))
              (ap extract_backend_frame parts.1 ∙ extract_backend_frame-whole f a.0.0 parts.0)
            ∙ ap (resume read_on backend) (
                forward_frame-inner s f (λ t. forward_frames w fuel t (n + length f.bytes) parts.0)
                  a.0.1)
            ∙ resume-forward read_on later ih fuel (send s f.bytes) (n + length f.bytes) parts.0 fs
                a.1 parts.2 less
            ∙ ap (λ t. answered (settle t backend released)) (after-send w z s f fs)
      ]
    where
      step : Session → ℕ → Bytes → ℕ → Option (Frame × Bytes) → Forwarded
      step s n buf fuel o = elim o [
        | none ↦ more s n buf
        | some (f, rest) ↦
            forward_frame w s f (λ t. forward_frames w fuel t (n + length f.bytes) rest)
      ]

  response_long : (fs : List Frame) → length (first fs z).bytes ≤ length (response fs z)
  response_long [] = omega arith
  response_long (f ∷ fs) = omega (arith, length-append f.bytes (response fs z))

  pub stream_responses-delivers :
      (reads : List Bytes) (s : Session) (n : ℕ) (buf : Bytes) (fs : List Frame)
      → All (λ (r : Bytes). is_empty r ≡ false) reads
      → All IsInner fs
      → buf ++ concat reads ≡ response fs z
      → length buf < length (first fs z).bytes
      → stream_responses w role query s backend buf n reads
        ≡ answered (settle (after w s fs z) backend released)
  unfolding stream_responses
  stream_responses-delivers [] s n buf fs r a e h =
      absurd (omega (arith, h, response_long fs, ap length (sym (append-nil buf) ∙ e)))
  stream_responses-delivers ([] ∷ reads) s n buf fs r a e h = absurd (ground (arith, r.0))
  stream_responses-delivers ((c ∷ chunk) ∷ reads) s n buf fs r a e h =
      resume-forward (λ t count rest. stream_responses w role query t backend rest count reads)
        (concat reads)
        (λ t count rest gs b g l. stream_responses-delivers reads t count rest gs r.1 b g l)
        (suc (length (buf ++ (c ∷ chunk)))) s n (buf ++ (c ∷ chunk)) fs a
        (append_assoc buf (c ∷ chunk) (concat reads) ∙ e) (omega arith)
