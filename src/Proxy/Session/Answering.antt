-- ===== src/Proxy/Session/Answering.antt =====
-- How an answered query ends in proxy/src/session.rs.
use pgvisor.Prelude.{◌≡◌, ◌⊎◌, true, some, List, [], ◌∷◌, ◌++◌, eqb}
use pgvisor.Storage.Bytes.{Bytes}
use pgvisor.Protocol.Tracker.{idle}
use pgvisor.Protocol.Message.Backend.{error_response, ready_for_query, encode_backend}
use pgvisor.Proxy.Session.{Session, World, Frame, Forwarded, ready, extract_backend_frame}
use pgvisor.Proxy.Session.Query.{Progress, answered, Attempt, taken, ended}

-- The frame of a ReadyForQuery, as it stands in what was read, or an error of the proxy with a
-- ReadyForQuery after it.
abbrev pub IsEnd : World → Bytes → Type 0
IsEnd w b =
    ((buf rest : Bytes) × (f : Frame) × (extract_backend_frame buf ≡ some (f, rest))
      × (eqb f.tag 90 ≡ true)
      × (f.bytes ≡ b))
    ⊎ ((message : Bytes) × (b
          ≡ encode_backend w.pg (error_response message)
            ++ encode_backend w.pg (ready_for_query idle)))

-- The last that was written to the client is such an end.
abbrev pub IsEnded : World → Session → Type 0
IsEnded w s = (before : List Bytes) × (b : Bytes) × (s.sent ≡ before ++ b ∷ []) × IsEnd w b

abbrev pub IsAnswer : World → Progress → Type 0
IsAnswer w (answered s) = IsEnded w s
IsAnswer w _ = Unit

abbrev Ends : World → Forwarded → Type 0
Ends w (ready s should_release) = IsEnded w s
Ends w _ = Unit

abbrev IsAttempt : World → Attempt → Type 0
IsAttempt w (taken s backend) = Unit
IsAttempt w (ended r) = IsAnswer w r
