-- ===== src/Audit/Examples.antt =====
-- A log with room for two events, whose events carry an id and a time only.
use pgvisor.Prelude.{
  ℕ, ◌≡◌, refl, sym, ap, ◌∙◌, true, Option, none, some, List, [], ◌∷◌, ◌++◌, All, arith,
}
use pgvisor.Prelude.Texts.{Text, text}
use pgvisor.Storage.Bytes.{Bytes}
use pgvisor.Backup.Fixtures.{Bucket, entries, bucket, bucket-IsObjectStore}
use pgvisor.Audit.{batch_key, audit_prefix, AuditEvent, Json, Entry, new}
use pgvisor.Audit.Kind.{AuditEventKind, node_up, dangerous_sql}
use pgvisor.Audit.History.{Step, appended, ran, appended_events, run}
use pgvisor.Audit.Loading.{json_paths, sort_paths, load_from_storage}
use pgvisor.Audit.Reading.{stored_events}
use pgvisor.Audit.Resuming.{IsResumed, load_from_storage-IsResumed}
use pgvisor.Audit.Ring.{latest, run-latest}
use pgvisor.Audit.Storing.{IsCodec, IsKept}
use pgvisor.Audit.Durability.{run-IsKept}
use pgvisor.Audit.Listing.{list, stats, first_target, stats-list}

abbrev event : ℕ → ℕ → AuditEvent
event i t = record {
  id = i;
  occurred_at = t;
  kind = node_up;
  node_id = none;
  node_address = none;
  detail = [];
  pitr_target = none;
}

abbrev entry : ℕ → Entry
entry t = record {
  occurred_at = t;
  kind = node_up;
  node_id = none;
  node_address = none;
  detail = [];
  pitr_target = none;
}

-- The numbers of an event that has no more than an id and a time.
abbrev plain : ℕ → ℕ → AuditEventKind → Option ℕ → Option Text → Text → Option Text → Option Bytes
plain i t node_up none none [] none = some (i ∷ t ∷ [])
plain i t kind by address detail target = none

abbrev joined : Option Bytes → Option Bytes → Option Bytes
joined (some a) (some b) = some (a ++ b)
joined (some a) none = none
joined none b = none

abbrev encode : List AuditEvent → Option Bytes
encode [] = some []
encode (e ∷ es) =
    joined (plain e.id e.occurred_at e.kind e.node_id e.node_address e.detail e.pitr_target)
      (encode es)

abbrev with_event : AuditEvent → Option (List AuditEvent) → Option (List AuditEvent)
with_event e none = none
with_event e (some es) = some (e ∷ es)

abbrev decode : Bytes → Option (List AuditEvent)
decode [] = some []
decode (i ∷ []) = none
decode (i ∷ t ∷ bytes) = with_event (event i t) (decode bytes)

abbrev codec : Json
codec = record { to_vec = encode; from_slice = decode; event_from_slice = λ bytes. none }

abbrev history : List Step
history = appended (entry 10) ∷ appended (entry 11) ∷ ran 1 ∷ appended (entry 12) ∷ ran 0 ∷ []

run-latest_example :
    (run bucket [] codec ([], new true 2) history).1.events
    ≡ latest 2 ([] ++ appended_events 1 history)
unfolding new
run-latest_example = run-latest bucket [] codec [] (new true 2) history (omega arith)

abbrev ring : List AuditEvent
ring =
    record (event 1 10) { kind = dangerous_sql; pitr_target = some (text "10:00") }
    ∷ event 2 11
    ∷ record (event 3 12) { kind = dangerous_sql; pitr_target = some (text "12:00") }
    ∷ []

stats-list_example :
    let shown = list (λ t. t) ring 1 0 (some dangerous_sql) none in
    let page = list (λ t. t) ring shown.1 0 (some dangerous_sql) none in
    ((stats ring).0 ≡ (list (λ t. t) ring 1 0 none none).1)
    × ((stats ring).1.0 ≡ shown.1)
    × ((stats ring).1.1 ≡ first_target page.0)
stats-list_example = stats-list (λ t. t) ring 1 0

decoded :
    (i t : ℕ) (kind : AuditEventKind) (node : Option ℕ) (address : Option Text) (detail : Text)
    (target : Option Text) (es : List AuditEvent) (o : Option Bytes) (bytes : Bytes)
    → ((rest : Bytes) → o ≡ some rest → decode rest ≡ some es)
    → joined (plain i t kind node address detail target) o ≡ some bytes
    → decode bytes
      ≡ some (
          record {
            id = i;
            occurred_at = t;
            kind = kind;
            node_id = node;
            node_address = address;
            detail = detail;
            pitr_target = target;
          }
          ∷ es)
decoded i t node_up none none [] none es none bytes later h = absurd (ground (arith, h))
decoded i t node_up none none [] none es (some rest) bytes later h =
    ap (λ o. elim o [ none ↦ none | some b ↦ decode b ]) (sym h)
    ∙ ap (with_event (event i t)) (later rest refl)
decoded i t kind by address detail target es o bytes later h = absurd (ground (arith, h))

codec-IsCodec : IsCodec codec
codec-IsCodec [] bytes h = ap (λ o. elim o [ none ↦ none | some b ↦ decode b ]) (sym h)
codec-IsCodec (e ∷ es) bytes h =
    decoded e.id e.occurred_at e.kind e.node_id e.node_address e.detail e.pitr_target es (encode es)
      bytes (codec-IsCodec es) h

run-IsKept_example :
    All
      (IsKept bucket [] codec (run bucket [] codec ([], new true 2) history))
      (appended_events 1 history)
    × ((e : AuditEvent)
        → IsKept bucket [] codec ([], new true 2) e
        → IsKept bucket [] codec (run bucket [] codec ([], new true 2) history) e)
unfolding new
run-IsKept_example =
    run-IsKept bucket [] codec bucket-IsObjectStore codec-IsCodec ([], new true 2) history refl

abbrev stored : Bucket
stored = (batch_key [] 1, 1 ∷ 10 ∷ 2 ∷ 11 ∷ []) ∷ []

load_from_storage-IsResumed_example :
    IsResumed
      (stored_events bucket codec stored
        (sort_paths (json_paths (entries stored (audit_prefix [])))))
      (load_from_storage bucket [] codec stored (new true 2)).0
load_from_storage-IsResumed_example =
    load_from_storage-IsResumed bucket [] codec stored (entries stored (audit_prefix [])) 2
      (omega arith) refl
