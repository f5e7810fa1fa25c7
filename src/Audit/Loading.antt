-- ===== src/Audit/Loading.antt =====
-- `load_from_storage` of core/audit.rs: the ring and the batch after a start.
use pgvisor.Prelude.{
  ℕ, ◌+◌, ◌-◌, ◌^◌, not, Option, none, some, List, [], ◌∷◌, ◌++◌, ltb, leb, eqb, length, drop,
  is_empty, ◌==◌, if◌then◌else◌,
}
use pgvisor.Prelude.Texts.{Text, text, chars_key, strip_prefix}
use pgvisor.Backup.Config.{parse_number}
use pgvisor.Backup.Manager.{ends_with}
use pgvisor.Backup.Manager.Prune.{is_before}
use pgvisor.Backup.Store.{Operator, Read, found, not_found, failed, Entry}
use pgvisor.Audit.{AuditEvent, AuditLog, Json, max_events_per_batch, audit_prefix, batch_name}

unfoldable pub json_paths : List Entry → List Text
json_paths [] = []
json_paths (e ∷ es) =
    let rest = json_paths es in if ends_with e.path (text ".json") then e.path ∷ rest else rest

unfoldable pub insert_path : Text → List Text → List Text
insert_path p [] = p ∷ []
insert_path p (q ∷ ps) =
    let rest = insert_path p ps in if is_before q p then q ∷ rest else p ∷ q ∷ ps

unfoldable pub sort_paths : List Text → List Text
sort_paths [] = []
sort_paths (p ∷ ps) = insert_path p (sort_paths ps)

-- `path.split('/').last()`
unfoldable pub last_part : Text → Text → Text
last_part part [] = part
last_part part (c ∷ s) = if eqb c 47 then last_part [] s else last_part (part ++ c ∷ []) s

unfoldable pub strip_suffix : Text → Text → Option Text
strip_suffix [] sought = if is_empty sought then some [] else none
strip_suffix (c ∷ s) sought =
    let rest = strip_suffix s sought in
    if c ∷ s == sought then some [] else elim rest [ none ↦ none | some t ↦ some (c ∷ t) ]

-- The number in the name of a batch's file.
unfoldable pub parse_batch_id : Option Text → Option ℕ
parse_batch_id none = none
parse_batch_id (some num_str) = parse_number (2 ^ 64) num_str

unfoldable pub strip_json : Option Text → Option Text
strip_json none = none
strip_json (some rest) = strip_suffix rest (text ".json")

unfoldable pub batch_id_of : Text → Option ℕ
batch_id_of path =
    parse_batch_id (strip_json (strip_prefix (last_part [] path) (text "audit_batch_")))

unfoldable pub max_number : ℕ → Option ℕ → ℕ
max_number highest none = highest
max_number highest (some n) = if ltb highest n then n else highest

-- The variables of the loop over the files.
pub record Loaded : Type 0 where
  pub loaded : List AuditEvent
  pub max_id : ℕ
  pub max_batch_id : ℕ
  pub latest_batch_events : List AuditEvent

unfoldable pub max_event_id : ℕ → List AuditEvent → ℕ
max_event_id highest [] = highest
max_event_id highest (e ∷ es) = max_event_id (max_number highest (some e.id)) es

unfoldable pub add_batch : Text → Loaded → List AuditEvent → Loaded
add_batch path l batch = record {
  loaded = l.loaded ++ batch;
  max_id = max_event_id l.max_id batch;
  max_batch_id = l.max_batch_id;
  latest_batch_events =
      if ends_with path (batch_name l.max_batch_id) then batch else l.latest_batch_events;
}

unfoldable pub add_single : Loaded → Option AuditEvent → Loaded
add_single l none = l
add_single l (some e) = record l {
  loaded = l.loaded ++ e ∷ [];
  max_id = max_number l.max_id (some e.id);
}

-- `sort_by_key` by the id keeps the order of equal keys.
unfoldable pub insert_by_id : AuditEvent → List AuditEvent → List AuditEvent
insert_by_id e [] = e ∷ []
insert_by_id e (f ∷ es) =
    let rest = insert_by_id e es in if leb e.id f.id then e ∷ f ∷ es else f ∷ rest

unfoldable pub sort_by_id : List AuditEvent → List AuditEvent
sort_by_id [] = []
sort_by_id (e ∷ es) = insert_by_id e (sort_by_id es)

-- `dedup_by_key` keeps the first of equal neighbours.
unfoldable pub dedup_after : AuditEvent → List AuditEvent → List AuditEvent
dedup_after last [] = []
dedup_after last (e ∷ es) =
    let kept = dedup_after e es in
    let dropped = dedup_after last es in if eqb e.id last.id then dropped else e ∷ kept

unfoldable pub dedup_by_id : List AuditEvent → List AuditEvent
dedup_by_id [] = []
dedup_by_id (e ∷ es) = e ∷ dedup_after e es

-- The latest events that fit.
unfoldable pub fitting : ℕ → List AuditEvent → List AuditEvent
fitting capacity es = if ltb capacity (length es) then drop (length es - capacity) es else es

unfoldable pub refill : AuditLog → ℕ → List AuditEvent → AuditLog
refill log max_id [] = log
refill log max_id (e ∷ es) = record log { events = e ∷ es; next_id = max_id + 1 }

unfoldable pub resume : AuditLog → ℕ → List AuditEvent → AuditLog
resume log max_batch_id latest =
    if not (ltb 0 max_batch_id)
    then log
    else if ltb (length latest) max_events_per_batch
    then record log { current_batch = latest; current_batch_id = max_batch_id }
    else record log { current_batch_id = max_batch_id + 1 }

-- The events that the loop has read, as the ring takes them.
unfoldable pub for_ring : ℕ → List AuditEvent → List AuditEvent
for_ring capacity es = fitting capacity (dedup_by_id (sort_by_id es))

unfoldable pub restore : AuditLog → Loaded → AuditLog × ℕ
restore log l =
    let loaded = for_ring log.capacity l.loaded in
    (resume (refill log l.max_id loaded) l.max_batch_id l.latest_batch_events, length loaded)

module _ (op : Operator) (cluster : Text) (json : Json) where
  unfoldable pub add_file : Text → Loaded → Read → Loaded
  add_file path l (found bytes) = elim (json.from_slice bytes) [
    | none ↦ add_single l (json.event_from_slice bytes)
    | some batch ↦ add_batch path l batch
  ]
  add_file path l not_found = l
  add_file path l failed = l

  unfoldable pub load_path : op.Store → Loaded → Text → Loaded
  load_path s l path =
      add_file path (record l { max_batch_id = max_number l.max_batch_id (batch_id_of path) })
        (op.read s path)

  unfoldable pub load_paths : op.Store → Loaded → List Text → Loaded
  load_paths s l [] = l
  load_paths s l (path ∷ paths) = load_paths s (load_path s l path) paths

  unfoldable pub nothing_loaded : Loaded
  nothing_loaded = record { loaded = []; max_id = 0; max_batch_id = 0; latest_batch_events = [] }

  -- The log, and how many events it then holds.
  unfoldable pub load_listed : op.Store → AuditLog → Option (List Entry) → AuditLog × ℕ
  load_listed s log none = (log, 0)
  load_listed s log (some entries) =
      restore log (load_paths s nothing_loaded (sort_paths (json_paths entries)))

  unfoldable pub load_from_storage : op.Store → AuditLog → AuditLog × ℕ
  load_from_storage s log =
      if log.persists then load_listed s log (op.list s (audit_prefix cluster)) else (log, 0)
