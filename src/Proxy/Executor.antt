-- ===== src/Proxy/Executor.antt =====
-- crates/pgvisor-proxy/src/executor.rs: the dashboard's SQL, run over a pooled connection. The time a
-- query takes is left out.
pub mod Routing
pub mod Messages
pub mod Limits
mod Examples
use pgvisor.Prelude.{
  ℕ, zero, suc, Bool, true, false, not, ◌&&◌, ◌||◌, Option, none, some, List, [], ◌∷◌, ◌++◌, eqb,
  ltb, length, is_empty, ◌==◌, if◌then◌else◌, map,
}
use pgvisor.Prelude.Texts.{Text, text, chars_key, trim, trim_semicolons, first_word, contains_text}
use pgvisor.Storage.Bytes.{Bytes}
use pgvisor.Protocol.Message.Wire.{Pgwire, Decoded, message, incomplete, invalid, panic}
use pgvisor.Protocol.Message.Backend.{
  BackendMessage, row_description, data_row, command_complete, error_response, ready_for_query,
  decode_backend,
}
use pgvisor.Proxy.Pool.{
  PoolInner, PooledConnection, BackendRole, leader, standby, Result, ok, err, release,
}
use pgvisor.Proxy.Pool.Retry.{Rounds, acquire_with_retry}
use pgvisor.Proxy.Session.{Frame, extract_backend_frame}
use pgvisor.Dashboard.Guard.{strip_comments}

-- The statement that is looked at: upper case, without comments and trailing semicolons.
unfoldable pub without_semicolon : Text → Text
without_semicolon sql = trim (trim_semicolons (trim (strip_comments sql)))

unfoldable pub leads_by_word : Text → Text → Bool
leads_by_word upper word =
    if word == text "SELECT"
    then contains_text upper (text "INTO ")
    else if word == text "SHOW" || word == text "EXPLAIN"
    then false
    else true

unfoldable pub is_leader_required : (Text → Text) → Text → Bool
is_leader_required to_uppercase sql =
    let s = without_semicolon sql in
    if contains_text s (text ";")
    then true
    else if contains_text (to_uppercase s) (text "PG_STAT_REPLICATION")
    then true
    else leads_by_word (to_uppercase s) (first_word (to_uppercase s))

pub record Gathered : Type 0 where
  pub columns : List Bytes
  pub rows : List (List Bytes)
  pub command_tags : List Bytes
  pub error_msg : Option Bytes
  pub truncated : Bool

unfoldable pub or_null : Option Bytes → Bytes
or_null none = text "NULL"
or_null (some v) = v

unfoldable pub gather : ℕ → Gathered → BackendMessage → Gathered
gather max_rows g (row_description cols) = record g { columns = cols; rows = [] }
gather max_rows g (data_row values) =
    if ltb (length g.rows) max_rows
    then record g { rows = g.rows ++ map or_null values ∷ [] }
    else record g { truncated = true }
gather max_rows g (command_complete tag) = record g { command_tags = g.command_tags ++ tag ∷ [] }
gather max_rows g (error_response msg) = record g { error_msg = some msg }
gather max_rows g _ = g

unfoldable pub is_ready : BackendMessage → Bool
is_ready (ready_for_query status) = true
is_ready _ = false

-- The complete frames of a buffer: more is needed, ReadyForQuery was read, the decoder panics, or it goes
-- on for ever.
pub data Collected : Type 0 where
  unfinished : Gathered → Bytes → Collected
  finished : Gathered → Collected
  crashed endless : Collected

-- A frame that does not decode is passed over; `rest` goes on with the next one.
unfoldable pub on_frame : ℕ → Gathered → Decoded BackendMessage → (Gathered → Collected) → Collected
on_frame max_rows g (message m left) rest =
    if is_ready m then finished g else rest (gather max_rows g m)
on_frame max_rows g (incomplete left) rest = rest g
on_frame max_rows g (invalid left) rest = rest g
on_frame max_rows g panic rest = crashed

module _ (pg : Pgwire) (lossy : Bytes → Bytes) (max_rows : ℕ) where
  unfoldable pub collect_frames : ℕ → Gathered → Bytes → Collected
  collect_frames zero g buf = endless
  collect_frames (suc fuel) g buf = elim (extract_backend_frame buf) [
    | none ↦ unfinished g buf
    | some (f, rest) ↦
        on_frame max_rows g (decode_backend pg lossy f.bytes) (λ h. collect_frames fuel h rest)
  ]

-- Errors, whose texts are left out but for the server's.
pub data Failure : Type 0 where
  acquire_failed write_failed read_failed closed : Failure
  server : Bytes → Failure

pub record SqlQueryResult : Type 0 where
  pub columns : List Bytes
  pub rows : List (List Bytes)
  pub row_count : ℕ
  pub truncated : Bool

-- `waiting` is for a connection or for the backend.
pub data Outcome : Type 0 where
  succeeded : SqlQueryResult → Outcome
  failing : Failure → Outcome
  waiting unending crash : Outcome

unfoldable pub singleton : Bytes → List Bytes
singleton tag = tag ∷ []

unfoldable pub present : Gathered → SqlQueryResult
present g =
    if is_empty g.columns && not (is_empty g.command_tags)
    then record {
      columns = text "status" ∷ [];
      rows = map singleton g.command_tags;
      row_count = length (map singleton g.command_tags);
      truncated = g.truncated;
    }
    else record {
      columns = g.columns;
      rows = g.rows;
      row_count = length g.rows;
      truncated = g.truncated;
    }

unfoldable pub conclude : Gathered → Outcome
conclude g = elim g.error_msg [ some e ↦ failing (server e) | none ↦ succeeded (present g) ]

module _ (pg : Pgwire) (lossy : Bytes → Bytes) (max_rows : ℕ) where
  -- A read that fails is `none`, and an empty one is the end of the backend. The connection goes back to
  -- the pool only behind ReadyForQuery.
  unfoldable pub read_result :
      PoolInner → PooledConnection → Gathered → Bytes → List (Option Bytes) → PoolInner × Outcome
  read_result p backend g buf [] = (p, waiting)
  read_result p backend g buf (none ∷ reads) = (p, failing read_failed)
  read_result p backend g buf (some chunk ∷ reads) = elim (is_empty chunk) [
    | true ↦ (p, failing closed)
    | false ↦
        elim (collect_frames pg lossy max_rows (suc (length (buf ++ chunk))) g (buf ++ chunk)) [
          | unfinished h rest ↦ read_result p backend h rest reads
          | finished h ↦ (release p backend, conclude h)
          | crashed ↦ (p, crash)
          | endless ↦ (p, unending)
        ]
  ]

  unfoldable pub execute_on :
      Bool
      → List (Option Bytes)
      → PoolInner
      → Option (PoolInner × Result PooledConnection)
      → PoolInner × Outcome
  execute_on takes reads p none = (p, waiting)
  execute_on takes reads p (some (q, err e)) = (q, failing acquire_failed)
  execute_on takes reads p (some (q, ok backend)) =
      if takes
      then read_result q backend
          (record {
            columns = [];
            rows = [];
            command_tags = [];
            error_msg = none;
            truncated = false;
          })
          [] reads
      else (q, failing write_failed)

  -- `takes` tells whether the backend takes the query.
  unfoldable pub execute :
      (Text → Text)
      → Rounds
      → ℕ
      → ℕ
      → Bool
      → List (Option Bytes)
      → PoolInner
      → Text
      → PoolInner × Outcome
  execute to_uppercase rounds fuel timeout takes reads p sql = execute_on takes reads p (
      acquire_with_retry rounds timeout
        (if is_leader_required to_uppercase sql then leader else standby) none none fuel 0 p)
