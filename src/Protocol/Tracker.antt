-- ===== src/Protocol/Tracker.antt =====
-- crates/pgvisor-core/src/protocol/tracker.rs: the class of a statement and the transaction state of a
-- client, which decide whether a statement goes to the leader.
pub mod Routing
mod Examples
use pgvisor.Prelude.{Bool, true, false, not, ◌||◌, if◌then◌else◌, ◌==◌}
use pgvisor.Prelude.Texts.{
  Text, text, chars_key, trim_start, first_word, trim_semicolons, to_ascii_uppercase, contains_text,
}

pub data QueryKind : Type 0 where
  read write begin commit rollback set_value other : QueryKind

pub data TransactionStatus : Type 0 where
  idle transaction failed : TransactionStatus

pub record TransactionTracker : Type 0 where
  pub status : TransactionStatus
  pub in_manual_tx : Bool

unfoldable pub new : TransactionTracker
new = record { status = idle; in_manual_tx = false }

unfoldable pub is_idle : TransactionStatus → Bool
is_idle idle = true
is_idle transaction = false
is_idle failed = false

unfoldable pub on_ready_for_query : TransactionTracker → TransactionStatus → TransactionTracker
on_ready_for_query t status =
    if is_idle status
    then record { status = status; in_manual_tx = false }
    else record t { status = status }

-- The functions that a SELECT may call to change the server.
unfoldable pub calls_admin_function : Text → Bool
calls_admin_function upper =
    contains_text upper (text "PG_SWITCH_WAL")
    || contains_text upper (text "PG_CREATE_RESTORE_POINT")
    || contains_text upper (text "PG_BACKUP_START")
    || contains_text upper (text "PG_BACKUP_STOP")

-- Whether a `match` arm that lists several words is taken.
unfoldable pub reads_word : Text → Bool
reads_word word = word == text "SHOW" || word == text "EXPLAIN"

unfoldable pub writes_word : Text → Bool
writes_word word =
    word == text "INSERT"
    || word == text "UPDATE"
    || word == text "DELETE"
    || word == text "CREATE"
    || word == text "DROP"
    || word == text "ALTER"
    || word == text "TRUNCATE"

-- The `match` on the first word; `upper` is the statement in upper case.
unfoldable pub classify_word : Text → Text → QueryKind
classify_word upper word =
    if word == text "SELECT"
    then if calls_admin_function upper then write else read
    else if reads_word word
    then read
    else if writes_word word
    then write
    else if word == text "BEGIN" || word == text "START"
    then begin
    else if word == text "COMMIT" || word == text "END"
    then commit
    else if word == text "ROLLBACK" || word == text "ABORT"
    then rollback
    else if word == text "SET" || word == text "RESET"
    then set_value
    else other

unfoldable pub classify_query : Text → QueryKind
classify_query sql =
    classify_word (to_ascii_uppercase (trim_start sql))
      (to_ascii_uppercase (trim_semicolons (first_word (trim_start sql))))

unfoldable pub kind_requires_leader : QueryKind → Bool
kind_requires_leader read = false
kind_requires_leader write = true
kind_requires_leader begin = true
kind_requires_leader commit = true
kind_requires_leader rollback = true
kind_requires_leader set_value = true
kind_requires_leader other = true

unfoldable pub requires_leader : TransactionTracker → Text → Bool
requires_leader t sql =
    if not (is_idle t.status) then true else kind_requires_leader (classify_query sql)
