-- ===== src/Audit/Kind.antt =====
-- `AuditEventKind` of core/audit.rs: its names. `to_lowercase` of Unicode is a parameter.
use pgvisor.Prelude.{Bool, Option, none, some, ◌==◌, if◌then◌else◌}
use pgvisor.Prelude.Texts.{Text, text, chars_key, trim}

pub data AuditEventKind : Type 0 where
  node_up node_down backup_created backup_restored dangerous_sql : AuditEventKind
  election_result node_joined node_left user_permission : AuditEventKind

unfoldable pub as_str : AuditEventKind → Text
as_str node_up = text "node_up"
as_str node_down = text "node_down"
as_str backup_created = text "backup_created"
as_str backup_restored = text "backup_restored"
as_str dangerous_sql = text "dangerous_sql"
as_str election_result = text "election_result"
as_str node_joined = text "node_joined"
as_str node_left = text "node_left"
as_str user_permission = text "user_permission"

unfoldable pub kind_of : Text → Option AuditEventKind
kind_of s =
    if s == text "node_up"
    then some node_up
    else if s == text "node_down"
    then some node_down
    else if s == text "backup_created"
    then some backup_created
    else if s == text "backup_restored"
    then some backup_restored
    else if s == text "dangerous_sql"
    then some dangerous_sql
    else if s == text "election_result"
    then some election_result
    else if s == text "node_joined"
    then some node_joined
    else if s == text "node_left"
    then some node_left
    else if s == text "user_permission"
    then some user_permission
    else none

unfoldable pub from_snake_case : (Text → Text) → Text → Option AuditEventKind
from_snake_case to_lowercase s = kind_of (to_lowercase (trim s))

unfoldable pub same_kind : AuditEventKind → AuditEventKind → Bool
same_kind a b = as_str a == as_str b
