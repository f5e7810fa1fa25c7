-- ===== src/Proxy/Session/Auditing.antt =====
-- The audit of statements in `handle_query` of proxy/src/session.rs. `to_uppercase` of Unicode is a
-- parameter.
pub mod Snippets
use pgvisor.Prelude.{
  ℕ, zero, suc, ◌+◌, ◌-◌, ◌≤◌, ◌≡◌, refl, sym, ap, ◌∙◌, Bool, true, false, not, ◌&&◌, ◌||◌, Option,
  none, some, List, [], ◌∷◌, ◌++◌, eqb, ltb, leb, if◌then◌else◌, if_elim, All, arith,
}
use pgvisor.Audit.Kind.{AuditEventKind, dangerous_sql, user_permission}
use pgvisor.Prelude.Texts.{
  Text, text, trim, trim_start, trim_end_by, is_whitespace, starts_with, contains_text, split_lines,
}

unfoldable pub is_comment : Text → Bool
is_comment line = starts_with line (text "--") || starts_with line (text "/*")

unfoldable pub without_comments : List Text → List Text
without_comments [] = []
without_comments (line ∷ lines) =
    let rest = without_comments lines in if is_comment (trim line) then rest else trim line ∷ rest

unfoldable pub join_spaces : List Text → Text
join_spaces [] = []
join_spaces (line ∷ []) = line
join_spaces (line ∷ next ∷ lines) = line ++ (32 ∷ join_spaces (next ∷ lines))

unfoldable pub clean : Text → Text
clean sql = trim (join_spaces (without_comments (split_lines sql)))

-- The second argument tells whether PGVISOR_AUDIT_DELETE is set.
unfoldable pub is_dangerous : Bool → Text → Bool
is_dangerous audit_delete upper =
    starts_with upper (text "DROP TABLE")
    || starts_with upper (text "DROP DATABASE")
    || starts_with upper (text "DROP SCHEMA")
    || starts_with upper (text "TRUNCATE")
    || (starts_with upper (text "DELETE")
        && (audit_delete || not (contains_text upper (text "WHERE"))))

unfoldable pub is_user_permission : Text → Bool
is_user_permission upper =
    starts_with upper (text "CREATE ROLE")
    || starts_with upper (text "CREATE USER")
    || starts_with upper (text "DROP ROLE")
    || starts_with upper (text "DROP USER")
    || starts_with upper (text "ALTER ROLE")
    || starts_with upper (text "ALTER USER")
    || starts_with upper (text "GRANT ")
    || starts_with upper (text "REVOKE ")

unfoldable pub utf8_len : ℕ → ℕ
utf8_len c = if ltb c 128 then 1 else if ltb c 2048 then 2 else if ltb c 65536 then 3 else 4

unfoldable pub byte_len : Text → ℕ
byte_len [] = 0
byte_len (c ∷ s) = utf8_len c + byte_len s

-- `&s[..n]`; `none` is its panic.
unfoldable pub slice_to : ℕ → Text → Option Text
slice_to zero s = some []
slice_to (suc n) [] = none
slice_to (suc n) (c ∷ s) =
    let rest = slice_to (suc n - utf8_len c) s in
    if leb (utf8_len c) (suc n) then elim rest [ none ↦ none | some t ↦ some (c ∷ t) ] else none

unfoldable pub snippet : Text → Option Text
snippet sql =
    if ltb 300 (byte_len sql)
    then elim (slice_to 300 sql) [ none ↦ none | some s ↦ some (s ++ text "...") ]
    else some sql

-- The event's time and the candidate for recovery are left out.
pub record AuditEvent : Type 0 where
  pub kind : AuditEventKind
  pub detail : Text

unfoldable pub unwrap_or_unknown : Option Text → Text
unwrap_or_unknown none = text "unknown"
unwrap_or_unknown (some t) = t

unfoldable pub detail_of : Text → Option Text → Option Text → Text → Text
detail_of what user database shown =
    what
    ++ text " executed by '"
    ++ unwrap_or_unknown user
    ++ text "' on '"
    ++ unwrap_or_unknown database
    ++ text "': "
    ++ shown

-- An event is appended where its test holds; `none` is a panic.
unfoldable pub audit_if :
    Bool
    → AuditEventKind
    → (Text → Text)
    → Text
    → Option (List AuditEvent)
    → Option (List AuditEvent)
audit_if test kind detail sql none = none
audit_if test kind detail sql (some events) =
    if test
    then elim (snippet sql) [
      | none ↦ none
      | some shown ↦ some (record { kind = kind; detail = detail shown } ∷ events)
    ]
    else some events

-- The events, latest first.
unfoldable pub audit_query :
    (Text → Text) → Bool → Option Text → Option Text → Text → Option (List AuditEvent)
audit_query to_uppercase audit_delete user database sql =
    let upper = to_uppercase (clean sql) in
    audit_if (is_user_permission upper) user_permission
      (detail_of (text "User/permission SQL") user database) sql
      (audit_if (is_dangerous audit_delete upper) dangerous_sql
        (detail_of (text "Dangerous SQL") user database) sql (some []))
