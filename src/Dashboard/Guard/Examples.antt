-- ===== src/Dashboard/Guard/Examples.antt =====
-- SQL and headers as the dashboard checks them.
use pgvisor.Prelude.{◌≡◌, refl, true, false, none, some}
use pgvisor.Prelude.Texts.{
  text, chars_key, is_whitespace, trim, trim_start, trim_end_by, take_word, drop_word, first_word,
  second_word, trim_semicolons, upper_char, to_ascii_uppercase, contains_text, starts_with,
}
use pgvisor.Dashboard.Guard.{
  ok, new, new_read_only, strip_from, strip_comments, is_allowed_prefix, refuses, find_forbidden,
  validate_statement, validate_read_only, validate_sql, is_valid_role_ddl, is_privilege,
  find_forbidden_ddl, validate_ddl, validate_user_management_ddl, HeaderMap,
}
use pgvisor.Dashboard.Guard.Comments.{opens_not, closes_not, is_line}
use pgvisor.Dashboard.Guard.ReadOnly.{IsSafe, validate_sql-IsSafe}

select_allowed :
    validate_sql to_ascii_uppercase (new_read_only 10000 500) (text "select 1 /* one */;")
    ≡ ok (text "select 1")
unfolding validate_sql validate_read_only validate_statement new_read_only strip_comments strip_from
    trim trim_start trim_end_by trim_semicolons is_whitespace first_word take_word
    to_ascii_uppercase upper_char is_allowed_prefix find_forbidden refuses contains_text starts_with
select_allowed = refl

read_only : (new_read_only 10000 500).allow_mutations ≡ false
unfolding new_read_only
read_only = refl

validate_sql-IsSafe_example : IsSafe to_ascii_uppercase (text "select 1")
validate_sql-IsSafe_example =
    validate_sql-IsSafe to_ascii_uppercase (new_read_only 10000 500) (text "select 1 /* one */;")
      (text "select 1") read_only select_allowed

grant_allowed :
    validate_user_management_ddl to_ascii_uppercase
      (new 10000 500)
      (text "grant update on t to bob")
    ≡ ok (text "grant update on t to bob")
unfolding validate_user_management_ddl validate_ddl new strip_comments strip_from trim trim_start
    trim_end_by trim_semicolons is_whitespace first_word second_word take_word drop_word
    to_ascii_uppercase upper_char is_valid_role_ddl is_privilege find_forbidden_ddl contains_text
    starts_with
grant_allowed = refl

-- A comment opener inside a string literal is taken for a comment.
literal_cut : strip_comments (text "select '--'") ≡ text "select '"
unfolding strip_comments strip_from
literal_cut = refl

sql_plain : opens_not (text "select 1 ") ≡ true
unfolding opens_not
sql_plain = refl

body_open : closes_not (text " a * b ") ≡ true
unfolding closes_not
body_open = refl

body_line : is_line (text " a * b ") ≡ true
unfolding is_line
body_line = refl

abbrev headers : HeaderMap
headers = record {
  authorization = some (text "Bearer ");
  x_admin_token = none;
  cookie = some (text "a=b; pgvisor_token=secret");
}
