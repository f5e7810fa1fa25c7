-- ===== src/Dashboard/Guard.antt =====
-- crates/pgvisor-dashboard/src/security.rs. Unicode's upper case (`to_uppercase`) and the values of
-- the request headers are parameters.
pub mod Branches
pub mod Comments
pub mod ReadOnly
pub mod RoleDdl
pub mod Tokens
mod Examples
use pgvisor.Prelude.{
  ℕ, Bool, true, false, not, ◌||◌, ◌&&◌, Option, none, some, List, [], ◌∷◌, eqb, is_empty, drop,
  if◌then◌else◌, ◌==◌,
}
use pgvisor.Prelude.Texts.{
  Text, text, chars_key, trim, trim_semicolons, first_word, second_word, contains_text, starts_with,
}

pub data SecurityError : Type 0 where
  mutation_forbidden multi_statement_forbidden empty_query unauthorized : SecurityError

pub data Result {ℓ} (A : Type ℓ) : Type ℓ where
  ok : A → Result A
  err : SecurityError → Result A

-- Limits in milliseconds and rows.
pub record SqlSecurityGuard : Type 0 where
  pub max_execution_timeout : ℕ
  pub max_result_rows : ℕ
  pub allow_mutations : Bool

unfoldable pub new : ℕ → ℕ → SqlSecurityGuard
new timeout max_rows = record {
  max_execution_timeout = timeout;
  max_result_rows = max_rows;
  allow_mutations = true;
}

unfoldable pub new_read_only : ℕ → ℕ → SqlSecurityGuard
new_read_only timeout max_rows = record {
  max_execution_timeout = timeout;
  max_result_rows = max_rows;
  allow_mutations = false;
}

-- Where the scan of `strip_comments` stands: `in_single_comment` and `in_block_comment`.
pub data Mode : Type 0 where
  plain single_comment block_comment : Mode

-- The loop of `strip_comments` on the characters that are left.
unfoldable pub strip_from : Mode → Text → Text
strip_from mode [] = []
strip_from single_comment (c ∷ s) = elim (eqb c 10) [
  | true ↦ 32 ∷ strip_from plain s
  | false ↦ strip_from single_comment s
]
strip_from block_comment (c ∷ []) = []
strip_from block_comment (c ∷ d ∷ s) = elim (eqb c 42 && eqb d 47) [
  | true ↦ 32 ∷ strip_from plain s
  | false ↦ strip_from block_comment (d ∷ s)
]
strip_from plain (c ∷ []) = c ∷ []
strip_from plain (c ∷ d ∷ s) = elim (eqb c 45 && eqb d 45) [
  | true ↦ strip_from single_comment s
  | false ↦ elim (eqb c 47 && eqb d 42) [
    | true ↦ strip_from block_comment s
    | false ↦ c ∷ strip_from plain (d ∷ s)
  ]
]

unfoldable pub strip_comments : Text → Text
strip_comments sql = strip_from plain sql

-- `["SELECT", "SHOW", "EXPLAIN", "WITH"].contains(&first_word)`
unfoldable pub is_allowed_prefix : Text → Bool
is_allowed_prefix word =
    word == text "SELECT" || word == text "SHOW" || word == text "EXPLAIN" || word == text "WITH"

abbrev pub forbidden_keywords : List Text
forbidden_keywords =
    text "INSERT "
    ∷ text "UPDATE "
    ∷ text "DELETE "
    ∷ text "DROP "
    ∷ text "ALTER "
    ∷ text "CREATE "
    ∷ text "TRUNCATE "
    ∷ text "GRANT "
    ∷ text "REVOKE "
    ∷ text "VACUUM "
    ∷ text "CALL "
    ∷ text "DO "
    ∷ text "COPY "
    ∷ text "INTO "
    ∷ []

-- Whether the loop's body returns an error for a keyword that the statement contains.
unfoldable pub refuses : Text → Text → Bool
refuses upper kw =
    if kw == text "INTO "
      && contains_text upper (text "SELECT")
      && contains_text upper (text "INTO")
    then true
    else not (kw == text "INTO ")

unfoldable pub find_forbidden : Text → List Text → Bool
find_forbidden upper [] = false
find_forbidden upper (kw ∷ kws) =
    (contains_text upper kw && refuses upper kw) || find_forbidden upper kws

unfoldable pub validate_statement : (Text → Text) → Text → Result Text
validate_statement to_uppercase statement =
    let upper = to_uppercase statement in
    if contains_text statement (text ";")
    then err multi_statement_forbidden
    else if not (is_allowed_prefix (first_word upper))
    then err mutation_forbidden
    else if find_forbidden upper forbidden_keywords
    then err mutation_forbidden
    else ok statement

unfoldable pub validate_read_only : (Text → Text) → Text → Result Text
validate_read_only to_uppercase raw_sql =
    let trimmed = trim (strip_comments raw_sql) in
    if is_empty trimmed
    then err empty_query
    else validate_statement to_uppercase (trim (trim_semicolons trimmed))

unfoldable pub validate_sql : (Text → Text) → SqlSecurityGuard → Text → Result Text
validate_sql to_uppercase g raw_sql =
    let trimmed = trim (strip_comments raw_sql) in
    if is_empty trimmed
    then err empty_query
    else if not g.allow_mutations
    then validate_read_only to_uppercase raw_sql
    else ok trimmed

-- `first_word` and `second_word` decide, and for privileges the statement's shape.
unfoldable pub is_valid_role_ddl : Text → Bool
is_valid_role_ddl upper =
    let first = first_word upper in
    let second = second_word upper in
    if first == text "CREATE" || first == text "DROP" || first == text "ALTER"
    then second == text "ROLE" || second == text "USER"
    else if first == text "GRANT"
    then contains_text upper (text " TO ")
    else if first == text "REVOKE"
    then contains_text upper (text " FROM ")
    else false

abbrev pub forbidden_ddl : List Text
forbidden_ddl =
    text "DROP TABLE"
    ∷ text "DROP DATABASE"
    ∷ text "DROP SCHEMA"
    ∷ text "TRUNCATE "
    ∷ text "DELETE FROM"
    ∷ text "UPDATE "
    ∷ text "INSERT INTO"
    ∷ text "COPY "
    ∷ text "EXECUTE "
    ∷ text "DO $$"
    ∷ []

-- UPDATE and TRUNCATE name privileges in GRANT and REVOKE.
unfoldable pub is_privilege : Text → Text → Bool
is_privilege upper kw =
    (kw == text "UPDATE " || kw == text "TRUNCATE ")
    && (first_word upper == text "GRANT" || first_word upper == text "REVOKE")

unfoldable pub find_forbidden_ddl : Text → List Text → Bool
find_forbidden_ddl upper [] = false
find_forbidden_ddl upper (kw ∷ kws) =
    (not (is_privilege upper kw) && contains_text upper kw) || find_forbidden_ddl upper kws

unfoldable pub validate_ddl : (Text → Text) → Text → Result Text
validate_ddl to_uppercase statement =
    let upper = to_uppercase statement in
    if contains_text statement (text ";")
    then err multi_statement_forbidden
    else if not (is_valid_role_ddl upper)
    then err mutation_forbidden
    else if find_forbidden_ddl upper forbidden_ddl
    then err mutation_forbidden
    else ok statement

unfoldable pub validate_user_management_ddl : (Text → Text) → SqlSecurityGuard → Text → Result Text
validate_user_management_ddl to_uppercase g raw_sql =
    let trimmed = trim (strip_comments raw_sql) in
    if is_empty trimmed
    then err empty_query
    else if not g.allow_mutations
    then err mutation_forbidden
    else validate_ddl to_uppercase (trim (trim_semicolons trimmed))

unfoldable pub without_bearer : Text → Text
without_bearer header = if starts_with header (text "Bearer ") then drop 7 header else header

unfoldable pub verify_admin_token : Option Text → Text → Result {0} Unit
verify_admin_token none expected_token = err unauthorized
verify_admin_token (some header) expected_token =
    if trim (without_bearer header) == trim expected_token then ok tt else err unauthorized

-- The headers that are read, where they are there and are text.
pub record HeaderMap : Type 0 where
  pub authorization : Option Text
  pub x_admin_token : Option Text
  pub cookie : Option Text

-- What remains to be tried where a token is empty.
unfoldable pub token_or : Text → Option Text → Option Text
token_or token rest = if not (is_empty token) then some token else rest

unfoldable pub from_authorization : Option Text → Option Text → Option Text
from_authorization none rest = rest
from_authorization (some value) rest =
    let trimmed = trim value in
    if starts_with trimmed (text "Bearer ")
    then token_or (trim (drop 7 trimmed)) rest
    else token_or trimmed rest

unfoldable pub from_custom : Option Text → Option Text → Option Text
from_custom none rest = rest
from_custom (some value) rest = token_or (trim value) rest

-- The text before the first `sep`, and the text after it where there is one.
unfoldable pub before : ℕ → Text → Text
before sep [] = []
before sep (c ∷ s) = let rest = before sep s in if eqb c sep then [] else c ∷ rest

unfoldable pub after : ℕ → Text → Option Text
after sep [] = none
after sep (c ∷ s) = let rest = after sep s in if eqb c sep then some s else rest

-- One pair `key=value` of a cookie.
unfoldable pub pair_token : Text → Option Text → Option Text → Option Text
pair_token key none rest = rest
pair_token key (some value) rest =
    if trim key == text "pgvisor_token" then token_or (trim value) rest else rest

-- `split(';')`: the pieces, of which there is at least one.
unfoldable pub split_pairs : Text → Text × List Text
split_pairs [] = ([], [])
split_pairs (c ∷ s) =
    let rest = split_pairs s in if eqb c 59 then ([], rest.0 ∷ rest.1) else (c ∷ rest.0, rest.1)

unfoldable pub find_token : List Text → Option Text
find_token [] = none
find_token (pair ∷ pairs) = pair_token (before 61 pair) (after 61 pair) (find_token pairs)

unfoldable pub from_cookie : Option Text → Option Text
from_cookie none = none
from_cookie (some value) = let pairs = split_pairs value in find_token (pairs.0 ∷ pairs.1)

unfoldable pub extract_token_from_headers : HeaderMap → Option Text
extract_token_from_headers h =
    from_authorization h.authorization (from_custom h.x_admin_token (from_cookie h.cookie))
