-- ===== src/Dashboard/Guard/RoleDdl.antt =====
-- What `validate_user_management_ddl` of dashboard/security.rs lets through.
use pgvisor.Prelude.{
  neither, ◌≡◌, refl, sym, ap, ◌∙◌, subst, inl, inr, ◌⊎◌, Bool, true, false, not, ◌||◌, ◌&&◌, List,
  [], ◌∷◌, All, ◌==◌, same_iff, if◌then◌else◌, is_empty, Bool-cases, arith,
}
use pgvisor.Prelude.Texts.{
  Text, text, chars_key, trim, trim_semicolons, first_word, second_word, contains_text,
}
use pgvisor.Dashboard.Guard.{
  SqlSecurityGuard, ok, err, mutation_forbidden, multi_statement_forbidden, empty_query,
  strip_comments, is_valid_role_ddl, forbidden_ddl, is_privilege, find_forbidden_ddl, validate_ddl,
  validate_user_management_ddl,
}
use pgvisor.Dashboard.Guard.Branches.{refused_else, ok-injective, unless-true}

either : (word a b : Text) → word == a || word == b ≡ true → (word ≡ a) ⊎ (word ≡ b)
either word a b e = elim (Bool-cases (word == a)) [
  | inl here ↦ inl ((same_iff word a).0 here)
  | inr there ↦ inr ((same_iff word b).0 (sym (ap (λ x. x || word == b) there) ∙ e))
]

either_of_three :
    (word a b c : Text)
    → word == a || word == b || word == c ≡ true
    → (word ≡ a) ⊎ ((word ≡ b) ⊎ (word ≡ c))
either_of_three word a b c e = elim (Bool-cases (word == a)) [
  | inl here ↦ inl ((same_iff word a).0 here)
  | inr there ↦ inr (either word b c (sym (ap (λ x. x || word == b || word == c) there) ∙ e))
]

-- The statement (in upper case) defines a role, or grants or revokes something.
abbrev pub IsRoleDdl : Text → Type 0
IsRoleDdl upper =
    (((first_word upper ≡ text "CREATE")
        ⊎ ((first_word upper ≡ text "DROP") ⊎ (first_word upper ≡ text "ALTER")))
      × ((second_word upper ≡ text "ROLE") ⊎ (second_word upper ≡ text "USER")))
    ⊎ (((first_word upper ≡ text "GRANT") × (contains_text upper (text " TO ") ≡ true))
        ⊎ ((first_word upper ≡ text "REVOKE") × (contains_text upper (text " FROM ") ≡ true)))

role_cases :
    (define second grant to revoke from : Bool)
    → (if define then second else if grant then to else if revoke then from else false) ≡ true
    → ((define ≡ true) × (second ≡ true))
      ⊎ (((grant ≡ true) × (to ≡ true)) ⊎ ((revoke ≡ true) × (from ≡ true)))
role_cases true second grant to revoke from e = inl (refl, e)
role_cases false second true to revoke from e = inr (inl (refl, e))
role_cases false second false to true from e = inr (inr (refl, e))
role_cases false second false to false from e = absurd (ground (arith, e))

is_valid_role_ddl-IsRoleDdl : (upper : Text) → is_valid_role_ddl upper ≡ true → IsRoleDdl upper
unfolding is_valid_role_ddl
is_valid_role_ddl-IsRoleDdl upper e =
    let first = first_word upper in
    let second = second_word upper in
    elim (role_cases (first == text "CREATE" || first == text "DROP" || first == text "ALTER")
      (second == text "ROLE" || second == text "USER") (first == text "GRANT")
      (contains_text upper (text " TO ")) (first == text "REVOKE")
      (contains_text upper (text " FROM ")) e) [
        | inl define ↦ inl (
          either_of_three first (text "CREATE") (text "DROP") (text "ALTER") define.0,
          either second (text "ROLE") (text "USER") define.1,
        )
        | inr (inl grant) ↦ inr (inl ((same_iff first (text "GRANT")).0 grant.0, grant.1))
        | inr (inr revoke) ↦ inr (inr ((same_iff first (text "REVOKE")).0 revoke.0, revoke.1))
      ]

-- A forbidden keyword is absent, or it names a privilege that is granted or revoked.
abbrev pub IsHarmless : Text → Text → Type 0
IsHarmless upper kw =
    (contains_text upper kw ≡ false)
    ⊎ (((kw ≡ text "UPDATE ") ⊎ (kw ≡ text "TRUNCATE "))
        × ((first_word upper ≡ text "GRANT") ⊎ (first_word upper ≡ text "REVOKE")))

skip_cases :
    (named granted present : Bool)
    → not (named && granted) && present ≡ false
    → (present ≡ false) ⊎ ((named ≡ true) × (granted ≡ true))
skip_cases named granted false e = inl refl
skip_cases true true true e = inr (refl, refl)
skip_cases true false true e = absurd (ground (arith, e))
skip_cases false granted true e = absurd (ground (arith, e))

find_forbidden_ddl-IsHarmless :
    (upper : Text) (kws : List Text)
    → find_forbidden_ddl upper kws ≡ false
    → All (IsHarmless upper) kws
unfolding find_forbidden_ddl is_privilege
find_forbidden_ddl-IsHarmless upper [] e = tt
find_forbidden_ddl-IsHarmless upper (kw ∷ kws) e =
    let parts =
      neither (not (is_privilege upper kw) && contains_text upper kw) (find_forbidden_ddl upper kws)
        e in
    (
      elim (skip_cases (kw == text "UPDATE " || kw == text "TRUNCATE ")
          (first_word upper == text "GRANT" || first_word upper == text "REVOKE")
          (contains_text upper kw) parts.0) [
            | inl absent ↦ inl absent
            | inr privilege ↦ inr (
              either kw (text "UPDATE ") (text "TRUNCATE ") privilege.0,
              either (first_word upper) (text "GRANT") (text "REVOKE") privilege.1,
            )
          ],
      find_forbidden_ddl-IsHarmless upper kws parts.1,
    )

-- What may be executed.
abbrev pub IsUserManagement : (Text → Text) → Text → Type 0
IsUserManagement to_uppercase statement =
    (contains_text statement (text ";") ≡ false)
    × IsRoleDdl (to_uppercase statement)
    × All (IsHarmless (to_uppercase statement)) forbidden_ddl

validate_ddl-IsUserManagement :
    (to_uppercase : Text → Text) (statement s : Text)
    → validate_ddl to_uppercase statement ≡ ok s
    → IsUserManagement to_uppercase s
unfolding validate_ddl
validate_ddl-IsUserManagement to_uppercase statement s e =
    let upper = to_uppercase statement in
    let checked =
      if find_forbidden_ddl upper forbidden_ddl then err mutation_forbidden else ok statement in
    let single =
      refused_else (contains_text statement (text ";")) multi_statement_forbidden
        (if not (is_valid_role_ddl upper) then err mutation_forbidden else checked) s e in
    let valid =
      refused_else (not (is_valid_role_ddl upper)) mutation_forbidden checked s single.1 in
    let clean =
      refused_else (find_forbidden_ddl upper forbidden_ddl) mutation_forbidden (ok statement) s
        valid.1 in
    subst (IsUserManagement to_uppercase) (ok-injective statement s clean.1) (
      single.0,
      is_valid_role_ddl-IsRoleDdl upper (unless-true (is_valid_role_ddl upper) valid.0),
      find_forbidden_ddl-IsHarmless upper forbidden_ddl clean.0,
    )

-- User management goes through only where mutations are allowed, and only as one statement that in
-- upper case creates, drops or alters a role or user, grants to or revokes from someone, and has none
-- of the forbidden keywords, but UPDATE and TRUNCATE as the names of privileges.
pub validate_user_management_ddl-IsUserManagement :
    (to_uppercase : Text → Text) (g : SqlSecurityGuard) (raw_sql s : Text)
    → validate_user_management_ddl to_uppercase g raw_sql ≡ ok s
    → (g.allow_mutations ≡ true) × IsUserManagement to_uppercase s
unfolding validate_user_management_ddl
validate_user_management_ddl-IsUserManagement to_uppercase g raw_sql s e =
    let trimmed = trim (strip_comments raw_sql) in
    let statement = trim (trim_semicolons trimmed) in
    let filled =
      refused_else (is_empty trimmed) empty_query
        (if not g.allow_mutations
          then err mutation_forbidden
          else validate_ddl to_uppercase statement)
        s e in
    let allowed =
      refused_else (not g.allow_mutations) mutation_forbidden (validate_ddl to_uppercase statement)
        s filled.1 in
    (
      unless-true g.allow_mutations allowed.0,
      validate_ddl-IsUserManagement to_uppercase statement s allowed.1,
    )
