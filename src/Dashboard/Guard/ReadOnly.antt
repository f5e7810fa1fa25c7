-- ===== src/Dashboard/Guard/ReadOnly.antt =====
-- What the checks of dashboard/security.rs let through.
use pgvisor.Prelude.{
  neither, ◌≡◌, refl, sym, ap, subst, ◌∙◌, inl, inr, ◌⊎◌, Bool, true, false, not, ◌||◌, ◌&&◌, List,
  [], ◌∷◌, All, All-append, ◌++◌, eqb, ◌==◌, same_iff, if◌then◌else◌, is_empty, Bool-cases, arith,
}
use pgvisor.Prelude.Texts.{
  Text, text, chars_key, trim, trim_semicolons, first_word, contains_text, starts_with,
}
use pgvisor.Dashboard.Guard.{
  SqlSecurityGuard, ok, err, mutation_forbidden, multi_statement_forbidden, empty_query,
  strip_comments, is_allowed_prefix, forbidden_keywords, refuses, find_forbidden,
  validate_statement, validate_read_only, validate_sql,
}
use pgvisor.Dashboard.Guard.Branches.{refused_else, ok-injective, unless-true}

find_forbidden-All :
    (upper : Text) (kws : List Text)
    → find_forbidden upper kws ≡ false
    → All (λ kw. contains_text upper kw && refuses upper kw ≡ false) kws
unfolding find_forbidden
find_forbidden-All upper [] e = tt
find_forbidden-All upper (kw ∷ kws) e =
    let parts = neither (contains_text upper kw && refuses upper kw) (find_forbidden upper kws) e in
    (parts.0, find_forbidden-All upper kws parts.1)

-- The keywords that are refused wherever they stand, each with the space that is sought with it.
abbrev pub mutating_keywords : List Text
mutating_keywords =
    text "INSERT "
    ∷ text "UPDATE "
    ∷ text "DELETE "
    ∷ text "DROP "
    ∷ text "ALTER "
    ∷ text "CREATE "
    ∷ text "TRUNCATE "
    ∷ text "GRANT "
    ∷ text "REVOKE "
    ∷ text "VACUUM "
    ∷ text "CALL "
    ∷ text "DO "
    ∷ text "COPY "
    ∷ []

each_absent :
    (upper : Text) (kws : List Text)
    → All (λ kw. refuses upper kw ≡ true) kws
    → All (λ kw. contains_text upper kw && refuses upper kw ≡ false) kws
    → All (λ kw. contains_text upper kw ≡ false) kws
each_absent upper [] r a = tt
each_absent upper (kw ∷ kws) r a = (ground (arith, r.0, a.0), each_absent upper kws r.1 a.1)

mutating_keywords-refuses : (upper : Text) → All (λ kw. refuses upper kw ≡ true) mutating_keywords
unfolding refuses
mutating_keywords-refuses upper = (
  refl,
  (
    refl,
    (refl, (refl, (refl, (refl, (refl, (refl, (refl, (refl, (refl, (refl, (refl, tt))))))))))),
  ),
)

starts_with-longer :
    (s sought more : Text) → starts_with s (sought ++ more) ≡ true → starts_with s sought ≡ true
unfolding starts_with
starts_with-longer [] [] more e = refl
starts_with-longer (c ∷ s) [] more e = refl
starts_with-longer [] (d ∷ sought) more e = e
starts_with-longer (c ∷ s) (d ∷ sought) more e = elim (Bool-cases (eqb c d)) [
  | inl here ↦ rw here (
      starts_with-longer s sought more
        (sym (ap (λ b. b && starts_with s (sought ++ more)) here) ∙ e))
  | inr there ↦
      absurd (ground (arith, sym (ap (λ b. b && starts_with s (sought ++ more)) there) ∙ e))
]

contains_text-longer :
    (s sought more : Text) → contains_text s (sought ++ more) ≡ true → contains_text s sought ≡ true
unfolding contains_text
contains_text-longer [] [] more e = refl
contains_text-longer [] (d ∷ sought) more e = e
contains_text-longer (c ∷ s) sought more e =
    elim (Bool-cases (starts_with (c ∷ s) (sought ++ more))) [
      | inl here ↦ rw (starts_with-longer (c ∷ s) sought more here) refl
      | inr there ↦ ground (
        arith,
        contains_text-longer s sought more
            (sym (ap (λ b. b || contains_text s (sought ++ more)) there) ∙ e),
      )
    ]

-- A statement (in upper case) without the keywords that are sought.
pub record IsReadOnly (upper : Text) : Type 0 where
  pub prefix :
      (first_word upper ≡ text "SELECT")
      ⊎ ((first_word upper ≡ text "SHOW")
          ⊎ ((first_word upper ≡ text "EXPLAIN") ⊎ (first_word upper ≡ text "WITH")))
  pub mutates_not : All (λ kw. contains_text upper kw ≡ false) mutating_keywords
  pub fills_not :
      (contains_text upper (text "SELECT") ≡ false) ⊎ (contains_text upper (text "INTO ") ≡ false)

last_one : (a b c d : Bool) → a ≡ false → b ≡ false → c ≡ false → a || b || c || d ≡ true → d ≡ true
last_one true b c d x y z e = absurd (ground (arith, x))
last_one false true c d x y z e = absurd (ground (arith, y))
last_one false false true d x y z e = absurd (ground (arith, z))
last_one false false false d x y z e = e

one_of :
    (word : Text)
    → is_allowed_prefix word ≡ true
    → (word ≡ text "SELECT")
      ⊎ ((word ≡ text "SHOW") ⊎ ((word ≡ text "EXPLAIN") ⊎ (word ≡ text "WITH")))
unfolding is_allowed_prefix
one_of word e = elim (Bool-cases (word == text "SELECT")) [
  | inl here ↦ inl ((same_iff word (text "SELECT")).0 here)
  | inr a ↦ elim (Bool-cases (word == text "SHOW")) [
    | inl here ↦ inr (inl ((same_iff word (text "SHOW")).0 here))
    | inr b ↦ elim (Bool-cases (word == text "EXPLAIN")) [
      | inl here ↦ inr (inr (inl ((same_iff word (text "EXPLAIN")).0 here)))
      | inr c ↦ inr (
          inr (
            inr (
              (same_iff word (text "WITH")).0 (
                last_one (word == text "SELECT") (word == text "SHOW") (word == text "EXPLAIN")
                  (word == text "WITH") a b c e))))
    ]
  ]
]

into_cases :
    (selects into fills : Bool)
    → (fills ≡ true → into ≡ true)
    → fills && (if selects && into then true else false) ≡ false
    → (selects ≡ false) ⊎ (fills ≡ false)
into_cases true into true h e = absurd (ground (arith, h refl, e))
into_cases false into true h e = inl refl
into_cases selects into false h e = inr refl

find_forbidden-IsReadOnly :
    (upper : Text)
    → is_allowed_prefix (first_word upper) ≡ true
    → find_forbidden upper forbidden_keywords ≡ false
    → IsReadOnly upper
unfolding refuses
find_forbidden-IsReadOnly upper w e =
    let each =
      All-append (λ kw. contains_text upper kw && refuses upper kw ≡ false) mutating_keywords
        (text "INTO " ∷ []) (find_forbidden-All upper forbidden_keywords e) in
    record {
      prefix = one_of (first_word upper) w;
      mutates_not = each_absent upper mutating_keywords (mutating_keywords-refuses upper) each.0;
      fills_not =
          into_cases (contains_text upper (text "SELECT")) (contains_text upper (text "INTO"))
            (contains_text upper (text "INTO "))
            (contains_text-longer upper (text "INTO") (text " ")) each.1.0;
    }

-- What may be sent: one statement that only reads.
abbrev pub IsSafe : (Text → Text) → Text → Type 0
IsSafe to_uppercase statement =
    (contains_text statement (text ";") ≡ false) × IsReadOnly (to_uppercase statement)

validate_statement-IsSafe :
    (to_uppercase : Text → Text) (statement s : Text)
    → validate_statement to_uppercase statement ≡ ok s
    → IsSafe to_uppercase s
unfolding validate_statement
validate_statement-IsSafe to_uppercase statement s e =
    let upper = to_uppercase statement in
    let single =
      refused_else (contains_text statement (text ";")) multi_statement_forbidden
        (if not (is_allowed_prefix (first_word upper))
          then err mutation_forbidden
          else if find_forbidden upper forbidden_keywords
          then err mutation_forbidden
          else ok statement)
        s e in
    let prefixed =
      refused_else (not (is_allowed_prefix (first_word upper))) mutation_forbidden
        (if find_forbidden upper forbidden_keywords then err mutation_forbidden else ok statement) s
        single.1 in
    let clean =
      refused_else (find_forbidden upper forbidden_keywords) mutation_forbidden (ok statement) s
        prefixed.1 in
    subst (IsSafe to_uppercase) (ok-injective statement s clean.1) (
      single.0,
      find_forbidden-IsReadOnly upper
          (unless-true (is_allowed_prefix (first_word upper)) prefixed.0) clean.0,
    )

validate_read_only-IsSafe :
    (to_uppercase : Text → Text) (raw_sql s : Text)
    → validate_read_only to_uppercase raw_sql ≡ ok s
    → IsSafe to_uppercase s
unfolding validate_read_only
validate_read_only-IsSafe to_uppercase raw_sql s e =
    let trimmed = trim (strip_comments raw_sql) in
    let statement = trim (trim_semicolons trimmed) in
    validate_statement-IsSafe to_uppercase statement s
      (refused_else (is_empty trimmed) empty_query (validate_statement to_uppercase statement) s
        e).1

-- What a guard that allows no mutations lets through is one statement, without a semicolon, that in
-- upper case begins with SELECT, SHOW, EXPLAIN or WITH, contains nowhere one of the thirteen mutating
-- keywords with a space behind it, and does not contain both SELECT and INTO with a space behind it. A
-- keyword with other white space behind it is not excluded.
pub validate_sql-IsSafe :
    (to_uppercase : Text → Text) (g : SqlSecurityGuard) (raw_sql s : Text)
    → g.allow_mutations ≡ false
    → validate_sql to_uppercase g raw_sql ≡ ok s
    → IsSafe to_uppercase s
unfolding validate_sql
validate_sql-IsSafe to_uppercase g raw_sql s m e =
    let trimmed = trim (strip_comments raw_sql) in
    let later =
      refused_else (is_empty trimmed) empty_query
        (if not g.allow_mutations then validate_read_only to_uppercase raw_sql else ok trimmed) s
        e in
    validate_read_only-IsSafe to_uppercase raw_sql s (
      sym (ap (λ b. if not b then validate_read_only to_uppercase raw_sql else ok trimmed) m)
      ∙ later.1)
