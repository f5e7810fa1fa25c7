-- ===== src/Protocol/Tracker/Routing.antt =====
-- Which statements the tracker of core/protocol/tracker.rs lets a standby answer.
use pgvisor.Prelude.{
  ◌≡◌, refl, sym, ap, ◌∙◌, inl, inr, ◌⊎◌, Bool, true, false, not, ◌||◌, ◌&&◌, List, [], ◌∷◌, All,
  if◌then◌else◌, is_empty, eqb, Bool-cases, ◌==◌, same_iff, arith,
}
use pgvisor.Prelude.Texts.{
  Text, text, chars_key, contains_text, is_whitespace, trim_start, trim_end_by, take_word,
  first_word, trim_semicolons, upper_char, to_ascii_uppercase, upper_char-is_whitespace,
  upper_char-semicolon, upper_char_twice,
}
use pgvisor.Protocol.Tracker.{
  QueryKind, transaction, failed, read, write, begin, commit, rollback, set_value, other,
  TransactionStatus, idle, TransactionTracker, is_idle, calls_admin_function, reads_word,
  writes_word, classify_word, classify_query, kind_requires_leader, requires_leader,
}

to_ascii_uppercase_twice :
    (s : Text) → to_ascii_uppercase (to_ascii_uppercase s) ≡ to_ascii_uppercase s
unfolding to_ascii_uppercase
to_ascii_uppercase_twice [] = refl
to_ascii_uppercase_twice (c ∷ s) =
    ap (λ d. d ∷ to_ascii_uppercase (to_ascii_uppercase s)) (upper_char_twice c)
    ∙ ap (◌∷◌ (upper_char c)) (to_ascii_uppercase_twice s)

trim_start-to_ascii_uppercase :
    (s : Text) → trim_start (to_ascii_uppercase s) ≡ to_ascii_uppercase (trim_start s)
unfolding to_ascii_uppercase trim_start
trim_start-to_ascii_uppercase [] = refl
trim_start-to_ascii_uppercase (c ∷ s) = elim (Bool-cases (is_whitespace c)) [
  | inl space ↦ rw (upper_char-is_whitespace c, space, trim_start-to_ascii_uppercase s)
  | inr ink ↦ rw (upper_char-is_whitespace c, ink) refl
]

take_word-to_ascii_uppercase :
    (s : Text) → take_word (to_ascii_uppercase s) ≡ to_ascii_uppercase (take_word s)
unfolding to_ascii_uppercase take_word
take_word-to_ascii_uppercase [] = refl
take_word-to_ascii_uppercase (c ∷ s) = elim (Bool-cases (is_whitespace c)) [
  | inl space ↦ rw (upper_char-is_whitespace c, space) refl
  | inr ink ↦
      rw (upper_char-is_whitespace c, ink)
        (ap (◌∷◌ (upper_char c)) (take_word-to_ascii_uppercase s))
]

is_empty-to_ascii_uppercase : (s : Text) → is_empty (to_ascii_uppercase s) ≡ is_empty s
unfolding to_ascii_uppercase
is_empty-to_ascii_uppercase [] = refl
is_empty-to_ascii_uppercase (c ∷ s) = refl

to_ascii_uppercase-if :
    (b : Bool) (s : Text)
    → (if b then [] else to_ascii_uppercase s) ≡ to_ascii_uppercase (if b then [] else s)
unfolding to_ascii_uppercase
to_ascii_uppercase-if true s = refl
to_ascii_uppercase-if false s = refl

trim_semicolons-to_ascii_uppercase :
    (s : Text) → trim_semicolons (to_ascii_uppercase s) ≡ to_ascii_uppercase (trim_semicolons s)
unfolding trim_semicolons trim_end_by to_ascii_uppercase
trim_semicolons-to_ascii_uppercase [] = refl
trim_semicolons-to_ascii_uppercase (c ∷ s) =
    rw (trim_semicolons-to_ascii_uppercase s, is_empty-to_ascii_uppercase, upper_char-semicolon c)
      (to_ascii_uppercase-if (is_empty (trim_end_by (eqb 59) s) && eqb 59 c)
        (c ∷ trim_end_by (eqb 59) s))

-- A statement is classified alike whatever the case of its ASCII letters.
pub classify_query-to_ascii_uppercase :
    (sql : Text) → classify_query (to_ascii_uppercase sql) ≡ classify_query sql
unfolding classify_query first_word
classify_query-to_ascii_uppercase sql =
    rw
      (
        trim_start-to_ascii_uppercase sql,
        trim_start-to_ascii_uppercase (trim_start sql),
        take_word-to_ascii_uppercase (trim_start (trim_start sql)),
        trim_semicolons-to_ascii_uppercase (take_word (trim_start (trim_start sql))),
        to_ascii_uppercase_twice (trim_start sql),
        to_ascii_uppercase_twice (trim_semicolons (take_word (trim_start (trim_start sql)))),
      )
      refl

-- The keyword that a statement begins with.
unfoldable pub keyword : Text → Text
keyword sql = to_ascii_uppercase (trim_semicolons (first_word (trim_start sql)))

read_cases :
    (select admin show change begins commits rolls sets : Bool)
    → (if select
        then if admin then write else read
        else if show
        then read
        else if change
        then write
        else if begins
        then begin
        else if commits
        then commit
        else if rolls
        then rollback
        else if sets
        then set_value
        else other)
      ≡ read
    → ((select ≡ true) × (admin ≡ false)) ⊎ (show ≡ true)
read_cases select admin show change begins commits rolls sets e = ground arith

kind_requires_leader-read : (k : QueryKind) → kind_requires_leader k ≡ false → k ≡ read
unfolding kind_requires_leader
kind_requires_leader-read read e = refl
kind_requires_leader-read write e = absurd (ground (arith, e))
kind_requires_leader-read begin e = absurd (ground (arith, e))
kind_requires_leader-read commit e = absurd (ground (arith, e))
kind_requires_leader-read rollback e = absurd (ground (arith, e))
kind_requires_leader-read set_value e = absurd (ground (arith, e))
kind_requires_leader-read other e = absurd (ground (arith, e))

is_idle-idle : (status : TransactionStatus) → is_idle status ≡ true → status ≡ idle
unfolding is_idle
is_idle-idle idle e = refl
is_idle-idle transaction e = absurd (ground (arith, e))
is_idle-idle failed e = absurd (ground (arith, e))

-- The functions that a SELECT may not name on a standby.
abbrev pub admin_functions : List Text
admin_functions =
    text "PG_SWITCH_WAL"
    ∷ text "PG_CREATE_RESTORE_POINT"
    ∷ text "PG_BACKUP_START"
    ∷ text "PG_BACKUP_STOP"
    ∷ []

abbrev pub NamesNone : Text → Type 0
NamesNone upper = All (λ (name : Text). contains_text upper name ≡ false) admin_functions

none_of :
    (a b c d : Bool)
    → a || b || c || d ≡ false
    → (a ≡ false) × ((b ≡ false) × ((c ≡ false) × ((d ≡ false) × Unit {0})))
none_of false false false false e = (refl, (refl, (refl, (refl, tt))))
none_of true b c d e = absurd (ground (arith, e))
none_of false true c d e = absurd (ground (arith, e))
none_of false false true d e = absurd (ground (arith, e))
none_of false false false true e = absurd (ground (arith, e))

calls_admin_function-NamesNone :
    (upper : Text) → calls_admin_function upper ≡ false → NamesNone upper
unfolding calls_admin_function
calls_admin_function-NamesNone upper e =
    none_of (contains_text upper (text "PG_SWITCH_WAL"))
      (contains_text upper (text "PG_CREATE_RESTORE_POINT"))
      (contains_text upper (text "PG_BACKUP_START")) (contains_text upper (text "PG_BACKUP_STOP")) e

-- A statement that begins with SELECT and names none of these functions, or with SHOW or EXPLAIN.
abbrev pub Reads : Text → Type 0
Reads sql =
    ((keyword sql ≡ text "SELECT") × NamesNone (to_ascii_uppercase (trim_start sql)))
    ⊎ ((keyword sql ≡ text "SHOW") ⊎ (keyword sql ≡ text "EXPLAIN"))

show_cases : (word : Text) → reads_word word ≡ true → (word ≡ text "SHOW") ⊎ (word ≡ text "EXPLAIN")
unfolding reads_word
show_cases word e = elim (Bool-cases (word == text "SHOW")) [
  | inl here ↦ inl ((same_iff word (text "SHOW")).0 here)
  | inr there ↦
      inr
        ((same_iff word (text "EXPLAIN")).0 (sym (ap (λ b. b || word == text "EXPLAIN") there) ∙ e))
]

classify_query-Reads : (sql : Text) → classify_query sql ≡ read → Reads sql
unfolding classify_query classify_word keyword
classify_query-Reads sql e =
    elim (read_cases (keyword sql == text "SELECT")
      (calls_admin_function (to_ascii_uppercase (trim_start sql))) (reads_word (keyword sql))
      (writes_word (keyword sql)) (keyword sql == text "BEGIN" || keyword sql == text "START")
      (keyword sql == text "COMMIT" || keyword sql == text "END")
      (keyword sql == text "ROLLBACK" || keyword sql == text "ABORT")
      (keyword sql == text "SET" || keyword sql == text "RESET") e) [
        | inl select ↦ inl (
          (same_iff (keyword sql) (text "SELECT")).0 select.0,
          calls_admin_function-NamesNone (to_ascii_uppercase (trim_start sql)) select.1,
        )
        | inr show ↦ inr (show_cases (keyword sql) show)
      ]

-- A statement may go to a standby only outside a transaction, and only if it begins with SELECT and
-- contains, in whatever case, none of pg_switch_wal, pg_create_restore_point, pg_backup_start and
-- pg_backup_stop, or if it begins with SHOW or EXPLAIN.
pub requires_leader-Reads :
    (t : TransactionTracker) (sql : Text)
    → requires_leader t sql ≡ false
    → (t.status ≡ idle) × Reads sql
unfolding requires_leader
requires_leader-Reads t sql e = elim (Bool-cases (is_idle t.status)) [
  | inl rest ↦ (
    is_idle-idle t.status rest,
    classify_query-Reads sql (
        kind_requires_leader-read (classify_query sql) (
          sym (ap (λ b. if not b then true else kind_requires_leader (classify_query sql)) rest)
          ∙ e)),
  )
  | inr busy ↦ absurd (
      ground (
        arith,
        sym (ap (λ b. if not b then true else kind_requires_leader (classify_query sql)) busy) ∙ e,
      ))
]
