-- ===== src/Proxy/Executor/Routing.antt =====
-- Which statements proxy/src/executor.rs sends to a standby.
use pgvisor.Prelude.{◌≡◌, ◌⊎◌, Bool, false, if_elim, ◌==◌, same_iff, Bool-cases, inl, inr, arith}
use pgvisor.Prelude.Texts.{Text, text, chars_key, first_word, contains_text}
use pgvisor.Proxy.Executor.{without_semicolon, leads_by_word, is_leader_required}

-- A single SELECT that does not write INTO and does not look at replication, a SHOW, or an EXPLAIN.
abbrev pub MayReadStandby : (Text → Text) → Text → Type 0
MayReadStandby to_uppercase sql =
    (contains_text (without_semicolon sql) (text ";") ≡ false)
    × (contains_text (to_uppercase (without_semicolon sql)) (text "PG_STAT_REPLICATION") ≡ false)
    × (((first_word (to_uppercase (without_semicolon sql)) ≡ text "SELECT")
          × (contains_text (to_uppercase (without_semicolon sql)) (text "INTO ") ≡ false))
        ⊎ (first_word (to_uppercase (without_semicolon sql)) ≡ text "SHOW")
        ⊎ (first_word (to_uppercase (without_semicolon sql)) ≡ text "EXPLAIN"))

leads_by_word-reads :
    (upper word : Text)
    → leads_by_word upper word ≡ false
    → ((word ≡ text "SELECT") × (contains_text upper (text "INTO ") ≡ false))
      ⊎ (word ≡ text "SHOW")
      ⊎ (word ≡ text "EXPLAIN")
unfolding leads_by_word
leads_by_word-reads upper word =
    if_elim
      (λ (b : Bool).
        b ≡ false
        → ((word ≡ text "SELECT") × (contains_text upper (text "INTO ") ≡ false))
          ⊎ (word ≡ text "SHOW")
          ⊎ (word ≡ text "EXPLAIN"))
      (word == text "SELECT") (λ s e. inl ((same_iff word (text "SELECT")).0 s, e))
      (λ s e. elim (Bool-cases (word == text "SHOW")) [
        | inl show ↦ inr (inl ((same_iff word (text "SHOW")).0 show))
        | inr other ↦ elim (Bool-cases (word == text "EXPLAIN")) [
          | inl explain ↦ inr (inr ((same_iff word (text "EXPLAIN")).0 explain))
          | inr none_of_them ↦ absurd (ground (arith, other, none_of_them, e))
        ]
      ])

-- A statement is sent to a standby only if, without comments and trailing semicolons, it is a single
-- statement that does not name the replication view, and is a SELECT without INTO, a SHOW or an EXPLAIN.
pub is_leader_required-MayReadStandby :
    (to_uppercase : Text → Text) (sql : Text)
    → is_leader_required to_uppercase sql ≡ false
    → MayReadStandby to_uppercase sql
unfolding is_leader_required
is_leader_required-MayReadStandby to_uppercase sql =
    if_elim (λ (b : Bool). b ≡ false → MayReadStandby to_uppercase sql)
      (contains_text (without_semicolon sql) (text ";")) (λ several e. absurd (ground (arith, e)))
      (λ single.
        if_elim (λ (b : Bool). b ≡ false → MayReadStandby to_uppercase sql)
          (contains_text (to_uppercase (without_semicolon sql)) (text "PG_STAT_REPLICATION"))
          (λ replication e. absurd (ground (arith, e)))
          (λ plain e. (
            single,
            plain,
            leads_by_word-reads (to_uppercase (without_semicolon sql))
                (first_word (to_uppercase (without_semicolon sql))) e,
          )))
