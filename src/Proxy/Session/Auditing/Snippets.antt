-- ===== src/Proxy/Session/Auditing/Snippets.antt =====
-- What is left out of a statement before its audit in proxy/src/session.rs, and what is shown of it.
use pgvisor.Prelude.{
  ℕ, zero, suc, ◌+◌, ◌-◌, ◌≤◌, ◌≡◌, ◌≢◌, ◌↔◌, ◌<◌, refl, sym, ap, ◌∙◌, true, false, ◌&&◌, ◌||◌,
  Option, none, some, List, [], ◌∷◌, ◌++◌, eqb, ltb, leb, is_empty, if◌then◌else◌, if_elim,
  Bool-cases, Option-cases, inl, inr, All, arith,
}
use pgvisor.Prelude.Texts.{
  push_char, split_lines, Text, text, trim, trim_start, trim_end_by, is_whitespace, starts_with,
}
use pgvisor.Proxy.Session.Auditing.{
  is_comment, without_comments, join_spaces, clean, utf8_len, byte_len, slice_to, snippet,
}

split_lines-line :
    (line s : Text)
    → All (λ c. eqb c 10 ≡ false) line
    → split_lines (line ++ (10 ∷ s)) ≡ line ∷ split_lines s
unfolding split_lines push_char
split_lines-line [] s a = refl
split_lines-line (c ∷ line) s a =
    if_elim (λ (l : List Text). l ≡ (c ∷ line) ∷ split_lines s) (eqb c 10)
      (λ e. absurd (ground (arith, e, a.0))) (λ e. ap (push_char c) (split_lines-line line s a.1))

trim-comment : (c : Text) → is_comment (trim (45 ∷ 45 ∷ c)) ≡ true
unfolding is_comment trim trim_start trim_end_by is_whitespace starts_with
trim-comment c =
    if_elim
      (λ (t : Text).
        starts_with (if is_empty t && is_whitespace 45 then [] else 45 ∷ t) (text "--")
          || starts_with (if is_empty t && is_whitespace 45 then [] else 45 ∷ t) (text "/*")
        ≡ true)
      (is_empty (trim_end_by is_whitespace c) && is_whitespace 45) (λ e. absurd (ground (arith, e)))
      (λ e. refl)

-- A comment line before a statement does not change what is audited of it.
pub clean-comment :
    (c sql : Text) → All (λ d. eqb d 10 ≡ false) c → clean ((45 ∷ 45 ∷ c) ++ (10 ∷ sql)) ≡ clean sql
unfolding clean without_comments
clean-comment c sql a =
    ap (λ l. trim (join_spaces (without_comments l)))
      (split_lines-line (45 ∷ 45 ∷ c) sql (refl, (refl, a)))
    ∙ if_elim
        (λ (l : List Text).
          trim (join_spaces l) ≡ trim (join_spaces (without_comments (split_lines sql))))
        (is_comment (trim (45 ∷ 45 ∷ c))) (λ e. refl)
        (λ e. absurd (ground (arith, e, trim-comment c)))

utf8_len-positive : (c : ℕ) → 1 ≤ utf8_len c
unfolding utf8_len
utf8_len-positive c = ground arith

-- What a slice takes is a prefix of as many bytes.
slice_to-some :
    (n : ℕ) (s t : Text)
    → slice_to n s ≡ some t
    → (rest : Text) × (s ≡ t ++ rest) × (byte_len t ≡ n)
unfolding slice_to byte_len
slice_to-some zero s t h =
    let same : [] ≡ t = ap (λ o. elim o [ none ↦ [] | some x ↦ x ]) h in
    (s, ap (λ x. x ++ s) same, ap byte_len (sym same))
slice_to-some (suc n) [] t h = absurd (ground (arith, h))
slice_to-some (suc n) (c ∷ s) t h = elim (Bool-cases (leb (utf8_len c) (suc n))) [
  | inl fits ↦ elim (Option-cases (slice_to (suc n - utf8_len c) s)) [
    | inl e ↦ absurd (ground (arith, e, fits, h))
    | inr (u, e) ↦
        let ih : (rest : Text) × (s ≡ u ++ rest) × (byte_len u ≡ suc n - utf8_len c) =
          slice_to-some (suc n - utf8_len c) s u e in
        let got : some (c ∷ u) ≡ some t = ap (λ o. put c o) (sym e) ∙ taken c n s t fits h in
        let same : c ∷ u ≡ t = ap (λ o. elim o [ none ↦ [] | some x ↦ x ]) got in
        (
          ih.0,
          ap (◌∷◌ c) ih.1 ∙ ap (λ x. x ++ ih.0) same,
          ap byte_len (sym same) ∙ ground (arith, ih.2, fits),
        )
  ]
  | inr long ↦ absurd (ground (arith, long, h))
]
  where
    put : ℕ → Option Text → Option Text
    put c o = elim o [ none ↦ none | some x ↦ some (c ∷ x) ]

    taken :
        (c n : ℕ) (s t : Text)
        → leb (utf8_len c) (suc n) ≡ true
        → (if leb (utf8_len c) (suc n) then put c (slice_to (suc n - utf8_len c) s) else none)
          ≡ some t
        → put c (slice_to (suc n - utf8_len c) s) ≡ some t
    taken c n s t fits h =
        ap (λ b. if b then put c (slice_to (suc n - utf8_len c) s) else none) (sym fits) ∙ h

-- A prefix is what a slice of as many bytes takes.
slice_to-prefix : (pre post : Text) → slice_to (byte_len pre) (pre ++ post) ≡ some pre
unfolding slice_to byte_len
slice_to-prefix [] post = refl
slice_to-prefix (c ∷ pre) post =
    at (utf8_len c + byte_len pre) (utf8_len-positive c) refl (slice_to-prefix pre post)
  where
    put : Option Text → Option Text
    put o = elim o [ none ↦ none | some x ↦ some (c ∷ x) ]

    at :
        (n : ℕ)
        → 1 ≤ utf8_len c
        → n ≡ utf8_len c + byte_len pre
        → slice_to (byte_len pre) (pre ++ post) ≡ some pre
        → slice_to n (c ∷ (pre ++ post)) ≡ some (c ∷ pre)
    at zero p e ih = absurd (omega (arith, p, e))
    at (suc n) p e ih =
        if_elim (λ (o : Option Text). o ≡ some (c ∷ pre)) (leb (utf8_len c) (suc n))
          (λ f.
            let rest : suc n - utf8_len c ≡ byte_len pre = omega (arith, e) in
            ap (λ m. put (slice_to m (pre ++ post))) rest ∙ ap put ih)
          (λ f. absurd (ground (arith, f, e)))

-- Showing a statement in the audit panics exactly when the statement has more than 300 bytes and no
-- number of its first characters has exactly 300 bytes.
pub snippet-none_iff :
    (sql : Text)
    → (snippet sql ≡ none)
      ↔ ((300 < byte_len sql) × ((pre post : Text) → sql ≡ pre ++ post → byte_len pre ≢ 300))
unfolding snippet
snippet-none_iff sql = (fails, cuts)
  where
    shown : Option Text → Option Text
    shown o = elim o [ none ↦ none | some s ↦ some (s ++ text "...") ]

    fails :
        (if ltb 300 (byte_len sql) then shown (slice_to 300 sql) else some sql) ≡ none
        → (300 < byte_len sql) × ((pre post : Text) → sql ≡ pre ++ post → byte_len pre ≢ 300)
    fails =
        if_elim
          (λ (o : Option Text).
            o ≡ none
            → (300 < byte_len sql) × ((pre post : Text) → sql ≡ pre ++ post → byte_len pre ≢ 300))
          (ltb 300 (byte_len sql))
          (λ long h. (
            ground (arith, long),
            λ pre post e b. absurd (
                ground (
                  arith,
                  sym h
                      ∙ ap shown (
                          ap (slice_to 300) e
                          ∙ ap (λ n. slice_to n (pre ++ post)) (sym b)
                          ∙ slice_to-prefix pre post),
                )),
          ))
          (λ short h. absurd (ground (arith, h)))

    cuts :
        (300 < byte_len sql) × ((pre post : Text) → sql ≡ pre ++ post → byte_len pre ≢ 300)
        → (if ltb 300 (byte_len sql) then shown (slice_to 300 sql) else some sql) ≡ none
    cuts (long, h) =
        if_elim (λ (o : Option Text). o ≡ none) (ltb 300 (byte_len sql))
          (λ e. elim (Option-cases (slice_to 300 sql)) [
            | inl n ↦ ap shown n
            | inr (t, y) ↦
                let split : (rest : Text) × (sql ≡ t ++ rest) × (byte_len t ≡ 300) =
                  slice_to-some 300 sql t y in
                absurd (h t split.0 split.1 split.2)
          ])
          (λ e. absurd (ground (arith, e, long)))
