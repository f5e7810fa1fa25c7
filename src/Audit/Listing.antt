-- ===== src/Audit/Listing.antt =====
-- `list` and `stats` of core/audit.rs. `to_lowercase` of Unicode is a parameter.
use pgvisor.Prelude.{
  ℕ, ◌+◌, ◌≡◌, refl, ap, ◌∙◌, Bool, true, false, ◌&&◌, ◌||◌, Option, none, some, List, [], ◌∷◌,
  length, take, drop, is_empty, if◌then◌else◌, All, sym, zero, suc, arith,
}
use pgvisor.Prelude.Texts.{Text, trim, contains_text}
use pgvisor.Audit.{AuditEvent}
use pgvisor.Audit.Kind.{AuditEventKind, dangerous_sql, as_str, same_kind}

unfoldable pub rev_onto : List AuditEvent → List AuditEvent → List AuditEvent
rev_onto later [] = later
rev_onto later (e ∷ es) = rev_onto (e ∷ later) es

unfoldable pub is_kind : Option AuditEventKind → AuditEvent → Bool
is_kind none e = true
is_kind (some target) e = same_kind e.kind target

unfoldable pub contains_lower : (Text → Text) → Option Text → Text → Bool
contains_lower to_lowercase none q = false
contains_lower to_lowercase (some a) q = contains_text (to_lowercase a) q

unfoldable pub is_found : (Text → Text) → Option Text → AuditEvent → Bool
is_found to_lowercase none e = true
is_found to_lowercase (some search) e =
    let q = to_lowercase (trim search) in
    is_empty q
    || contains_text (to_lowercase e.detail) q
    || contains_text (as_str e.kind) q
    || contains_lower to_lowercase e.node_address q

unfoldable pub matches : (Text → Text) → Option AuditEventKind → Option Text → AuditEvent → Bool
matches to_lowercase kind search e = is_kind kind e && is_found to_lowercase search e

unfoldable pub filter_events : (AuditEvent → Bool) → List AuditEvent → List AuditEvent
filter_events test [] = []
filter_events test (e ∷ es) = let rest = filter_events test es in if test e then e ∷ rest else rest

unfoldable pub list :
    (Text → Text)
    → List AuditEvent
    → ℕ
    → ℕ
    → Option AuditEventKind
    → Option Text
    → List AuditEvent × ℕ
list to_lowercase ring limit offset kind search =
    let found = filter_events (matches to_lowercase kind search) (rev_onto [] ring) in
    (take limit (drop offset found), length found)

-- The counters of the loop of `stats`.
unfoldable pub latest_or : Option Text → Option Text → Option Text
latest_or none target = target
latest_or (some t) target = some t

unfoldable pub count_dangerous : ℕ → Option Text → List AuditEvent → ℕ × Option Text
count_dangerous count latest [] = (count, latest)
count_dangerous count latest (e ∷ es) =
    if same_kind e.kind dangerous_sql
    then count_dangerous (count + 1) (latest_or latest e.pitr_target) es
    else count_dangerous count latest es

unfoldable pub stats : List AuditEvent → ℕ × (ℕ × Option Text)
stats ring = (length ring, count_dangerous 0 none (rev_onto [] ring))

-- The first target for recovery among some events.
abbrev pub first_target : List AuditEvent → Option Text
first_target [] = none
first_target (e ∷ es) = latest_or e.pitr_target (first_target es)

latest_or_assoc : (a b c : Option Text) → latest_or (latest_or a b) c ≡ latest_or a (latest_or b c)
unfolding latest_or
latest_or_assoc none b c = refl
latest_or_assoc (some t) b c = refl

latest_or-none : (a : Option Text) → a ≡ latest_or a none
unfolding latest_or
latest_or-none none = refl
latest_or-none (some t) = refl

module _ (to_lowercase : Text → Text) where
  abbrev pub dangerous : AuditEvent → Bool
  dangerous e = matches to_lowercase (some dangerous_sql) none e

  count_dangerous-filter :
      (count : ℕ) (latest : Option Text) (es : List AuditEvent)
      → count_dangerous count latest es ≡ (
        count + length (filter_events dangerous es),
        latest_or latest (first_target (filter_events dangerous es)),
      )
  unfolding count_dangerous filter_events matches is_kind is_found
  count_dangerous-filter count latest [] =
      ap (λ k. (k, latest)) (zero_more count) ∙ ap (λ t. (count + 0, t)) (latest_or-none latest)
    where
      zero_more : (k : ℕ) → k ≡ k + 0
      zero_more k = omega arith
  count_dangerous-filter count latest (e ∷ es) =
      by_kind (same_kind e.kind dangerous_sql)
        (count_dangerous-filter (count + 1) (latest_or latest e.pitr_target) es)
        (count_dangerous-filter count latest es)
    where
      rest : List AuditEvent
      rest = filter_events dangerous es

      with_first : Bool → List AuditEvent
      with_first b = if b && true then e ∷ rest else rest

      one_more : count + 1 + length rest ≡ count + length (e ∷ rest)
      one_more = omega arith

      by_kind :
          (b : Bool)
          → count_dangerous (count + 1) (latest_or latest e.pitr_target) es ≡ (
            count + 1 + length rest,
            latest_or (latest_or latest e.pitr_target) (first_target rest),
          )
          → count_dangerous count latest es
            ≡ (count + length rest, latest_or latest (first_target rest))
          → (if b
              then count_dangerous (count + 1) (latest_or latest e.pitr_target) es
              else count_dangerous count latest es)
            ≡ (count + length (with_first b), latest_or latest (first_target (with_first b)))
      by_kind true counted skipped =
          counted
          ∙ ap (λ k. (k, latest_or (latest_or latest e.pitr_target) (first_target rest))) one_more
          ∙ ap (λ t. (count + length (e ∷ rest), t))
              (latest_or_assoc latest e.pitr_target (first_target rest))
      by_kind false counted skipped = skipped

  length-rev_onto :
      (later es : List AuditEvent) → length (rev_onto later es) ≡ length later + length es
  unfolding rev_onto
  length-rev_onto later [] = omega arith
  length-rev_onto later (e ∷ es) = omega (arith, length-rev_onto (e ∷ later) es)

  filter_events-all :
      (es : List AuditEvent) → filter_events (matches to_lowercase none none) es ≡ es
  unfolding filter_events matches is_kind is_found
  filter_events-all [] = refl
  filter_events-all (e ∷ es) = ap (◌∷◌ e) (filter_events-all es)

  take_all : (es : List AuditEvent) → take (length es) es ≡ es
  take_all [] = refl
  take_all (e ∷ es) = ap (◌∷◌ e) (take_all es)

  -- The statistics are those of the listings: the total of the unfiltered listing, the total of the
  -- listing of dangerous statements, and the first target for recovery on its page of all of them.
  pub stats-list :
      (ring : List AuditEvent) (limit offset : ℕ)
      → let shown = list to_lowercase ring limit offset (some dangerous_sql) none in
        let page = list to_lowercase ring shown.1 0 (some dangerous_sql) none in
        (stats ring).0 ≡ (list to_lowercase ring limit offset none none).1
        × (stats ring).1.0 ≡ shown.1
        × (stats ring).1.1 ≡ first_target page.0
  unfolding stats list latest_or
  stats-list ring limit offset =
      let newest = rev_onto [] ring in
      let counted = count_dangerous-filter 0 none newest in
      (
        sym (
            ap length (filter_events-all newest)
            ∙ length-rev_onto [] ring
            ∙ zero_plus (length ring)),
        ap (λ c. c.0) counted ∙ zero_plus (length (filter_events dangerous newest)),
        ap (λ c. c.1) counted ∙ ap first_target (sym (take_all (filter_events dangerous newest))),
      )
    where
      zero_plus : (n : ℕ) → 0 + n ≡ n
      zero_plus n = omega arith

  All-take : (P : AuditEvent → Type 0) (n : ℕ) (es : List AuditEvent) → All P es → All P (take n es)
  All-take P zero es a = tt
  All-take P (suc n) [] a = tt
  All-take P (suc n) (e ∷ es) a = (a.0, All-take P n es a.1)
