-- ===== src/Backup/Manager/Limit.antt =====
-- How many snapshots `prune_retention` of backup/manager.rs keeps, and in which order they are listed.
use pgvisor.Prelude.{
  ◌≡◌, ◌≢◌, refl, sym, ap, ◌∙◌, subst, ℕ, zero, suc, ◌-◌, ◌≤◌, ◌<◌, true, Option, none, some, List,
  [], ◌∷◌, ltb, ◌&&◌, length, take, contains, ◌==◌, if_elim, Bool-cases, Option-cases, All, inl,
  inr, arith, same_iff,
}
use pgvisor.Prelude.Texts.{Text, chars_key, same_text_refl}
use pgvisor.Backup.Manager.{BasebackupMeta}
use pgvisor.Backup.Manager.Prune.{
  insert_id, insert_all, remove_id, by_time, by_count, without_newest, ids_to_delete, retained,
}
use pgvisor.Backup.Manager.Order.{newest}

-- No two snapshots have the same id.
abbrev pub Distinct : List BasebackupMeta → Type 0
Distinct [] = Unit
Distinct (m ∷ ms) = All (λ (n : BasebackupMeta). m.snapshot_id ≢ n.snapshot_id) ms × Distinct ms

insert_id-contains : (id : Text) (ids : List Text) → contains (insert_id id ids) id ≡ true
unfolding insert_id
insert_id-contains id ids =
    if_elim (λ (l : List Text). contains l id ≡ true) (contains ids id) (λ e. e)
      (λ e. ground (arith, same_text_refl id))

insert_id-contains_old :
    (id j : Text) (ids : List Text) → contains ids j ≡ true → contains (insert_id id ids) j ≡ true
unfolding insert_id
insert_id-contains_old id j ids h =
    if_elim (λ (l : List Text). contains l j ≡ true) (contains ids id) (λ e. h)
      (λ e. ground (arith, h))

insert_all-contains_old :
    (ms : List BasebackupMeta) (j : Text) (ids : List Text)
    → contains ids j ≡ true
    → contains (insert_all ms ids) j ≡ true
unfolding insert_all
insert_all-contains_old [] j ids h = h
insert_all-contains_old (m ∷ ms) j ids h =
    insert_all-contains_old ms j (insert_id m.snapshot_id ids)
      (insert_id-contains_old m.snapshot_id j ids h)

insert_all-contains :
    (ms : List BasebackupMeta) (ids : List Text)
    → All (λ (m : BasebackupMeta). contains (insert_all ms ids) m.snapshot_id ≡ true) ms
unfolding insert_all
insert_all-contains [] ids = tt
insert_all-contains (m ∷ ms) ids = (
  insert_all-contains_old ms m.snapshot_id (insert_id m.snapshot_id ids)
      (insert_id-contains m.snapshot_id ids),
  insert_all-contains ms (insert_id m.snapshot_id ids),
)

remove_id-contains_other :
    (id j : Text) (ids : List Text)
    → j ≢ id
    → contains ids j ≡ true
    → contains (remove_id id ids) j ≡ true
unfolding remove_id
remove_id-contains_other id j [] d h = h
remove_id-contains_other id j (i ∷ ids) d h = elim (Bool-cases (i == j)) [
  | inl e ↦
      if_elim (λ (l : List Text). contains l j ≡ true) (i == id)
        (λ g. absurd (d (sym ((same_iff i j).0 e) ∙ (same_iff i id).0 g))) (λ g. ground (arith, e))
  | inr e ↦
      let rest : contains (remove_id id ids) j ≡ true =
        remove_id-contains_other id j ids d (ground (arith, h, e)) in
      if_elim (λ (l : List Text). contains l j ≡ true) (i == id) (λ g. rest)
        (λ g. ground (arith, rest))
]

without_newest-contains_other :
    (ms : List BasebackupMeta) (m : BasebackupMeta) (ids : List Text) (j : Text)
    → newest ms ≡ some m
    → j ≢ m.snapshot_id
    → contains ids j ≡ true
    → contains (without_newest ms ids) j ≡ true
unfolding without_newest
without_newest-contains_other [] m ids j h d c = c
without_newest-contains_other (n ∷ []) m ids j h d c =
    remove_id-contains_other n.snapshot_id j ids
      (λ e.
        subst (λ (o : Option BasebackupMeta). elim o [ none ↦ Unit | some k ↦ j ≢ k.snapshot_id ])
          (sym h) d e)
      c
without_newest-contains_other (n ∷ k ∷ ms) m ids j h d c =
    without_newest-contains_other (k ∷ ms) m ids j h d c

newest-differs :
    (n m : BasebackupMeta) (ms : List BasebackupMeta)
    → newest ms ≡ some m
    → All (λ (k : BasebackupMeta). n.snapshot_id ≢ k.snapshot_id) ms
    → n.snapshot_id ≢ m.snapshot_id
newest-differs n m [] h a = absurd (ground (arith, h))
newest-differs n m (k ∷ []) h a =
    subst
      (λ (o : Option BasebackupMeta). elim o [
        | none ↦ Unit
        | some k ↦ n.snapshot_id ≢ k.snapshot_id
      ])
      h a.0
newest-differs n m (k ∷ l ∷ ms) h a = newest-differs n m (l ∷ ms) h a.1

newest-take :
    (count : ℕ) (m : BasebackupMeta) (ms : List BasebackupMeta)
    → newest ms ≡ some m
    → Distinct ms
    → count < length ms
    → All (λ (n : BasebackupMeta). n.snapshot_id ≢ m.snapshot_id) (take count ms)
newest-take zero m ms h d b = tt
newest-take (suc count) m [] h d b = tt
newest-take (suc count) m (n ∷ []) h d b = absurd (omega (arith, b))
newest-take (suc count) m (n ∷ k ∷ ms) h d b =
    (newest-differs n m (k ∷ ms) h d.0, newest-take count m (k ∷ ms) h d.1 (omega (arith, b)))

retained_le : (ids : List Text) (ms : List BasebackupMeta) → length (retained ids ms) ≤ length ms
unfolding retained
retained_le ids [] = omega arith
retained_le ids (m ∷ ms) =
    if_elim (λ (l : List BasebackupMeta). length l ≤ suc (length ms)) (contains ids m.snapshot_id)
      (λ e. omega (arith, retained_le ids ms)) (λ e. omega (arith, retained_le ids ms))

length-retained :
    (count : ℕ) (ids : List Text) (ms : List BasebackupMeta)
    → All (λ (m : BasebackupMeta). contains ids m.snapshot_id ≡ true) (take count ms)
    → length (retained ids ms) ≤ length ms - count
unfolding retained
length-retained zero ids ms a = omega (arith, retained_le ids ms)
length-retained (suc count) ids [] a = omega arith
length-retained (suc count) ids (m ∷ ms) a =
    if_elim (λ (l : List BasebackupMeta). length l ≤ suc (length ms) - suc count)
      (contains ids m.snapshot_id) (λ e. omega (arith, length-retained count ids ms a.1))
      (λ e. absurd (ground (arith, e, a.0)))

newest-some :
    (ms : List BasebackupMeta) → 0 < length ms → (m : BasebackupMeta) × (newest ms ≡ some m)
newest-some [] h = absurd (omega (arith, h))
newest-some (m ∷ []) h = (m, refl)
newest-some (m ∷ n ∷ ms) h = newest-some (n ∷ ms) (omega arith)

All-map :
    {A : Type 0} {P Q : A → Type 0} (xs : List A) → ((a : A) → P a → Q a) → All P xs → All Q xs
All-map [] f a = tt
All-map (x ∷ xs) f a = (f x a.0, All-map xs f a.1)

All-both :
    {A : Type 0} (P Q : A → Type 0) (xs : List A) → All P xs → All Q xs → All (λ a. P a × Q a) xs
All-both P Q [] p q = tt
All-both P Q (x ∷ xs) p q = ((p.0, q.0), All-both P Q xs p.1 q.1)

-- The oldest of more than `limit` snapshots are all to be deleted.
excess_deleted :
    (limit : ℕ) (ms : List BasebackupMeta) (ids : List Text)
    → 0 < limit
    → limit < length ms
    → Distinct ms
    → All
        (λ (n : BasebackupMeta).
          contains (without_newest ms (insert_all (take (length ms - limit) ms) ids)) n.snapshot_id
          ≡ true)
        (take (length ms - limit) ms)
excess_deleted limit ms ids positive above d =
    let excess : List BasebackupMeta = take (length ms - limit) ms in
    let last : (m : BasebackupMeta) × (newest ms ≡ some m) =
      newest-some ms (omega (arith, positive, above)) in
    All-map excess
      (λ n h.
        without_newest-contains_other ms last.0 (insert_all excess ids) n.snapshot_id last.1 h.0
          h.1)
      (All-both _ _ excess
        (newest-take (length ms - limit) last.0 ms last.1 d (omega (arith, positive, above)))
        (insert_all-contains excess ids))

within_limit :
    (limit : ℕ) (ms : List BasebackupMeta) (old : List Text)
    → 0 < limit
    → Distinct ms
    → length (retained (without_newest ms (by_count (some limit) ms old)) ms) ≤ limit
unfolding by_count
within_limit limit ms old positive d =
    if_elim (λ (ids : List Text). length (retained (without_newest ms ids) ms) ≤ limit)
      (ltb 0 limit && ltb limit (length ms))
      (λ e.
        let above : limit < length ms = ground (arith, e) in
        let ids : List Text = without_newest ms (insert_all (take (length ms - limit) ms) old) in
        omega (
          arith,
          above,
          length-retained (length ms - limit) ids ms (excess_deleted limit ms old positive above d),
        ))
      (λ e.
        let below : length ms ≤ limit = ground (arith, e, positive) in
        omega (arith, below, retained_le (without_newest ms old) ms))

abbrev Within : ℕ → List BasebackupMeta → Option (List Text) → Type 0
Within limit ms none = Unit
Within limit ms (some k) = length (retained k ms) ≤ limit

-- With a positive count, whatever the window, and ids that are distinct, pruning retains no more
-- snapshots than the count.
pub ids_to_delete-within_limit :
    (limit : ℕ) (days : Option ℕ) (now : ℕ) (ms : List BasebackupMeta) (ids : List Text)
    → 0 < limit
    → Distinct ms
    → ids_to_delete (some limit) days now ms ≡ some ids
    → length (retained ids ms) ≤ limit
unfolding ids_to_delete
ids_to_delete-within_limit limit days now ms ids positive d h =
    elim (Option-cases (by_time days now ms)) [
      | inl e ↦ absurd (ground (arith, e, h))
      | inr (old, e) ↦
          subst (Within limit ms) (ap result (sym e) ∙ h) (within_limit limit ms old positive d)
    ]
  where
    result : Option (List Text) → Option (List Text)
    result o = elim o [
      | none ↦ none
      | some old ↦ some (without_newest ms (by_count (some limit) ms old))
    ]
