-- ===== src/Backup/Manager/Order.antt =====
-- `list_basebackups` of backup/manager.rs lists in the order of creation.
use pgvisor.Prelude.{
  ◌≡◌, sym, subst, ℕ, ◌≤◌, Option, none, some, List, [], ◌∷◌, leb, leb_iff, if_elim, Option-cases,
  All, inl, inr, arith,
}
use pgvisor.Prelude.Texts.{Text}
use pgvisor.Backup.Store.{Operator, Entry}
use pgvisor.Backup.Manager.{
  BasebackupMeta, Json, basebackup_prefix, sort_by_time, insert_by_time, read_entries,
  list_basebackups,
}

-- The last snapshot of a list.
abbrev pub newest : List BasebackupMeta → Option BasebackupMeta
newest [] = none
newest (m ∷ []) = some m
newest (m ∷ n ∷ ms) = newest (n ∷ ms)

abbrev pub NotBefore : ℕ → List BasebackupMeta → Type 0
NotBefore t ms = All (λ (n : BasebackupMeta). t ≤ n.created_at) ms

abbrev pub IsChronological : List BasebackupMeta → Type 0
IsChronological [] = Unit
IsChronological (m ∷ ms) = NotBefore m.created_at ms × IsChronological ms

NotBefore-earlier : (t u : ℕ) (ms : List BasebackupMeta) → t ≤ u → NotBefore u ms → NotBefore t ms
NotBefore-earlier t u [] h a = tt
NotBefore-earlier t u (m ∷ ms) h a = (omega (arith, h, a.0), NotBefore-earlier t u ms h a.1)

insert_by_time-NotBefore :
    (t : ℕ) (m : BasebackupMeta) (ms : List BasebackupMeta)
    → t ≤ m.created_at
    → NotBefore t ms
    → NotBefore t (insert_by_time m ms)
unfolding insert_by_time
insert_by_time-NotBefore t m [] h a = (h, tt)
insert_by_time-NotBefore t m (n ∷ ms) h a =
    if_elim (NotBefore t) (leb m.created_at n.created_at) (λ e. (h, a))
      (λ e. (a.0, insert_by_time-NotBefore t m ms h a.1))

insert_by_time-IsChronological :
    (m : BasebackupMeta) (ms : List BasebackupMeta)
    → IsChronological ms
    → IsChronological (insert_by_time m ms)
unfolding insert_by_time
insert_by_time-IsChronological m [] c = (tt, tt)
insert_by_time-IsChronological m (n ∷ ms) c =
    if_elim IsChronological (leb m.created_at n.created_at)
      (λ e.
        let le : m.created_at ≤ n.created_at = (leb_iff m.created_at n.created_at).0 e in
        ((le, NotBefore-earlier m.created_at n.created_at ms le c.0), c))
      (λ e.
        let ge : n.created_at ≤ m.created_at = ground (arith, e) in
        (
          insert_by_time-NotBefore n.created_at m ms ge c.0,
          insert_by_time-IsChronological m ms c.1,
        ))

sort_by_time-IsChronological : (ms : List BasebackupMeta) → IsChronological (sort_by_time ms)
unfolding sort_by_time
sort_by_time-IsChronological [] = tt
sort_by_time-IsChronological (m ∷ ms) =
    insert_by_time-IsChronological m (sort_by_time ms) (sort_by_time-IsChronological ms)

newest_last :
    (ms : List BasebackupMeta) (m : BasebackupMeta)
    → IsChronological ms
    → newest ms ≡ some m
    → All (λ (n : BasebackupMeta). n.created_at ≤ m.created_at) ms
newest_last [] m c h = tt
newest_last (n ∷ []) m c h = (last_le n m h, tt)
  where
    last_le : (n m : BasebackupMeta) → some n ≡ some m → n.created_at ≤ m.created_at
    last_le n m h =
        subst
          (λ (o : Option BasebackupMeta). elim o [
            | none ↦ Unit
            | some k ↦ n.created_at ≤ k.created_at
          ])
          h (omega arith)
newest_last (n ∷ k ∷ ms) m c h =
    let later : All (λ (n : BasebackupMeta). n.created_at ≤ m.created_at) (k ∷ ms) =
      newest_last (k ∷ ms) m c.1 h in
    (omega (arith, c.0.0, later.0), later)

list_basebackups-IsChronological :
    (op : Operator) (cluster : Text) (json : Json) (s : op.Store)
    → IsChronological (list_basebackups op cluster json s)
unfolding list_basebackups
list_basebackups-IsChronological op cluster json s =
    elim (Option-cases (op.list s (basebackup_prefix cluster))) [
      | inl e ↦ subst (λ o. IsChronological (listed o)) (sym e) tt
      | inr (es, e) ↦
          subst (λ o. IsChronological (listed o)) (sym e)
            (sort_by_time-IsChronological (read_entries op cluster json s es))
    ]
  where
    listed : Option (List Entry) → List BasebackupMeta
    listed o = elim o [
      | none ↦ []
      | some entries ↦ sort_by_time (read_entries op cluster json s entries)
    ]

-- Base backups are listed in the order of creation: none that is listed was created after the last one.
pub list_basebackups-newest :
    (op : Operator) (cluster : Text) (json : Json) (s : op.Store) (m : BasebackupMeta)
    → newest (list_basebackups op cluster json s) ≡ some m
    → All (λ (n : BasebackupMeta). n.created_at ≤ m.created_at) (list_basebackups op cluster json s)
list_basebackups-newest op cluster json s m h =
    newest_last (list_basebackups op cluster json s) m
      (list_basebackups-IsChronological op cluster json s) h
