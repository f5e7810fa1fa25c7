-- ===== src/Backup/Manager/Prune.antt =====
-- `prune_retention` of backup/manager.rs: what to delete, and the deletion.
use pgvisor.Prelude.{
  ℕ, ◌*◌, ◌-◌, Bool, true, false, ◌&&◌, ◌||◌, Option, none, some, List, [], ◌∷◌, eqb, ltb, leb,
  length, take, is_empty, contains, ◌==◌, if◌then◌else◌,
}
use pgvisor.Prelude.Texts.{Text, chars_key}
use pgvisor.Backup.Store.{Operator, Entry}
use pgvisor.Backup.Manager.{BasebackupMeta, Json, wal_prefix, delete_basebackup, list_basebackups}

-- The set of ids to delete, as a list without duplicates.
unfoldable pub insert_id : Text → List Text → List Text
insert_id id ids = if contains ids id then ids else id ∷ ids

unfoldable pub remove_id : Text → List Text → List Text
remove_id id [] = []
remove_id id (j ∷ ids) = let rest = remove_id id ids in if j == id then rest else j ∷ rest

unfoldable pub insert_older : ℕ → List BasebackupMeta → List Text → List Text
insert_older cutoff [] ids = ids
insert_older cutoff (m ∷ ms) ids =
    insert_older cutoff ms (if ltb m.created_at cutoff then insert_id m.snapshot_id ids else ids)

unfoldable pub insert_all : List BasebackupMeta → List Text → List Text
insert_all [] ids = ids
insert_all (m ∷ ms) ids = insert_all ms (insert_id m.snapshot_id ids)

abbrev pub nanoseconds_per_day : ℕ
nanoseconds_per_day = 86400 * 1000000000

-- `none` is the panic of chrono's subtraction below the earliest time.
unfoldable pub by_time : Option ℕ → ℕ → List BasebackupMeta → Option (List Text)
by_time none now ms = some []
by_time (some days) now ms =
    if eqb days 0
    then some []
    else if ltb now (days * nanoseconds_per_day)
    then none
    else some (insert_older (now - days * nanoseconds_per_day) (take (length ms - 1) ms) [])

unfoldable pub by_count : Option ℕ → List BasebackupMeta → List Text → List Text
by_count none ms ids = ids
by_count (some limit) ms ids =
    if ltb 0 limit && ltb limit (length ms)
    then insert_all (take (length ms - limit) ms) ids
    else ids

unfoldable pub without_newest : List BasebackupMeta → List Text → List Text
without_newest [] ids = ids
without_newest (m ∷ []) ids = remove_id m.snapshot_id ids
without_newest (m ∷ n ∷ ms) ids = without_newest (n ∷ ms) ids

unfoldable pub ids_to_delete : Option ℕ → Option ℕ → ℕ → List BasebackupMeta → Option (List Text)
ids_to_delete keep days now ms = elim (by_time days now ms) [
  | none ↦ none
  | some ids ↦ some (without_newest ms (by_count keep ms ids))
]

unfoldable pub retained : List Text → List BasebackupMeta → List BasebackupMeta
retained ids [] = []
retained ids (m ∷ ms) =
    let rest = retained ids ms in if contains ids m.snapshot_id then rest else m ∷ rest

-- `<` of two `str`
unfoldable pub is_before : Text → Text → Bool
is_before s [] = false
is_before [] (d ∷ t) = true
is_before (c ∷ s) (d ∷ t) = ltb c d || (eqb c d && is_before s t)

pub data Pruned (Store : Type 0) : Type 0 where
  panicked : Pruned Store
  pruned : Store → ℕ → Pruned Store

module _ (op : Operator) (cluster : Text) where
  unfoldable pub delete_all : op.Store → List Text → op.Store
  delete_all s [] = s
  delete_all s (id ∷ ids) = delete_all (delete_basebackup op cluster s id) ids

  unfoldable pub delete_before : op.Store → Text → List Entry → op.Store
  delete_before s start [] = s
  delete_before s start (e ∷ es) =
      delete_before (if is_before e.name start then op.delete s e.path else s) start es

  unfoldable pub prune_wal : op.Store → List BasebackupMeta → op.Store
  prune_wal s [] = s
  prune_wal s (oldest ∷ ms) = elim (op.list s (wal_prefix cluster)) [
    | none ↦ s
    | some entries ↦ delete_before s oldest.start_wal entries
  ]

  unfoldable pub prune_ids : op.Store → List BasebackupMeta → List Text → Pruned op.Store
  prune_ids s ms ids =
      if is_empty ids
      then pruned s 0
      else pruned (prune_wal (delete_all s ids) (retained ids ms)) (length ids)

  unfoldable pub prune_snapshots :
      Option ℕ → Option ℕ → ℕ → op.Store → List BasebackupMeta → Pruned op.Store
  prune_snapshots keep days now s ms =
      if leb (length ms) 1
      then pruned s 0
      else elim (ids_to_delete keep days now ms) [ none ↦ panicked | some ids ↦ prune_ids s ms ids ]

  unfoldable pub prune_retention : Json → op.Store → Option ℕ → Option ℕ → ℕ → Pruned op.Store
  prune_retention json s keep days now =
      prune_snapshots keep days now s (list_basebackups op cluster json s)
