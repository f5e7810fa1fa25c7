-- ===== src/Backup/Manager/Examples.antt =====
-- A bucket with three base backups and two WAL segments.
use pgvisor.Prelude.{
  ◌≡◌, ◌≢◌, refl, sym, ap, ◌∙◌, subst, ℕ, ◌*◌, false, none, some, List, [], ◌∷◌, ◌++◌, All, length,
  ◌≤◌, arith,
}
use pgvisor.Prelude.Texts.{Text, text, chars_key}
use pgvisor.Backup.Fixtures.{Bucket, get, bucket, bucket-IsObjectStore}
use pgvisor.Backup.Manager.{
  full, BasebackupMeta, new, Json, wal_prefix, basebackup_prefix, tar_key, meta_key,
  list_basebackups, ends_with, insert_by_time, sort_by_time, parse_entry, read_entries,
  delete_basebackup,
}
use pgvisor.Backup.Manager.Prune.{
  insert_id, remove_id, insert_older, insert_all, nanoseconds_per_day, by_time, by_count,
  without_newest, ids_to_delete, retained, is_before, pruned, delete_all, delete_before, prune_wal,
  prune_ids, prune_snapshots, prune_retention,
}
use pgvisor.Backup.Manager.Retention.{prune_retention-keeps_newest, prune_retention-keeps_wal}
use pgvisor.Backup.Manager.Limit.{ids_to_delete-within_limit}
use pgvisor.Backup.Manager.Order.{newest}

-- A codec that knows three snapshots.
abbrev snapshot : ℕ → BasebackupMeta
snapshot n = new (n ∷ []) (n * nanoseconds_per_day) full (text "0" ++ (n ∷ [])) 3

abbrev codec : Json
codec = record {
  to_vec = λ m. some m.snapshot_id;
  from_slice = λ bytes. elim bytes [ [] ↦ none | n ∷ rest ↦ some (snapshot n) ];
}

abbrev three : Bucket
three =
    (tar_key [] (50 ∷ []), 7 ∷ [])
    ∷ (meta_key [] (50 ∷ []), 50 ∷ [])
    ∷ (wal_prefix [] ++ text "02", 8 ∷ [])
    ∷ (wal_prefix [] ++ text "00", 9 ∷ [])
    ∷ (meta_key [] (51 ∷ []), 51 ∷ [])
    ∷ (meta_key [] (49 ∷ []), 49 ∷ [])
    ∷ []

abbrev listed : List BasebackupMeta
listed = snapshot 49 ∷ snapshot 50 ∷ snapshot 51 ∷ []

three-listed : list_basebackups bucket [] codec three ≡ listed
unfolding list_basebackups read_entries parse_entry sort_by_time insert_by_time ends_with
    basebackup_prefix meta_key tar_key wal_prefix new
three-listed = refl

abbrev two_left : Bucket
two_left =
    (tar_key [] (50 ∷ []), 7 ∷ [])
    ∷ (meta_key [] (50 ∷ []), 50 ∷ [])
    ∷ (wal_prefix [] ++ text "02", 8 ∷ [])
    ∷ (meta_key [] (51 ∷ []), 51 ∷ [])
    ∷ []

three-pruned :
    prune_retention bucket [] codec three (some 2) (some 9) (59 * nanoseconds_per_day)
    ≡ pruned two_left 1
unfolding prune_retention prune_snapshots prune_ids prune_wal delete_before delete_all
    delete_basebackup retained is_before ids_to_delete by_time by_count insert_older insert_all
    insert_id remove_id without_newest list_basebackups read_entries parse_entry sort_by_time
    insert_by_time ends_with basebackup_prefix meta_key tar_key wal_prefix new
three-pruned = refl

prune_retention-keeps_newest_example :
    All
      (λ (n : BasebackupMeta). n.created_at ≤ 51 * nanoseconds_per_day)
      (list_basebackups bucket [] codec three)
    × (get two_left (tar_key [] (51 ∷ [])) ≡ get three (tar_key [] (51 ∷ [])))
    × (get two_left (meta_key [] (51 ∷ [])) ≡ get three (meta_key [] (51 ∷ [])))
unfolding new
prune_retention-keeps_newest_example =
    prune_retention-keeps_newest bucket bucket-IsObjectStore [] codec (some 2) (some 9)
      (59 * nanoseconds_per_day) three two_left 1 (snapshot 51) (ap newest three-listed)
      three-pruned

prune_retention-keeps_wal_example :
    get two_left (wal_prefix [] ++ text "02") ≡ get three (wal_prefix [] ++ text "02")
unfolding ids_to_delete by_time by_count insert_older insert_all insert_id remove_id without_newest
    retained is_before new
prune_retention-keeps_wal_example =
    prune_retention-keeps_wal bucket bucket-IsObjectStore [] codec (some 2) (some 9)
      (59 * nanoseconds_per_day) three two_left 1 (text "02")
      (λ ids oldest rest e g.
        first_kept oldest rest (
          ap (λ i. retained i listed) (ids_known ids e) ∙ ap (retained ids) (sym three-listed) ∙ g))
      three-pruned
  where
    ids_known :
        (ids : List Text)
        → ids_to_delete
            (some 2)
            (some 9)
            (59 * nanoseconds_per_day)
            (list_basebackups bucket [] codec three)
          ≡ some ids
        → (49 ∷ []) ∷ [] ≡ ids
    ids_known ids e =
        ap (λ o. elim o [ none ↦ [] | some l ↦ l ])
          (ap (ids_to_delete (some 2) (some 9) (59 * nanoseconds_per_day)) (sym three-listed) ∙ e)

    first_kept :
        (oldest : BasebackupMeta) (rest : List BasebackupMeta)
        → retained ((49 ∷ []) ∷ []) listed ≡ oldest ∷ rest
        → is_before (text "02") oldest.start_wal ≡ false
    first_kept oldest rest h =
        subst (λ l. elim l [ [] ↦ Unit | m ∷ ms ↦ is_before (text "02") m.start_wal ≡ false ]) h
          refl

ids_to_delete-within_limit_example : length (retained ((49 ∷ []) ∷ []) listed) ≤ 2
unfolding ids_to_delete by_time by_count insert_older insert_all insert_id remove_id without_newest
    new
ids_to_delete-within_limit_example =
    ids_to_delete-within_limit 2 none 0 listed ((49 ∷ []) ∷ []) (omega arith)
      (
        (apart 49 50 (omega arith), (apart 49 51 (omega arith), tt)),
        ((apart 50 51 (omega arith), tt), (tt, tt)),
      )
      refl
  where
    apart : (a b : ℕ) → a ≢ b → (a ∷ []) ≢ (b ∷ [])
    apart a b h e = h (ap (λ (l : Text). elim l [ [] ↦ 0 | x ∷ xs ↦ x ]) e)
