-- ===== src/Backup/Manager/Retention.antt =====
-- What `prune_retention` of backup/manager.rs keeps.
use pgvisor.Prelude.{
  ◌≡◌, ◌≢◌, refl, sym, ap, ◌∙◌, subst, ℕ, true, false, Option, none, some, List, [], ◌∷◌, ◌++◌,
  contains, ◌==◌, if◌then◌else◌, Bool-cases, Option-cases, All, ◌≤◌, inl, inr, arith,
}
use pgvisor.Prelude.Texts.{Text, text, chars_key}
use pgvisor.Backup.Store.{Operator, IsObjectStore}
use pgvisor.Backup.Manager.{BasebackupMeta, Json, wal_prefix, tar_key, meta_key, list_basebackups}
use pgvisor.Backup.Manager.Prune.{
  remove_id, by_time, by_count, without_newest, ids_to_delete, retained, is_before, pruned,
  delete_all, prune_snapshots, prune_retention,
}
use pgvisor.Backup.Manager.Order.{newest, list_basebackups-newest}
use pgvisor.Backup.Manager.Deletion.{
  delete_all-read, base_apart, wal_apart, prune_wal-read, prune_snapshots-read,
}
use pgvisor.Backup.Manager.Keys.{
  tar_key-differs, meta_key-differs, tar_key-meta_key, tar_key-wal, meta_key-wal,
}

pub remove_id-contains : (id : Text) (ids : List Text) → contains (remove_id id ids) id ≡ false
unfolding remove_id
remove_id-contains id [] = refl
remove_id-contains id (j ∷ ids) = elim (Bool-cases (j == id)) [
  | inl e ↦
      ap (λ b. contains (if b then remove_id id ids else j ∷ remove_id id ids) id) e
      ∙ remove_id-contains id ids
  | inr e ↦
      ap (λ b. contains (if b then remove_id id ids else j ∷ remove_id id ids) id) e
      ∙ ground (arith, e, remove_id-contains id ids)
]

without_newest-contains :
    (ms : List BasebackupMeta) (ids : List Text) (m : BasebackupMeta)
    → newest ms ≡ some m
    → contains (without_newest ms ids) m.snapshot_id ≡ false
unfolding without_newest
without_newest-contains [] ids m h = absurd (ground (arith, h))
without_newest-contains (n ∷ []) ids m h =
    subst
      (λ (x : Option BasebackupMeta). elim x [
        | none ↦ Unit
        | some k ↦ contains (remove_id n.snapshot_id ids) k.snapshot_id ≡ false
      ])
      h (remove_id-contains n.snapshot_id ids)
without_newest-contains (n ∷ k ∷ ms) ids m h = without_newest-contains (k ∷ ms) ids m h

pub newest_kept :
    (keep days : Option ℕ) (now : ℕ) (ms : List BasebackupMeta) (m : BasebackupMeta)
    → newest ms ≡ some m
    → (ids : List Text) → ids_to_delete keep days now ms ≡ some ids
    → contains ids m.snapshot_id ≡ false
unfolding ids_to_delete
newest_kept keep days now ms m last ids h = elim (Option-cases (by_time days now ms)) [
  | inl e ↦ absurd (ground (arith, e, h))
  | inr (old, e) ↦
      let same : some (without_newest ms (by_count keep ms old)) ≡ some ids =
        ap result (sym e) ∙ h in
      subst
        (λ (x : Option (List Text)). elim x [
          | none ↦ Unit
          | some k ↦ contains k m.snapshot_id ≡ false
        ])
        same (without_newest-contains ms (by_count keep ms old) m last)
]
  where
    result : Option (List Text) → Option (List Text)
    result o = elim o [ none ↦ none | some old ↦ some (without_newest ms (by_count keep ms old)) ]

module _ (op : Operator) (law : IsObjectStore op) (cluster : Text) where
  -- A base backup whose id is not to be deleted stays readable.
  kept_snapshot :
      (keep days : Option ℕ) (now : ℕ) (s s' : op.Store) (ms : List BasebackupMeta) (count : ℕ)
      (id : Text)
      → prune_snapshots op cluster keep days now s ms ≡ pruned s' count
      → ((ids : List Text) → ids_to_delete keep days now ms ≡ some ids → contains ids id ≡ false)
      → (op.read s' (tar_key cluster id) ≡ op.read s (tar_key cluster id))
        × (op.read s' (meta_key cluster id) ≡ op.read s (meta_key cluster id))
  unfolding tar_key meta_key
  kept_snapshot keep days now s s' ms count id h a =
      let other : (ids : List Text)
          → ids_to_delete keep days now ms ≡ some ids
          → (i : Text) → contains ids i ≡ true
          → id ≢ i =
        λ ids e i c g. absurd (ground (arith, sym (a ids e) ∙ ap (contains ids) g ∙ c)) in
      (
        prune_snapshots-read op law cluster keep days now s s' ms count (tar_key cluster id) h
            (λ ids e.
              prune_wal-read op law cluster (delete_all op cluster s ids) (tar_key cluster id)
                (retained ids ms)
                (λ m rest es g. base_apart op law cluster (id ++ text ".tar.gz") m.start_wal es)
              ∙ delete_all-read op law cluster s ids (tar_key cluster id)
                  (λ i c. tar_key-differs cluster id i (other ids e i c))
                  (λ i c. tar_key-meta_key cluster id i)),
        prune_snapshots-read op law cluster keep days now s s' ms count (meta_key cluster id) h
            (λ ids e.
              prune_wal-read op law cluster (delete_all op cluster s ids) (meta_key cluster id)
                (retained ids ms)
                (λ m rest es g. base_apart op law cluster (id ++ text ".json") m.start_wal es)
              ∙ delete_all-read op law cluster s ids (meta_key cluster id)
                  (λ i c g. tar_key-meta_key cluster i id (sym g))
                  (λ i c. meta_key-differs cluster id i (other ids e i c))),
      )

  -- Over an object store that works, whatever the count and the window, pruning leaves the archive and
  -- the metadata of the snapshot that is listed last as they were, and no listed snapshot was created
  -- after that one.
  pub prune_retention-keeps_newest :
      (json : Json) (keep days : Option ℕ) (now : ℕ) (s s' : op.Store) (count : ℕ)
      (m : BasebackupMeta)
      → newest (list_basebackups op cluster json s) ≡ some m
      → prune_retention op cluster json s keep days now ≡ pruned s' count
      → All
          (λ (n : BasebackupMeta). n.created_at ≤ m.created_at)
          (list_basebackups op cluster json s)
        × (op.read s' (tar_key cluster m.snapshot_id) ≡ op.read s (tar_key cluster m.snapshot_id))
        × (op.read s' (meta_key cluster m.snapshot_id) ≡ op.read s (meta_key cluster m.snapshot_id))
  unfolding prune_retention
  prune_retention-keeps_newest json keep days now s s' count m last h =
      let kept : (op.read s' (tar_key cluster m.snapshot_id)
            ≡ op.read s (tar_key cluster m.snapshot_id))
          × (op.read s' (meta_key cluster m.snapshot_id)
              ≡ op.read s (meta_key cluster m.snapshot_id)) =
        kept_snapshot keep days now s s' (list_basebackups op cluster json s) count m.snapshot_id h
          (newest_kept keep days now (list_basebackups op cluster json s) m last) in
      (list_basebackups-newest op cluster json s m last, kept.0, kept.1)

  -- Over an object store that works, pruning leaves every WAL file whose name is not before the first
  -- segment of the oldest snapshot it retains as it was.
  pub prune_retention-keeps_wal :
      (json : Json) (keep days : Option ℕ) (now : ℕ) (s s' : op.Store) (count : ℕ) (name : Text)
      → ((ids : List Text) (oldest : BasebackupMeta) (rest : List BasebackupMeta)
          → ids_to_delete keep days now (list_basebackups op cluster json s) ≡ some ids
          → retained ids (list_basebackups op cluster json s) ≡ oldest ∷ rest
          → is_before name oldest.start_wal ≡ false)
      → prune_retention op cluster json s keep days now ≡ pruned s' count
      → op.read s' (wal_prefix cluster ++ name) ≡ op.read s (wal_prefix cluster ++ name)
  unfolding prune_retention
  prune_retention-keeps_wal json keep days now s s' count name above h =
      let ms : List BasebackupMeta = list_basebackups op cluster json s in
      let key : Text = wal_prefix cluster ++ name in
      prune_snapshots-read op law cluster keep days now s s' ms count key h (λ ids e.
        prune_wal-read op law cluster (delete_all op cluster s ids) key (retained ids ms)
          (λ m rest es g. wal_apart op law cluster name m.start_wal es (above ids m rest e g))
        ∙ delete_all-read op law cluster s ids key (λ i c g. tar_key-wal cluster i name (sym g))
            (λ i c g. meta_key-wal cluster i name (sym g)))
