-- ===== src/Backup/Manager/Deletion.antt =====
-- The keys that the deletions of backup/manager.rs leave alone.
use pgvisor.Prelude.{
  ◌≡◌, ◌≢◌, refl, sym, ap, ◌∙◌, ℕ, true, false, Option, none, some, List, [], ◌∷◌, ◌++◌, leb,
  length, is_empty, contains, if◌then◌else◌, if_elim, Option-cases, All, inl, inr, arith,
}
use pgvisor.Prelude.Texts.{Text, chars_key, same_text_refl}
use pgvisor.Backup.Store.{Operator, Entry, IsObjectStore}
use pgvisor.Backup.Manager.{
  BasebackupMeta, wal_prefix, basebackup_prefix, tar_key, meta_key, delete_basebackup,
}
use pgvisor.Backup.Manager.Prune.{
  ids_to_delete, retained, is_before, Pruned, panicked, pruned, delete_all, delete_before,
  prune_wal, prune_ids, prune_snapshots,
}
use mathlib.Core.List.{append_cancel_left}
use pgvisor.Backup.Manager.Keys.{wal-basebackup}

module _ (op : Operator) (law : IsObjectStore op) (cluster : Text) where
  pub delete_basebackup-read :
      (s : op.Store) (id k : Text)
      → k ≢ tar_key cluster id
      → k ≢ meta_key cluster id
      → op.read (delete_basebackup op cluster s id) k ≡ op.read s k
  unfolding delete_basebackup
  delete_basebackup-read s id k a b =
      law.read-delete_other (op.delete s (tar_key cluster id)) (meta_key cluster id) k b
      ∙ law.read-delete_other s (tar_key cluster id) k a

  pub delete_all-read :
      (s : op.Store) (ids : List Text) (k : Text)
      → ((i : Text) → contains ids i ≡ true → k ≢ tar_key cluster i)
      → ((i : Text) → contains ids i ≡ true → k ≢ meta_key cluster i)
      → op.read (delete_all op cluster s ids) k ≡ op.read s k
  unfolding delete_all
  delete_all-read s [] k a b = refl
  delete_all-read s (id ∷ ids) k a b =
      let here : contains (id ∷ ids) id ≡ true = ground (arith, same_text_refl id) in
      delete_all-read (delete_basebackup op cluster s id) ids k (λ i e. a i (ground (arith, e)))
        (λ i e. b i (ground (arith, e)))
      ∙ delete_basebackup-read s id k (a id here) (b id here)

  delete_before-read :
      (s : op.Store) (start k : Text) (es : List Entry)
      → All (λ (e : Entry). is_before e.name start ≡ true → k ≢ e.path) es
      → op.read (delete_before op cluster s start es) k ≡ op.read s k
  unfolding delete_before
  delete_before-read s start k [] a = refl
  delete_before-read s start k (e ∷ es) a =
      delete_before-read (if is_before e.name start then op.delete s e.path else s) start k es a.1
      ∙ if_elim (λ (s' : op.Store). op.read s' k ≡ op.read s k) (is_before e.name start)
          (λ b. law.read-delete_other s e.path k (a.0 b)) (λ b. refl)

  -- Keys of base backups stay when WAL is pruned, and so does WAL from the first start on.
  pub base_apart :
      (x start : Text) (es : List Entry)
      → All (λ (e : Entry). e.path ≡ wal_prefix cluster ++ e.name) es
      → All
          (λ (e : Entry). is_before e.name start ≡ true → basebackup_prefix cluster ++ x ≢ e.path)
          es
  base_apart x start [] a = tt
  base_apart x start (e ∷ es) a =
      ((λ b h. wal-basebackup cluster x e.name (h ∙ a.0)), base_apart x start es a.1)

  pub wal_apart :
      (name start : Text) (es : List Entry)
      → is_before name start ≡ false
      → All (λ (e : Entry). e.path ≡ wal_prefix cluster ++ e.name) es
      → All (λ (e : Entry). is_before e.name start ≡ true → wal_prefix cluster ++ name ≢ e.path) es
  wal_apart name start [] h a = tt
  wal_apart name start (e ∷ es) h a = (
    (λ b g.
        let same : name ≡ e.name = append_cancel_left (wal_prefix cluster) name e.name (g ∙ a.0) in
        absurd (ground (arith, sym h ∙ ap (λ n. is_before n start) same ∙ b))),
    wal_apart name start es h a.1,
  )

  pub prune_wal-read :
      (s : op.Store) (k : Text) (ms : List BasebackupMeta)
      → ((m : BasebackupMeta) (rest : List BasebackupMeta) (es : List Entry)
          → ms ≡ m ∷ rest
          → All (λ (e : Entry). e.path ≡ wal_prefix cluster ++ e.name) es
          → All (λ (e : Entry). is_before e.name m.start_wal ≡ true → k ≢ e.path) es)
      → op.read (prune_wal op cluster s ms) k ≡ op.read s k
  unfolding prune_wal
  prune_wal-read s k [] a = refl
  prune_wal-read s k (m ∷ rest) a = elim (Option-cases (op.list s (wal_prefix cluster))) [
    | inl e ↦ ap (λ o. op.read (after o) k) e
    | inr (es, e) ↦
        ap (λ o. op.read (after o) k) e
        ∙ delete_before-read s m.start_wal k es
            (a m rest es refl (law.list-path s (wal_prefix cluster) es e))
  ]
    where
      after : Option (List Entry) → op.Store
      after o = elim o [ none ↦ s | some entries ↦ delete_before op cluster s m.start_wal entries ]

  -- What pruning leaves of the keys that neither step deletes.
  pub prune_snapshots-read :
      (keep days : Option ℕ) (now : ℕ) (s s' : op.Store) (ms : List BasebackupMeta) (count : ℕ)
      (k : Text)
      → prune_snapshots op cluster keep days now s ms ≡ pruned s' count
      → ((ids : List Text)
          → ids_to_delete keep days now ms ≡ some ids
          → op.read (prune_wal op cluster (delete_all op cluster s ids) (retained ids ms)) k
            ≡ op.read s k)
      → op.read s' k ≡ op.read s k
  unfolding prune_snapshots prune_ids
  prune_snapshots-read keep days now s s' ms count k h a =
      if_elim (λ (r : Pruned op.Store). r ≡ pruned s' count → op.read s' k ≡ op.read s k)
        (leb (length ms) 1) (λ e g. ap (λ (x : op.Store). op.read x k) (sym (store_after g)))
        (λ e. elim (Option-cases (ids_to_delete keep days now ms)) [
          | inl none_left ↦ λ g. absurd (ground (arith, none_left, g))
          | inr (ids, e) ↦ λ g.
              if_elim (λ (r : Pruned op.Store). r ≡ pruned s' count → op.read s' k ≡ op.read s k)
                (is_empty ids) (λ e g. ap (λ (x : op.Store). op.read x k) (sym (store_after g)))
                (λ b g. ap (λ (x : op.Store). op.read x k) (sym (store_after g)) ∙ a ids e)
                (ap (λ o. outcome o) (sym e) ∙ g)
        ])
        h
    where
      outcome : Option (List Text) → Pruned op.Store
      outcome o = elim o [ none ↦ panicked | some ids ↦ prune_ids op cluster s ms ids ]

      store_of : Pruned op.Store → op.Store
      store_of panicked = s
      store_of (pruned x n) = x

      store_after : {x y : op.Store} {m n : ℕ} → pruned x m ≡ pruned y n → x ≡ y
      store_after g = ap store_of g
