-- ===== src/Backup/Manager/RoundTrip.antt =====
-- What is stored by backup/manager.rs is what it gives back.
use pgvisor.Prelude.{
  ◌≡◌, ◌++◌, if◌then◌else◌, refl, sym, ap, ◌∙◌, Bool, true, false, Option, none, some, if_elim,
  arith,
}
use pgvisor.Prelude.Texts.{Text}
use pgvisor.Storage.Bytes.{Bytes}
use pgvisor.Backup.Store.{Operator, Written, found, IsObjectStore}
use pgvisor.Backup.Manager.{
  Result, ok, err, open_dal, BasebackupMeta, Json, tar_key, meta_key, enriched, save_json,
  save_meta, save_basebackup, download, read_meta, get_basebackup, read_snapshot, read_tar,
  archive_wal, restore_wal, wal_prefix,
}
use pgvisor.Backup.Manager.Keys.{tar_key-meta_key}

-- The codec reads back what it writes of some metadata.
abbrev pub ReadsBack : Json → BasebackupMeta → Type 0
ReadsBack json m = (bytes : Bytes) → json.to_vec m ≡ some bytes → json.from_slice bytes ≡ some m

succeeds : (b : Bool) → (if b then ok tt else err open_dal) ≡ ok tt → b ≡ true
succeeds true h = refl
succeeds false h = absurd (ground (arith, h))

module _ (op : Operator) (law : IsObjectStore op) (cluster : Text) (json : Json) where
  get_basebackup-after :
      (s : op.Store) (m n : BasebackupMeta) (bytes tar : Bytes)
      → op.read s (meta_key cluster m.snapshot_id) ≡ found bytes
      → json.from_slice bytes ≡ some n
      → op.read s (tar_key cluster m.snapshot_id) ≡ found tar
      → get_basebackup op cluster json s m.snapshot_id ≡ ok (n, tar)
  unfolding get_basebackup read_meta read_snapshot read_tar
  get_basebackup-after s m n bytes tar a b c =
      ap
        (λ r. read_meta op cluster json m.snapshot_id r (op.read s (tar_key cluster m.snapshot_id)))
        a
      ∙ ap
          (λ r.
            read_snapshot op cluster json m.snapshot_id r
              (op.read s (tar_key cluster m.snapshot_id)))
          b
      ∙ ap (read_tar op cluster json m.snapshot_id n) c

  save_json-get :
      (s : op.Store) (m n : BasebackupMeta) (tar : Bytes) (o : Option Bytes)
      → ReadsBack json n
      → op.read s (tar_key cluster m.snapshot_id) ≡ found tar
      → json.to_vec n ≡ o
      → (save_json op cluster json m s o).1 ≡ ok tt
      → get_basebackup op cluster json (save_json op cluster json m s o).0 m.snapshot_id
        ≡ ok (n, tar)
  unfolding save_json
  save_json-get s m n tar none codec a c h = absurd (ground (arith, h))
  save_json-get s m n tar (some bytes) codec a c h =
      let key : Text = meta_key cluster m.snapshot_id in
      let done : (op.write s key bytes).is_ok ≡ true = succeeds (op.write s key bytes).is_ok h in
      get_basebackup-after (op.write s key bytes).store m n bytes tar
        (law.read-write s key bytes done) (codec bytes c)
        (law.read-write_other s key (tar_key cluster m.snapshot_id) bytes
            (tar_key-meta_key cluster m.snapshot_id m.snapshot_id)
          ∙ a)

  save_meta-get :
      (first : Written op.Store) (m : BasebackupMeta) (tar : Bytes)
      → ReadsBack json (enriched m)
      → (first.is_ok ≡ true → op.read first.store (tar_key cluster m.snapshot_id) ≡ found tar)
      → (save_meta op cluster json m first).1 ≡ ok tt
      → get_basebackup op cluster json (save_meta op cluster json m first).0 m.snapshot_id
        ≡ ok (enriched m, tar)
  unfolding save_meta
  save_meta-get first m tar codec a =
      if_elim
        (λ (p : op.Store × Result Unit).
          p.1 ≡ ok tt → get_basebackup op cluster json p.0 m.snapshot_id ≡ ok (enriched m, tar))
        first.is_ok
        (λ e.
          save_json-get first.store m (enriched m) tar (json.to_vec (enriched m)) codec (a e) refl)
        (λ e h. absurd (ground (arith, h)))

  -- Over an object store and a codec that reads back what it writes of the metadata, a base backup whose upload is reported as done is read
  -- back by its id with its archive's bytes and its metadata, which then has a backup id.
  pub get_basebackup-save_basebackup :
      (s : op.Store) (m : BasebackupMeta) (tar : Bytes)
      → ReadsBack json (enriched m)
      → (save_basebackup op cluster json s m tar).1 ≡ ok tt
      → get_basebackup op cluster json (save_basebackup op cluster json s m tar).0 m.snapshot_id
        ≡ ok (enriched m, tar)
  unfolding save_basebackup
  get_basebackup-save_basebackup s m tar codec =
      save_meta-get (op.write s (tar_key cluster m.snapshot_id) tar) m tar codec
        (λ e. law.read-write s (tar_key cluster m.snapshot_id) tar e)

download-found :
    (written : Bytes → Bool) (bytes : Bytes) (o : Option Bool) (got : Option Bytes)
    → ((b : Bool) → o ≡ some b → b ≡ true)
    → download written o (found bytes) ≡ ok got
    → got ≡ some bytes
unfolding download
download-found written bytes none got a h = absurd (ground (arith, h))
download-found written bytes (some false) got a h = absurd (ground (arith, a false refl))
download-found written bytes (some true) got a h =
    if_elim (λ (r : Result (Option Bytes)). r ≡ ok got → got ≡ some bytes) (written bytes)
      (λ e h. sym (ok_injective h)) (λ e h. absurd (ground (arith, h))) h
  where
    contents : Result (Option Bytes) → Option Bytes
    contents (ok x) = x
    contents (err e) = none

    ok_injective : {x y : Option Bytes} → ok x ≡ ok y → x ≡ y
    ok_injective h = ap contents h

module _ (op : Operator) (law : IsObjectStore op) (cluster : Text) where
  -- Over an object store that works, a WAL segment whose archiving is reported as done is restored with
  -- the bytes that were archived; recovery is never told that it does not exist.
  pub restore_wal-archive_wal :
      (s : op.Store) (buffer : Bytes) (name : Text) (written : Bytes → Bool) (got : Option Bytes)
      → (archive_wal op cluster s (some buffer) name).1 ≡ ok tt
      → restore_wal op cluster (archive_wal op cluster s (some buffer) name).0 written name ≡ ok got
      → got ≡ some buffer
  unfolding archive_wal restore_wal
  restore_wal-archive_wal s buffer name written got h r =
      let key : Text = wal_prefix cluster ++ name in
      let s' : op.Store = (op.write s key buffer).store in
      let there : op.read s' key ≡ found buffer =
        law.read-write s key buffer (succeeds (op.write s key buffer).is_ok h) in
      download-found written buffer (op.exists s' key) got
        (λ b. law.exists-read s' key buffer b there)
        (ap (download written (op.exists s' key)) (sym there) ∙ r)
