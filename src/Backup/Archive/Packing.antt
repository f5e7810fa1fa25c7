-- ===== src/Backup/Archive/Packing.antt =====
-- The archives of backup/archive.rs: what `process_basebackup_archive` keeps, and what it learns.
use pgvisor.Prelude.{ℕ, Bool, ◌||◌, Option, none, some, List, [], ◌∷◌, ◌++◌, ◌==◌, if◌then◌else◌}
use pgvisor.Prelude.Texts.{Text, text, chars_key, trim}
use pgvisor.Prelude.Decimals.{decimal}
use pgvisor.Storage.Bytes.{Bytes}
use pgvisor.Backup.Manager.{BasebackupMeta, ends_with}
use pgvisor.Backup.Archive.{ParsedBackupLabel, parse_backup_label}

-- A member of an archive.
pub record Member : Type 0 where
  pub path : Text
  pub content : Bytes

-- The tar and gzip crates; reading and writing a text as UTF-8; the pretty JSON of the metadata; and the
-- printing of a time in a label.
pub record Tools : Type 0 where
  pub unpack : Bytes → Option (List Member)
  pub pack : List Member → Option Bytes
  pub from_utf8 : Bytes → Option Text
  pub to_utf8 : Text → Bytes
  pub to_vec_pretty : BasebackupMeta → Option Bytes
  pub format_time : ℕ → Text

-- A file of that name at the root or in a directory.
unfoldable pub is_named : Text → Text → Bool
is_named path name = path == name || ends_with path (47 ∷ name)

unfoldable pub or_old {ℓ} : {A : Type ℓ} → Option A → Option A → Option A
or_old none old = old
or_old (some a) old = some a

unfoldable pub unwrap_or {ℓ} : {A : Type ℓ} → A → Option A → A
unwrap_or a none = a
unwrap_or a (some b) = b

unfoldable pub enrich : BasebackupMeta → ParsedBackupLabel → BasebackupMeta
enrich meta parsed = record meta {
  timeline = or_old parsed.timeline meta.timeline;
  start_wal = unwrap_or meta.start_wal parsed.start_wal_file;
  start_lsn = or_old parsed.start_lsn meta.start_lsn;
  checkpoint_location = or_old parsed.checkpoint_location meta.checkpoint_location;
  backup_from = or_old parsed.backup_from meta.backup_from;
}

unfoldable pub with_id : BasebackupMeta → BasebackupMeta
with_id meta = record meta { backup_id = some meta.snapshot_id }

unfoldable pub metadata_member : Bytes → Member
metadata_member json = record { path = text "metadata.json"; content = json }

unfoldable pub or_text : Text → Option Text → Text
or_text fallback none = fallback
or_text fallback (some t) = t

unfoldable pub timeline_or_one : Option ℕ → ℕ
timeline_or_one none = 1
timeline_or_one (some tl) = tl

-- The members that the new archive gets, and the metadata.
unfoldable pub pass_on :
    Member → Option (BasebackupMeta × List Member) → Option (BasebackupMeta × List Member)
pass_on m none = none
pass_on m (some (meta, kept)) = some (meta, m ∷ kept)

module _ (tools : Tools) where
  -- The metadata after one member; `none` is an error.
  unfoldable pub learn_label : BasebackupMeta → Option Text → Option BasebackupMeta
  learn_label meta none = none
  learn_label meta (some content) = some (enrich meta (parse_backup_label content))

  unfoldable pub learn_version : BasebackupMeta → Option Text → Option BasebackupMeta
  learn_version meta none = none
  learn_version meta (some content) = some (record meta { pg_version = some (trim content) })

  unfoldable pub learn : BasebackupMeta → Member → Option BasebackupMeta
  learn meta m =
      if is_named m.path (text "backup_label")
      then learn_label meta (tools.from_utf8 m.content)
      else if is_named m.path (text "PG_VERSION")
      then learn_version meta (tools.from_utf8 m.content)
      else some meta

  unfoldable pub copy_members : BasebackupMeta → List Member → Option (BasebackupMeta × List Member)
  copy_members meta [] = some (meta, [])
  copy_members meta (m ∷ ms) =
      let skipped = copy_members meta ms in
      let copied : Option (BasebackupMeta × List Member) = elim (learn meta m) [
        | none ↦ none
        | some meta' ↦ pass_on m (copy_members meta' ms)
      ] in
      if is_named m.path (text "backup_label.old") then skipped else copied

  unfoldable pub finish :
      BasebackupMeta → List Member → Option Bytes → Option (BasebackupMeta × Bytes)
  finish meta kept none = none
  finish meta kept (some json) = elim (tools.pack (kept ++ metadata_member json ∷ [])) [
    | none ↦ none
    | some bytes ↦ some (meta, bytes)
  ]

  unfoldable pub finish_copy :
      Option (BasebackupMeta × List Member) → Option (BasebackupMeta × Bytes)
  finish_copy none = none
  finish_copy (some (meta, kept)) = finish meta kept (tools.to_vec_pretty meta)

  -- The metadata and the new archive; `none` is an error.
  unfoldable pub process_basebackup_archive :
      Bytes → BasebackupMeta → Option (BasebackupMeta × Bytes)
  process_basebackup_archive archive meta = elim (tools.unpack archive) [
    | none ↦ none
    | some members ↦ finish_copy (copy_members (with_id meta) members)
  ]

  unfoldable pub label_content : BasebackupMeta → Text
  label_content meta =
      text "START WAL LOCATION: 0/3000028 (file "
      ++ meta.start_wal
      ++ text ")\nCHECKPOINT LOCATION: 0/3000080\nBACKUP METHOD: simulated\nBACKUP FROM: "
      ++ or_text (text "primary") meta.source_node
      ++ text "\nSTART TIME: "
      ++ tools.format_time meta.created_at
      ++ text "\nLABEL: "
      ++ or_text (text "simulated backup") meta.label
      ++ text "\nSTART TIMELINE: "
      ++ decimal (timeline_or_one meta.timeline)
      ++ text "\n"

  unfoldable pub create_simulated_basebackup : BasebackupMeta → Option (BasebackupMeta × Bytes)
  create_simulated_basebackup meta =
      let label : Member = record {
        path = text "backup_label";
        content = tools.to_utf8 (label_content (with_id meta));
      } in
      finish (with_id meta) (label ∷ []) (tools.to_vec_pretty (with_id meta))
