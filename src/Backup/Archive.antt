-- ===== src/Backup/Archive.antt =====
-- backup/archive.rs: snapshot ids, backup labels, and the archives. The tar and gzip crates, the JSON of
-- the metadata and the printing of times are parameters.
pub mod Packing
pub mod Contents
mod Examples
use pgvisor.Prelude.{
  ℕ, ◌^◌, Bool, true, false, ◌&&◌, ◌||◌, Option, none, some, List, [], ◌∷◌, ◌++◌, map, eqb, leb,
  is_empty, ◌==◌, if◌then◌else◌,
}
use pgvisor.Prelude.Texts.{Text, text, chars_key, trim, split_lines, strip_prefix}
use pgvisor.Prelude.Decimals.{decimal}
use pgvisor.Storage.Bytes.{Bytes}
use pgvisor.Backup.Config.{parse_number}
use pgvisor.Backup.Manager.{BasebackupMeta, ends_with}

unfoldable pub is_alphanumeric : ℕ → Bool
is_alphanumeric c = (leb 48 c && leb c 57) || (leb 65 c && leb c 90) || (leb 97 c && leb c 122)

unfoldable pub clean_char : ℕ → ℕ
clean_char c = if is_alphanumeric c || eqb c 45 || eqb c 95 then c else 45

unfoldable pub snapshot_id_of : Text → Text → Text
snapshot_id_of label timestamp =
    if is_empty label
    then text "snap-" ++ timestamp
    else map clean_char label ++ (text "-snap-" ++ timestamp)

-- The timestamp is the time's, as `%Y%m%d-%H%M%S`.
unfoldable pub generate_snapshot_id : Option Text → Text → Text
generate_snapshot_id none timestamp = text "snap-" ++ timestamp
generate_snapshot_id (some label) timestamp = snapshot_id_of (trim label) timestamp

pub record ParsedBackupLabel : Type 0 where
  pub start_lsn : Option Text
  pub start_wal_file : Option Text
  pub checkpoint_location : Option Text
  pub backup_method : Option Text
  pub backup_from : Option Text
  pub start_time : Option Text
  pub label : Option Text
  pub timeline : Option ℕ

unfoldable pub default : ParsedBackupLabel
default = record {
  start_lsn = none;
  start_wal_file = none;
  checkpoint_location = none;
  backup_method = none;
  backup_from = none;
  start_time = none;
  label = none;
  timeline = none;
}

-- What stands before and after the first occurrence of a text, if there is one.
unfoldable pub before : ℕ → Option (Text × Text) → Option (Text × Text)
before c none = none
before c (some (first, later)) = some (c ∷ first, later)

unfoldable pub split_at : Text → Text → Option (Text × Text)
split_at [] sought = elim (strip_prefix [] sought) [ none ↦ none | some later ↦ some ([], later) ]
split_at (c ∷ s) sought =
    let rest = split_at s sought in
    elim (strip_prefix (c ∷ s) sought) [ none ↦ before c rest | some later ↦ some ([], later) ]

unfoldable pub wal_file_of : Option Text → Option (Text × Text) → Option Text
wal_file_of old none = old
wal_file_of old (some (file, later)) = some (trim file)

unfoldable pub with_location : ParsedBackupLabel → Text → Option (Text × Text) → ParsedBackupLabel
with_location p val none = record p { start_lsn = some val }
with_location p val (some (lsn, wal_part)) = record p {
  start_lsn = some (trim lsn);
  start_wal_file = wal_file_of p.start_wal_file (split_at wal_part (text ")"));
}

unfoldable pub with_timeline : ParsedBackupLabel → Option ℕ → ParsedBackupLabel
with_timeline p none = p
with_timeline p (some tl) = record p { timeline = some tl }

-- The prefixes in the order in which they are tried.
pub data Field : Type 0 where
  start_wal_location checkpoint backup_method_line backup_from_line : Field
  start_time_line label_line start_timeline : Field

unfoldable pub prefix_of : Field → Text
prefix_of start_wal_location = text "START WAL LOCATION:"
prefix_of checkpoint = text "CHECKPOINT LOCATION:"
prefix_of backup_method_line = text "BACKUP METHOD:"
prefix_of backup_from_line = text "BACKUP FROM:"
prefix_of start_time_line = text "START TIME:"
prefix_of label_line = text "LABEL:"
prefix_of start_timeline = text "START TIMELINE:"

abbrev pub fields : List Field
fields =
    start_wal_location ∷ checkpoint ∷ backup_method_line ∷ backup_from_line ∷ start_time_line
    ∷ label_line ∷ start_timeline ∷ []

unfoldable pub with_field : Field → ParsedBackupLabel → Text → ParsedBackupLabel
with_field start_wal_location p val = with_location p val (split_at val (text "(file "))
with_field checkpoint p val = record p { checkpoint_location = some val }
with_field backup_method_line p val = record p { backup_method = some val }
with_field backup_from_line p val = record p { backup_from = some val }
with_field start_time_line p val = record p { start_time = some val }
with_field label_line p val = record p { label = some val }
with_field start_timeline p val = with_timeline p (parse_number (2 ^ 64) val)

unfoldable pub parse_line : List Field → ParsedBackupLabel → Text → ParsedBackupLabel
parse_line [] p line = p
parse_line (f ∷ fs) p line =
    let later = parse_line fs p line in
    elim (strip_prefix line (prefix_of f)) [ none ↦ later | some val ↦ with_field f p (trim val) ]

unfoldable pub parse_lines : ParsedBackupLabel → List Text → ParsedBackupLabel
parse_lines p [] = p
parse_lines p (line ∷ lines) = parse_lines (parse_line fields p (trim line)) lines

unfoldable pub parse_backup_label : Text → ParsedBackupLabel
parse_backup_label content = parse_lines default (split_lines content)
