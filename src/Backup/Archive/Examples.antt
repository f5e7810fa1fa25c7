-- ===== src/Backup/Archive/Examples.antt =====
-- A base backup with a label, an old label and a version, in a format that is its list of members.
use pgvisor.Prelude.{◌≡◌, refl, some, List, [], ◌∷◌}
use pgvisor.Prelude.Texts.{
  Text, text, trim, trim_start, trim_end_by, is_whitespace, split_lines, push_char, strip_prefix,
}
use pgvisor.Backup.Config.{parse_number, parse_digits}
use pgvisor.Backup.Manager.{BasebackupMeta, new, full}
use pgvisor.Backup.Archive.{
  default, before, split_at, wal_file_of, with_location, with_timeline, prefix_of, with_field,
  parse_line, parse_lines, parse_backup_label,
}
use pgvisor.Backup.Archive.Packing.{Member, Tools, process_basebackup_archive}
use pgvisor.Backup.Archive.Contents.{
  with_backup_id, Keeps, learn_all, reference, process_basebackup_archive-reference,
}

abbrev label_text : Text
label_text =
    text "START WAL LOCATION: 0/3000028 (file 000000010000000000000003)\nSTART TIMELINE: 2\n"

abbrev members : List Member
members =
    record { path = text "backup_label"; content = label_text }
    ∷ record { path = text "base/backup_label.old"; content = text "old" }
    ∷ record { path = text "PG_VERSION"; content = text "16\n" }
    ∷ []

abbrev tools : Tools
tools = record {
  unpack = λ bytes. some members;
  pack = λ ms. some (1 ∷ []);
  from_utf8 = λ bytes. some bytes;
  to_utf8 = λ t. t;
  to_vec_pretty = λ m. some m.snapshot_id;
  format_time = λ t. [];
}

label_read : parse_backup_label label_text ≡ record default {
  start_lsn = some (text "0/3000028");
  start_wal_file = some (text "000000010000000000000003");
  timeline = some 2;
}
unfolding parse_backup_label parse_lines parse_line with_field with_location with_timeline
    wal_file_of split_at before prefix_of default split_lines push_char strip_prefix trim trim_start
    trim_end_by is_whitespace parse_number parse_digits
label_read = refl

abbrev meta : BasebackupMeta
meta = new (text "snap") 5 full (text "000000010000000000000001") 0

process_basebackup_archive-reference_example :
    (process_basebackup_archive tools [] meta ≡ reference tools [] meta)
    × ((ms : List Member) → Keeps (with_backup_id meta) (learn_all tools (with_backup_id meta) ms))
process_basebackup_archive-reference_example = process_basebackup_archive-reference tools [] meta
