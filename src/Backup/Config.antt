-- ===== src/Backup/Config.antt =====
-- `BackupScheduleConfig` of backup/manager.rs, with the environment as a function.
pub mod Validity
use pgvisor.Prelude.{
  ℕ, ◌+◌, ◌*◌, ◌-◌, ◌^◌, Bool, true, false, not, ◌&&◌, ◌||◌, Option, none, some, List, [], ◌∷◌, eqb,
  leb, ltb, is_empty, ◌==◌, if◌then◌else◌,
}
use pgvisor.Prelude.Texts.{Text, text, chars_key, trim}

pub record BackupScheduleConfig : Type 0 where
  pub minio_endpoint : Text
  pub minio_bucket : Text
  pub access_key : Text
  pub secret_key : Text
  pub incremental_interval_secs : ℕ
  pub full_backup_hour_utc : ℕ
  pub keep_count : Option ℕ
  pub retention_days : ℕ
  pub full_backup_cron : Text
  pub incremental_backup_cron : Text
  pub cron_enabled : Bool

unfoldable pub default : BackupScheduleConfig
default = record {
  minio_endpoint = text "http://127.0.0.1:9000";
  minio_bucket = text "pgvisor-backups";
  access_key = text "minioadmin";
  secret_key = text "minioadmin";
  incremental_interval_secs = 3600;
  full_backup_hour_utc = 1;
  keep_count = some 10;
  retention_days = 7;
  full_backup_cron = text "0 1 * * *";
  incremental_backup_cron = text "0 * * * *";
  cron_enabled = true;
}

-- The value of the first of some variables that is set.
unfoldable pub or_else : Option Text → Option Text → Option Text
or_else none later = later
or_else (some v) later = some v

-- `str::parse` of an unsigned number below a bound: digits, at least one, perhaps after a plus sign.
unfoldable pub parse_digits : ℕ → ℕ → Text → Option ℕ
parse_digits bound n [] = if ltb n bound then some n else none
parse_digits bound n (c ∷ s) =
    if leb 48 c && leb c 57 then parse_digits bound (n * 10 + (c - 48)) s else none

unfoldable pub parse_number : ℕ → Text → Option ℕ
parse_number bound [] = none
parse_number bound (c ∷ s) =
    if eqb c 43 && not (is_empty s) then parse_digits bound 0 s else parse_digits bound 0 (c ∷ s)

unfoldable pub with_text : Text → Option Text → Text
with_text old none = old
with_text old (some v) = v

unfoldable pub count_or : Option ℕ → Option ℕ → Option ℕ
count_or old none = old
count_or old (some count) = if eqb count 0 then none else some count

unfoldable pub with_count : Option ℕ → Option Text → Option ℕ
with_count old none = old
with_count old (some v) = count_or old (parse_number (2 ^ 64) v)

unfoldable pub days_or : ℕ → Option ℕ → ℕ
days_or old none = old
days_or old (some days) = days

unfoldable pub with_days : ℕ → Option Text → ℕ
with_days old none = old
with_days old (some v) = days_or old (parse_number (2 ^ 32) v)

unfoldable pub with_cron : Text → Option Text → Text
with_cron old none = old
with_cron old (some v) = if not (is_empty (trim v)) then trim v else old

unfoldable pub with_enabled : Bool → Option Text → Bool
with_enabled old none = old
with_enabled old (some v) = not (trim v == text "false") && not (trim v == text "0")

unfoldable pub from_env : (Text → Option Text) → BackupScheduleConfig
from_env var = record default {
  minio_endpoint =
      with_text default.minio_endpoint
        (or_else (var (text "S3_ENDPOINT")) (var (text "PGVISOR_S3_ENDPOINT")));
  minio_bucket =
      with_text default.minio_bucket
        (or_else (var (text "S3_BUCKET")) (var (text "PGVISOR_S3_BUCKET")));
  access_key =
      with_text default.access_key
        (or_else (var (text "S3_ACCESS_KEY")) (var (text "PGVISOR_S3_ACCESS_KEY")));
  secret_key =
      with_text default.secret_key
        (or_else (var (text "S3_SECRET_KEY")) (var (text "PGVISOR_S3_SECRET_KEY")));
  keep_count =
      with_count default.keep_count
        (or_else (var (text "PGVISOR_BACKUP_KEEP_COUNT")) (var (text "BACKUP_KEEP_COUNT")));
  retention_days = with_days default.retention_days (
      or_else (var (text "PGVISOR_BACKUP_RETENTION_DAYS"))
        (or_else (var (text "BACKUP_RETENTION_DAYS")) (var (text "S3_RETENTION_DAYS"))));
  full_backup_cron =
      with_cron default.full_backup_cron
        (or_else (var (text "PGVISOR_BACKUP_FULL_CRON")) (var (text "BACKUP_FULL_CRON")));
  incremental_backup_cron = with_cron default.incremental_backup_cron (
      or_else (var (text "PGVISOR_BACKUP_INCREMENTAL_CRON"))
        (var (text "BACKUP_INCREMENTAL_CRON")));
  cron_enabled =
      with_enabled default.cron_enabled
        (or_else (var (text "PGVISOR_BACKUP_CRON_ENABLED")) (var (text "BACKUP_CRON_ENABLED")));
}
