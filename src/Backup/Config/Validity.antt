-- ===== src/Backup/Config/Validity.antt =====
-- What backup/manager.rs reads from an environment never lacks.
use pgvisor.Prelude.{
  ℕ, ◌+◌, ◌*◌, ◌-◌, ◌^◌, ◌<◌, ◌≡◌, ◌≢◌, refl, ap, true, not, ◌&&◌, Option, none, some, [], ◌∷◌, eqb,
  leb, ltb, is_empty, if_elim, arith,
}
use pgvisor.Prelude.Texts.{Text, text, trim}
use pgvisor.Backup.Config.{
  BackupScheduleConfig, default, or_else, parse_digits, parse_number, with_count, count_or,
  with_days, days_or, with_cron, from_env,
}

-- No count of zero, a window of 32 bits, and texts for the cron expressions, which may be no valid ones.
pub record IsUsable (c : BackupScheduleConfig) : Type 0 where
  pub keeps : c.keep_count ≢ some 0
  pub window : c.retention_days < 2 ^ 32
  pub full_cron : c.full_backup_cron ≢ []
  pub incremental_cron : c.incremental_backup_cron ≢ []

count_or-keeps : (old new : Option ℕ) → old ≢ some 0 → count_or old new ≢ some 0
unfolding count_or
count_or-keeps old none h = h
count_or-keeps old (some count) h = λ e. ground (arith, e)

with_count-keeps : (old : Option ℕ) (v : Option Text) → old ≢ some 0 → with_count old v ≢ some 0
unfolding with_count
with_count-keeps old none h = h
with_count-keeps old (some v) h = count_or-keeps old (parse_number (2 ^ 64) v) h

-- A number that was parsed is below the bound.
abbrev Below : ℕ → Option ℕ → Type 0
Below bound none = Unit
Below bound (some n) = n < bound

parse_digits-Below : (bound n : ℕ) (s : Text) → Below bound (parse_digits bound n s)
unfolding parse_digits
parse_digits-Below bound n [] =
    if_elim (Below bound) (ltb n bound) (λ e. ground (arith, e)) (λ e. tt)
parse_digits-Below bound n (c ∷ s) =
    if_elim (Below bound) (leb 48 c && leb c 57)
      (λ e. parse_digits-Below bound (n * 10 + (c - 48)) s) (λ e. tt)

parse_number-Below : (bound : ℕ) (s : Text) → Below bound (parse_number bound s)
unfolding parse_number
parse_number-Below bound [] = tt
parse_number-Below bound (c ∷ s) =
    if_elim (Below bound) (eqb c 43 && not (is_empty s)) (λ e. parse_digits-Below bound 0 s)
      (λ e. parse_digits-Below bound 0 (c ∷ s))

days_or-Below :
    (bound old : ℕ) (new : Option ℕ) → old < bound → Below bound new → days_or old new < bound
unfolding days_or
days_or-Below bound old none h b = h
days_or-Below bound old (some n) h b = b

with_days-Below : (old : ℕ) (v : Option Text) → old < 2 ^ 32 → with_days old v < 2 ^ 32
unfolding with_days
with_days-Below old none h = h
with_days-Below old (some v) h =
    days_or-Below (2 ^ 32) old (parse_number (2 ^ 32) v) h (parse_number-Below (2 ^ 32) v)

filled : (s : Text) → not (is_empty s) ≡ true → s ≢ []
filled [] e h = absurd (ground (arith, e))
filled (c ∷ s) e h = absurd (ground (arith, ap is_empty h))

with_cron-filled : (old : Text) (v : Option Text) → old ≢ [] → with_cron old v ≢ []
unfolding with_cron
with_cron-filled old none h = h
with_cron-filled old (some v) h =
    if_elim (λ (c : Text). c ≢ []) (not (is_empty (trim v))) (λ e. filled (trim v) e) (λ e. h)

-- Whatever the environment holds, the schedule that is read from it never keeps zero snapshots, its
-- window is a 32-bit number, and its two cron expressions are not empty.
from_env-IsUsable : (var : Text → Option Text) → IsUsable (from_env var)
unfolding from_env default
from_env-IsUsable var = record {
  keeps =
      with_count-keeps (some 10)
        (or_else (var (text "PGVISOR_BACKUP_KEEP_COUNT")) (var (text "BACKUP_KEEP_COUNT")))
        (λ e. ground (arith, e));
  window =
      with_days-Below 7
        (or_else (var (text "PGVISOR_BACKUP_RETENTION_DAYS"))
          (or_else (var (text "BACKUP_RETENTION_DAYS")) (var (text "S3_RETENTION_DAYS"))))
        (omega arith);
  full_cron =
      with_cron-filled (text "0 1 * * *")
        (or_else (var (text "PGVISOR_BACKUP_FULL_CRON")) (var (text "BACKUP_FULL_CRON")))
        (filled (text "0 1 * * *") refl);
  incremental_cron =
      with_cron-filled (text "0 * * * *")
        (or_else (var (text "PGVISOR_BACKUP_INCREMENTAL_CRON"))
          (var (text "BACKUP_INCREMENTAL_CRON")))
        (filled (text "0 * * * *") refl);
}
