-- ===== src/Protocol/Tracker/Examples.antt =====
-- Statements as the tracker classifies them.
use pgvisor.Prelude.{◌≡◌, refl, false}
use pgvisor.Prelude.Texts.{
  text, chars_key, is_whitespace, trim_start, trim_end_by, take_word, first_word, trim_semicolons,
  upper_char, to_ascii_uppercase, contains_text, starts_with,
}
use pgvisor.Protocol.Tracker.{
  write, idle, new, is_idle, calls_admin_function, classify_word, classify_query,
  kind_requires_leader, requires_leader,
}
use pgvisor.Protocol.Tracker.Routing.{Reads, requires_leader-Reads}

switch_wal_writes : classify_query (text " select pg_switch_wal();") ≡ write
unfolding classify_query classify_word to_ascii_uppercase trim_semicolons trim_end_by first_word
    take_word trim_start is_whitespace upper_char calls_admin_function contains_text starts_with
switch_wal_writes = refl

select_reads : requires_leader new (text "Select 1") ≡ false
unfolding requires_leader is_idle new kind_requires_leader classify_query classify_word
    to_ascii_uppercase trim_semicolons trim_end_by first_word take_word trim_start is_whitespace
    upper_char calls_admin_function contains_text starts_with
select_reads = refl

requires_leader-Reads_example : (new.status ≡ idle) × Reads (text "Select 1")
requires_leader-Reads_example = requires_leader-Reads new (text "Select 1") select_reads
