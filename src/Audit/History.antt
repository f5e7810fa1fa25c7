-- ===== src/Audit/History.antt =====
-- A history of the audit log: appends, and runs of the spawned tasks in any order.
use pgvisor.Prelude.{ℕ, zero, suc, ◌+◌, Option, none, some, List, [], ◌∷◌}
use pgvisor.Prelude.Texts.{Text}
use pgvisor.Backup.Store.{Operator}
use pgvisor.Audit.{AuditEvent, AuditLog, Json, Entry, event_of, append, persist}

-- `ran i` runs the waiting task at position i, if there is one.
pub data Step : Type 0 where
  appended : Entry → Step
  ran : ℕ → Step

pub record Picked : Type 0 where
  pub event : AuditEvent
  pub others : List AuditEvent

unfoldable pub keep : AuditEvent → Option Picked → Option Picked
keep e none = none
keep e (some p) = some (record p { others = e ∷ p.others })

unfoldable pub pick : ℕ → List AuditEvent → Option Picked
pick i [] = none
pick zero (e ∷ es) = some (record { event = e; others = es })
pick (suc i) (e ∷ es) = keep e (pick i es)

-- The events that the appends of a history make, from the first id on.
unfoldable pub appended_events : ℕ → List Step → List AuditEvent
appended_events id [] = []
appended_events id (appended entry ∷ steps) = event_of id entry ∷ appended_events (id + 1) steps
appended_events id (ran i ∷ steps) = appended_events id steps

module _ (op : Operator) (cluster : Text) (json : Json) where
  unfoldable pub run_picked : op.Store → AuditLog → Option Picked → op.Store × AuditLog
  run_picked s log none = (s, log)
  run_picked s log (some p) = persist op cluster json s (record log { spawned = p.others }) p.event

  unfoldable pub perform : op.Store × AuditLog → Step → op.Store × AuditLog
  perform w (appended entry) = (w.0, (append w.1 entry).0)
  perform w (ran i) = run_picked w.0 w.1 (pick i w.1.spawned)

  unfoldable pub run : op.Store × AuditLog → List Step → op.Store × AuditLog
  run w [] = w
  run w (step ∷ steps) = run (perform w step) steps
