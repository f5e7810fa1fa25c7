-- ===== src/Audit/Persisting.antt =====
-- The outcomes of one task of the audit log of core/audit.rs.
use pgvisor.Prelude.{
  ◌+◌, ◌≡◌, refl, true, ◌||◌, Option, none, some, [], ◌∷◌, ◌++◌, leb, length, if_elim,
}
use pgvisor.Prelude.Texts.{Text}
use pgvisor.Storage.Bytes.{Bytes}
use pgvisor.Backup.Store.{Operator, Written}
use pgvisor.Audit.{
  AuditEvent, AuditLog, Json, max_events_per_batch, max_batch_bytes, batch_key, rotate, write_batch,
  persist,
}
use pgvisor.Audit.History.{Picked, run_picked}

module _ (op : Operator) (cluster : Text) (json : Json) (s : op.Store) (log : AuditLog)
    (e : AuditEvent) where
  abbrev pub batched : AuditLog
  batched = record log { current_batch = log.current_batch ++ e ∷ [] }

  abbrev pub written : Bytes → Written op.Store
  written bytes = op.write s (batch_key cluster log.current_batch_id) bytes

  -- The batch is kept in memory, written or not; or it is written and the next one begun.
  pub persist_elim {ℓ} :
      (P : op.Store × AuditLog → Type ℓ)
      → P (s, batched)
      → ((bytes : Bytes) → P ((written bytes).store, batched))
      → ((bytes : Bytes)
          → json.to_vec (log.current_batch ++ e ∷ []) ≡ some bytes
          → (written bytes).is_ok ≡ true
          → P (
            (written bytes).store,
            record batched { current_batch = []; current_batch_id = log.current_batch_id + 1 },
          ))
      → P (persist op cluster json s log e)
  unfolding persist write_batch rotate
  persist_elim P unwritten kept rotated = by_bytes (json.to_vec (log.current_batch ++ e ∷ [])) refl
    where
      by_bytes :
          (o : Option Bytes)
          → json.to_vec (log.current_batch ++ e ∷ []) ≡ o
          → P (write_batch op cluster json s batched o)
      by_bytes none d = unwritten
      by_bytes (some bytes) d =
          if_elim P (written bytes).is_ok
            (λ ok.
              if_elim (λ l. P ((written bytes).store, l))
                (leb max_events_per_batch (length batched.current_batch)
                  || leb max_batch_bytes (length bytes))
                (λ full. rotated bytes d ok) (λ small. kept bytes))
            (λ failed. kept bytes)

-- What a task leaves alone.
pub record IsSameRing (a b : AuditLog) : Type 0 where
  pub events : b.events ≡ a.events
  pub next_id : b.next_id ≡ a.next_id
  pub capacity : b.capacity ≡ a.capacity
  pub persists : b.persists ≡ a.persists

module _ (op : Operator) (cluster : Text) (json : Json) where
  pub run_picked-IsSameRing :
      (s : op.Store) (log : AuditLog) (o : Option Picked)
      → IsSameRing log (run_picked op cluster json s log o).1
  unfolding run_picked
  run_picked-IsSameRing s log none = record {
    events = refl;
    next_id = refl;
    capacity = refl;
    persists = refl;
  }
  run_picked-IsSameRing s log (some p) =
      persist_elim op cluster json s (record log { spawned = p.others }) p.event
        (λ w. IsSameRing log w.1)
        record { events = refl; next_id = refl; capacity = refl; persists = refl }
        (λ bytes. record { events = refl; next_id = refl; capacity = refl; persists = refl })
        (λ bytes e ok. record { events = refl; next_id = refl; capacity = refl; persists = refl })
