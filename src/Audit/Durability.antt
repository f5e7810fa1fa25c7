-- ===== src/Audit/Durability.antt =====
-- Where the audit log of core/audit.rs keeps an event.
use pgvisor.Prelude.{
  ℕ, ◌+◌, ◌≡◌, refl, ap, ◌∙◌, subst, true, Option, none, some, List, [], ◌∷◌, ◌++◌, ◌⊎◌, inl, inr,
  In, In-append_left, In-append_right, All, if_elim, arith,
}
use pgvisor.Prelude.Texts.{Text}
use pgvisor.Storage.Bytes.{Bytes}
use pgvisor.Backup.Store.{Operator, IsObjectStore}
use pgvisor.Audit.{AuditEvent, AuditLog, Json, Entry, event_of, append, batch_key, persist}
use pgvisor.Audit.Persisting.{persist_elim, batched, written, run_picked-IsSameRing}
use pgvisor.Audit.History.{
  Step, appended, ran, Picked, pick, appended_events, run_picked, perform, run,
}
use pgvisor.Audit.Storing.{
  IsCodec, IsStored, IsKept, Leaves, pick-Leaves, IsStored-later, IsStored-write,
}

module _ (op : Operator) (cluster : Text) (json : Json) (laws : IsObjectStore op)
    (codec : IsCodec json) where
  -- Where an event is when a task starts.
  abbrev Starts : op.Store → AuditLog → AuditEvent → AuditEvent → Type 0
  Starts s log event e =
      In e log.spawned
      ⊎ In e (log.current_batch ++ event ∷ [])
      ⊎ IsStored op cluster json (s, log) e

  persist-IsKept :
      (s : op.Store) (log : AuditLog) (event e : AuditEvent)
      → Starts s log event e
      → IsKept op cluster json (persist op cluster json s log event) e
  persist-IsKept s log event e start =
      persist_elim op cluster json s log event (λ w. IsKept op cluster json w e) (unwritten start)
        (λ bytes. kept bytes start) (λ bytes d ok. rotated bytes d ok start)
    where
      batch : List AuditEvent
      batch = log.current_batch ++ event ∷ []

      unwritten :
          Starts s log event e → IsKept op cluster json (s, batched op cluster json s log event) e
      unwritten (inl waits) = inl waits
      unwritten (inr (inl here)) = inr (inl here)
      unwritten (inr (inr st)) = inr (
          inr (
            IsStored-later op cluster json laws codec s s log (batched op cluster json s log event)
              e st refl (omega arith)))

      kept :
          (bytes : Bytes)
          → Starts s log event e
          → IsKept op cluster json
              (
                (written op cluster json s log event bytes).store,
                batched op cluster json s log event,
              )
              e
      kept bytes (inl waits) = inl waits
      kept bytes (inr (inl here)) = inr (inl here)
      kept bytes (inr (inr st)) = inr (
          inr (
            IsStored-write op cluster json laws codec s log (batched op cluster json s log event)
              bytes e (omega arith) st))

      next : AuditLog
      next = record log { current_batch = []; current_batch_id = log.current_batch_id + 1 }

      rotated :
          (bytes : Bytes)
          → json.to_vec batch ≡ some bytes
          → (written op cluster json s log event bytes).is_ok ≡ true
          → Starts s log event e
          → IsKept op cluster json ((written op cluster json s log event bytes).store, next) e
      rotated bytes d ok (inl waits) = inl waits
      rotated bytes d ok (inr (inl here)) = inr (
          inr (record {
            id = log.current_batch_id;
            finished = omega arith;
            bytes = bytes;
            batch = batch;
            object = laws.read-write s (batch_key cluster log.current_batch_id) bytes ok;
            decoded = codec batch bytes d;
            member = here;
          }))
      rotated bytes d ok (inr (inr st)) =
          inr (inr (IsStored-write op cluster json laws codec s log next bytes e (omega arith) st))

  run_picked-IsKept :
      (s : op.Store) (log : AuditLog) (e : AuditEvent) (o : Option Picked)
      → IsKept op cluster json (s, log) e
      → (In e log.spawned → Leaves e o)
      → IsKept op cluster json (run_picked op cluster json s log o) e
  unfolding run_picked
  run_picked-IsKept s log e none kept leaves = kept
  run_picked-IsKept s log e (some p) kept leaves =
      persist-IsKept s (record log { spawned = p.others }) p.event e (start kept)
    where
      from : (e ≡ p.event) ⊎ In e p.others → Starts s (record log { spawned = p.others }) p.event e
      from (inl picked) =
          inr (inl (In-append_right e log.current_batch (p.event ∷ []) (inl picked)))
      from (inr waits) = inl waits

      start :
          IsKept op cluster json (s, log) e → Starts s (record log { spawned = p.others }) p.event e
      start (inl waits) = from (leaves waits)
      start (inr (inl here)) = inr (inl (In-append_left e log.current_batch (p.event ∷ []) here))
      start (inr (inr st)) = inr (
          inr (
            IsStored-later op cluster json laws codec s s log (record log { spawned = p.others }) e
              st refl (omega arith)))

  append-IsKept :
      (s : op.Store) (log : AuditLog) (entry : Entry) (e : AuditEvent)
      → IsKept op cluster json (s, log) e
      → IsKept op cluster json (s, (append log entry).0) e
  unfolding append
  append-IsKept s log entry e (inl waits) = inl (
      if_elim (In e) log.persists
        (λ on. In-append_left e log.spawned (event_of log.next_id entry ∷ []) waits) (λ off. waits))
  append-IsKept s log entry e (inr (inl here)) = inr (inl here)
  append-IsKept s log entry e (inr (inr st)) = inr (
      inr (
        IsStored-later op cluster json laws codec s s log (append log entry).0 e st refl
          (omega arith)))

  append-waits :
      (log : AuditLog) (entry : Entry)
      → log.persists ≡ true
      → In (event_of log.next_id entry) (append log entry).0.spawned
  unfolding append
  append-waits log entry on =
      if_elim (In (event_of log.next_id entry)) log.persists
        (λ h. In-append_right _ log.spawned (event_of log.next_id entry ∷ []) (inl refl))
        (λ off. absurd (ground (arith, on, off)))

  perform-IsKept :
      (w : op.Store × AuditLog) (step : Step) (e : AuditEvent)
      → IsKept op cluster json w e
      → IsKept op cluster json (perform op cluster json w step) e
  unfolding perform
  perform-IsKept w (appended entry) e kept = append-IsKept w.0 w.1 entry e kept
  perform-IsKept w (ran i) e kept =
      run_picked-IsKept w.0 w.1 e (pick i w.1.spawned) kept (pick-Leaves i w.1.spawned e)

  run-keeps :
      (w : op.Store × AuditLog) (steps : List Step) (e : AuditEvent)
      → IsKept op cluster json w e
      → IsKept op cluster json (run op cluster json w steps) e
  unfolding run
  run-keeps w [] e kept = kept
  run-keeps w (step ∷ steps) e kept =
      run-keeps (perform op cluster json w step) steps e (perform-IsKept w step e kept)

  run-appended :
      (w : op.Store × AuditLog) (steps : List Step) (n : ℕ)
      → w.1.persists ≡ true
      → w.1.next_id ≡ n
      → All (IsKept op cluster json (run op cluster json w steps)) (appended_events n steps)
  unfolding run perform append appended_events
  run-appended w [] n on i = tt
  run-appended (s, log) (appended entry ∷ steps) n on i = (
    subst
        (λ k.
          IsKept op cluster json (run op cluster json (s, (append log entry).0) steps)
            (event_of k entry))
        i
        (run-keeps (s, (append log entry).0) steps (event_of log.next_id entry)
          (inl (append-waits log entry on))),
    run-appended (s, (append log entry).0) steps (n + 1) on (ap (λ k. k + 1) i),
  )
  run-appended (s, log) (ran k ∷ steps) n on i =
      let same = run_picked-IsSameRing op cluster json s log (pick k log.spawned) in
      run-appended (run_picked op cluster json s log (pick k log.spawned)) steps n
        (same.persists ∙ on) (same.next_id ∙ i)

  -- Where the log persists, the object store keeps what it is given, and JSON is read back, then after
  -- any appends and tasks in any order, with any writes failing, every event appended since, and every
  -- event that was kept before, waits in a task, or is in the batch in memory that the next task
  -- writes, or stands in the object of a finished batch.
  pub run-IsKept :
      (w : op.Store × AuditLog) (steps : List Step)
      → w.1.persists ≡ true
      → All
          (IsKept op cluster json (run op cluster json w steps))
          (appended_events w.1.next_id steps)
        × ((e : AuditEvent)
            → IsKept op cluster json w e
            → IsKept op cluster json (run op cluster json w steps) e)
  run-IsKept w steps on = (run-appended w steps w.1.next_id on refl, run-keeps w steps)
