-- ===== src/Audit/Resuming.antt =====
-- What the ring and the ids of core/audit.rs are after a start.
use pgvisor.Prelude.{
  ℕ, ◌+◌, ◌≤◌, ◌<◌, ◌≡◌, refl, sym, subst, Bool, true, not, some, List, [], ◌∷◌, ltb, length,
  if_elim, All, All-map, In, inl, inr, arith,
}
use pgvisor.Prelude.Texts.{Text}
use pgvisor.Backup.Store.{Operator, Entry}
use pgvisor.Audit.{AuditEvent, AuditLog, Json, new, max_events_per_batch, audit_prefix}
use pgvisor.Audit.Sorting.{
  IsAscending, IsHeld, for_ring-IsHeld, for_ring-IsAscending, for_ring-All, for_ring-length,
  for_ring-nonempty,
}
use pgvisor.Audit.Loading.{
  json_paths, sort_paths, Loaded, refill, resume, for_ring, restore, load_paths, nothing_loaded,
  load_listed, load_from_storage,
}
use pgvisor.Audit.Reading.{stored_events, AtMost, HasRead, load_paths-HasRead}

-- The log after a start, where some events are stored.
pub record IsResumed (stored : List AuditEvent) (log : AuditLog) : Type 0 where
  pub ascending : IsAscending log.events
  pub bound : length log.events ≤ log.capacity
  pub from_stored : All (λ (e : AuditEvent). In e stored) log.events
  pub fresh : All (λ (e : AuditEvent). e.id < log.next_id) stored
  pub latest : All (λ (e : AuditEvent). IsHeld log.capacity log.events e.id) stored

resume-IsResumed :
    (stored : List AuditEvent) (log : AuditLog) (max_batch_id : ℕ) (batch : List AuditEvent)
    → IsResumed stored log
    → IsResumed stored (resume log max_batch_id batch)
unfolding resume
resume-IsResumed stored log max_batch_id batch r =
    if_elim (IsResumed stored) (not (ltb 0 max_batch_id)) (λ none_stored. r)
      (λ some_stored.
        if_elim (IsResumed stored) (ltb (length batch) max_events_per_batch) (λ open_batch. same r)
          (λ full_batch. same r))
  where
    same :
        {b : List AuditEvent} {i : ℕ}
        → IsResumed stored log
        → IsResumed stored (record log { current_batch = b; current_batch_id = i })
    same r = record {
      ascending = r.ascending;
      bound = r.bound;
      from_stored = r.from_stored;
      fresh = r.fresh;
      latest = r.latest;
    }

All-In : (es : List AuditEvent) → All (λ (e : AuditEvent). In e es) es
All-In [] = tt
All-In (e ∷ es) = (
  inl refl,
  All-map (λ (f : AuditEvent). In f es) (λ (f : AuditEvent). In f (e ∷ es)) es (λ f. inr)
      (All-In es),
)

refill-IsResumed :
    (persists : Bool) (capacity max_id : ℕ) (stored : List AuditEvent)
    → 1 ≤ capacity
    → AtMost max_id stored
    → IsResumed stored (refill (new persists capacity) max_id (for_ring capacity stored))
unfolding refill new
refill-IsResumed persists capacity max_id stored h a =
    by_ring (for_ring capacity stored) (for_ring-IsAscending capacity stored)
      (for_ring-length capacity stored)
      (for_ring-All (λ (e : AuditEvent). In e stored) capacity stored (All-In stored))
      (for_ring-IsHeld capacity stored)
      (λ e es f.
        subst (λ l. 1 ≤ length (for_ring capacity l)) f (for_ring-nonempty capacity e es h))
  where
    nothing_stored :
        (es : List AuditEvent)
        → ((e : AuditEvent) (later : List AuditEvent) → e ∷ later ≡ es → 1 ≤ 0)
        → All (λ (e : AuditEvent). e.id < 1) es
    nothing_stored [] n = tt
    nothing_stored (e ∷ es) n = absurd (impossible (n e es refl))
      where
        impossible : 1 ≤ 0 → ⊥
        impossible h = omega arith

    by_ring :
        (ring : List AuditEvent)
        → IsAscending ring
        → length ring ≤ capacity
        → All (λ (e : AuditEvent). In e stored) ring
        → All (λ (e : AuditEvent). IsHeld capacity ring e.id) stored
        → ((e : AuditEvent) (later : List AuditEvent) → e ∷ later ≡ stored → 1 ≤ length ring)
        → IsResumed stored (refill (new persists capacity) max_id ring)
    by_ring [] o b m held n = record {
      ascending = tt;
      bound = b;
      from_stored = tt;
      fresh = nothing_stored stored n;
      latest = held;
    }
    by_ring (e ∷ es) o b m held n = record {
      ascending = o;
      bound = b;
      from_stored = m;
      fresh =
          All-map (λ (e : AuditEvent). e.id ≤ max_id) (λ (e : AuditEvent). e.id < max_id + 1) stored
            (λ e a. omega (arith, a)) a;
      latest = held;
    }

-- After a start from a new log with room for an event, where the listing gives some entries, the ring
-- holds events of the files that can be read only, each id above the one before, no more than its
-- capacity, and the latest of them: an id of such an event is in the ring, unless the ring is full of greater
-- ones. Every event of a file that can be read has an id below the next one to be given; of a file that cannot
-- be read nothing is said.
pub load_from_storage-IsResumed :
    (op : Operator) (cluster : Text) (json : Json) (s : op.Store) (entries : List Entry)
    (capacity : ℕ)
    → 1 ≤ capacity
    → op.list s (audit_prefix cluster) ≡ some entries
    → IsResumed
        (stored_events op json s (sort_paths (json_paths entries)))
        (load_from_storage op cluster json s (new true capacity)).0
unfolding load_from_storage load_listed restore new nothing_loaded
load_from_storage-IsResumed op cluster json s entries capacity h listed =
    subst (λ o. IsResumed stored (load_listed op cluster json s (new true capacity) o).0)
      (sym listed)
      (resume-IsResumed stored _ loaded.max_batch_id loaded.latest_batch_events (
        subst
          (λ es. IsResumed stored (refill (new true capacity) loaded.max_id (for_ring capacity es)))
          (sym read.loaded)
          (refill-IsResumed true capacity loaded.max_id stored h
            (subst (AtMost loaded.max_id) read.loaded read.bound))))
  where
    paths : List Text
    paths = sort_paths (json_paths entries)

    stored : List AuditEvent
    stored = stored_events op json s paths

    start : Loaded
    start = record { loaded = []; max_id = 0; max_batch_id = 0; latest_batch_events = [] }

    loaded : Loaded
    loaded = load_paths op cluster json s start paths

    read : HasRead loaded [] stored
    read = load_paths-HasRead op cluster json s start paths tt
