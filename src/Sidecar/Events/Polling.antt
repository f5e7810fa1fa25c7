-- ===== src/Sidecar/Events/Polling.antt =====
-- What the event buffer of sidecar/control holds, and what a poll of it returns.
use native.Mathlib.Nat.{mod-eq_of_lt}
use pgvisor.Prelude.{
  ℕ, ◌+◌, ◌≤◌, ◌<◌, ◌^◌, ◌≡◌, refl, sym, ap, ◌∙◌, subst, some, List, [], ◌∷◌, ◌++◌, ltb, leb,
  length, length-append, drop, String, if_elim, arith,
}
use pgvisor.Sidecar.Events.{
  SidecarEventRecord, EventState, new, make_room, record_event, events_since, unwrap_or_zero,
  handle_events,
}

-- Ids that count up from a number.
abbrev pub Counts : ℕ → List SidecarEventRecord → Type 0
Counts n [] = Unit
Counts n (e ∷ q) = (e.id ≡ n) × Counts (n + 1) q

-- A list of consecutive ids that ends before a number.
abbrev pub Runs : ℕ → ℕ → List SidecarEventRecord → Type 0
Runs n end q = Counts n q × (n + length q ≡ end)

-- The buffer holds the latest events, at most two hundred, up to the last one recorded.
pub record IsBuffer (s : EventState) : Type 0 where
  pub bound : length s.events ≤ 200
  pub first : ℕ
  pub consecutive : Runs first s.event_id s.events

Counts-append :
    (n : ℕ) (q : List SidecarEventRecord) (e : SidecarEventRecord)
    → Counts n q
    → e.id ≡ n + length q
    → Counts n (q ++ e ∷ [])
Counts-append n [] e c h = (omega (arith, h), tt)
Counts-append n (x ∷ q) e c h = (c.0, Counts-append (n + 1) q e c.1 (omega (arith, h)))

-- The events from some place on, for a poll after the id before it.
events_since-Counts :
    (since n : ℕ) (q : List SidecarEventRecord) → Counts n q → since < n → events_since since q ≡ q
unfolding events_since
events_since-Counts since n [] c h = refl
events_since-Counts since n (e ∷ q) c h =
    if_elim (λ r. r ≡ e ∷ q) (ltb since e.id)
      (λ later. ap (◌∷◌ e) (events_since-Counts since (n + 1) q c.1 (omega arith)))
      (λ earlier. absurd (ground (arith, earlier, c.0)))

events_since-Runs :
    (since n end : ℕ) (q : List SidecarEventRecord)
    → Runs n end q
    → n ≤ since + 1
    → since + 1 ≤ end
    → Runs (since + 1) end (events_since since q)
unfolding events_since
events_since-Runs since n end [] c l h = (tt, omega (arith, c.1))
events_since-Runs since n end (e ∷ q) c l h =
    if_elim (Runs (since + 1) end) (ltb since e.id) {x = e ∷ events_since since q}
      {y = events_since since q}
      (λ later.
        let start : n ≡ since + 1 = ground (arith, later, c.0.0, l) in
        subst (λ m. Runs m end (e ∷ events_since since q)) {x = n} start
          (subst (λ r. Runs n end (e ∷ r))
            (sym (events_since-Counts since (n + 1) q c.0.1 (omega (arith, start)))) c))
      (λ earlier.
        events_since-Runs since (n + 1) end q (c.0.1, omega (arith, c.1))
          (ground (arith, earlier, c.0.0)) h)

drop-Runs :
    (n end : ℕ) (q : List SidecarEventRecord)
    → 1 ≤ length q
    → Runs n end q
    → Runs (n + 1) end (drop 1 q)
drop-Runs n end [] h c = absurd (omega arith)
drop-Runs n end (e ∷ q) h c = (c.0.1, omega (arith, c.1))

length-drop_one : (q : List SidecarEventRecord) → 1 ≤ length q → length (drop 1 q) + 1 ≡ length q
length-drop_one [] h = absurd (omega arith)
length-drop_one (e ∷ q) h = omega arith

make_room-Runs :
    (n end : ℕ) (q : List SidecarEventRecord)
    → Runs n end q
    → length q ≤ 200
    → (m : ℕ) × (Runs m end (make_room q) × (length (make_room q) < 200))
unfolding make_room
make_room-Runs n end q c l =
    if_elim (λ r. (m : ℕ) × (Runs m end r × (length r < 200))) (leb 200 (length q))
      (λ full. (
        n + 1,
        (drop-Runs n end q (ground (arith, full)) c, ground (arith, length-drop_one q, full, l)),
      ))
      (λ room. (n, (c, ground (arith, room))))

-- Recording an event keeps the buffer: the latest events in order without a gap, two hundred at most.
record_event-IsBuffer :
    (s : EventState) (timestamp kind detail : String)
    → s.event_id + 1 < 2 ^ 64
    → IsBuffer s
    → IsBuffer (record_event s timestamp kind detail)
unfolding record_event
record_event-IsBuffer s timestamp kind detail h b =
    let room = make_room-Runs b.first s.event_id s.events b.consecutive b.bound in
    let event : SidecarEventRecord = record {
      id = s.event_id;
      timestamp = timestamp;
      kind = kind;
      detail = detail;
    } in
    let more = length-append (make_room s.events) (event ∷ []) in
    record {
      bound = omega (arith, more, room.1.1);
      first = room.0;
      consecutive = (
        Counts-append room.0 (make_room s.events) event room.1.0.0 (sym room.1.0.1),
        omega (arith, more, room.1.0.1) ∙ sym (mod-eq_of_lt h),
      );
    }

-- The calls of `record_event`, with the clock's time, the kind and the detail of each.
unfoldable pub record_all : EventState → List (String × String × String) → EventState
record_all s [] = s
record_all s ((timestamp, kind, detail) ∷ calls) =
    record_all (record_event s timestamp kind detail) calls

record_event-event_id :
    (s : EventState) (timestamp kind detail : String)
    → s.event_id + 1 < 2 ^ 64
    → (record_event s timestamp kind detail).event_id ≡ s.event_id + 1
unfolding record_event
record_event-event_id s timestamp kind detail h = mod-eq_of_lt h

record_all-from :
    (s : EventState) (calls : List (String × String × String))
    → s.event_id + length calls < 2 ^ 64
    → IsBuffer s
    → IsBuffer (record_all s calls) × ((record_all s calls).event_id ≡ s.event_id + length calls)
unfolding record_all
record_all-from s [] h b = (b, omega arith)
record_all-from s ((timestamp, kind, detail) ∷ calls) h b =
    let step : s.event_id + 1 < 2 ^ 64 = omega (arith, h) in
    let next = record_event-event_id s timestamp kind detail step in
    let rest =
      record_all-from (record_event s timestamp kind detail) calls (omega (arith, h, next))
        (record_event-IsBuffer s timestamp kind detail step b) in
    (rest.0, omega (arith, rest.1, next))

-- After any number of events (fewer than the ids there are), the buffer holds the latest of them in
-- order and without a gap, two hundred at most, and the next id is one more than their number.
pub record_all-IsBuffer :
    (calls : List (String × String × String))
    → length calls + 1 < 2 ^ 64
    → IsBuffer (record_all new calls) × ((record_all new calls).event_id ≡ length calls + 1)
unfolding new
record_all-IsBuffer calls h =
    let all =
      record_all-from new calls (omega (arith, h))
        (record { bound = omega arith; first = 1; consecutive = (tt, omega arith) }) in
    (all.0, omega (arith, all.1))

-- A poll for the events after an id returns all of them, in order and without a gap, up to the last
-- event, unless some have left the buffer already.
pub handle_events-Runs :
    (s : EventState) (b : IsBuffer s) (since : ℕ)
    → b.first ≤ since + 1
    → since + 1 ≤ s.event_id
    → Runs (since + 1) s.event_id (handle_events s (some since))
unfolding handle_events unwrap_or_zero
handle_events-Runs s b since l h =
    events_since-Runs since b.first s.event_id s.events b.consecutive l h
