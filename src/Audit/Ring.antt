-- ===== src/Audit/Ring.antt =====
-- What the ring of core/audit.rs holds.
use pgvisor.Prelude.{
  ℕ, suc, zero, ◌+◌, ◌-◌, ◌≤◌, ◌≡◌, refl, sym, ap, ◌∙◌, true, false, List, [], ◌∷◌, ◌++◌, leb,
  length, drop, length-append, if_elim, arith,
}
use pgvisor.Prelude.Texts.{Text}
use pgvisor.Backup.Store.{Operator}
use mathlib.Core.List.{append_assoc, append-nil}
use pgvisor.Audit.{AuditEvent, AuditLog, Json, event_of, push_ring, append}
use pgvisor.Audit.Persisting.{run_picked-IsSameRing}
use pgvisor.Audit.History.{Step, appended, ran, appended_events, run_picked, pick, perform, run}

-- How many events the ring takes: one where the capacity is zero.
abbrev pub slots : ℕ → ℕ
slots zero = 1
slots (suc n) = suc n

abbrev pub latest : ℕ → List AuditEvent → List AuditEvent
latest n es = drop (length es - n) es

pub length-drop : (n : ℕ) (es : List AuditEvent) → length (drop n es) ≡ length es - n
length-drop zero es = omega arith
length-drop (suc n) [] = omega arith
length-drop (suc n) (e ∷ es) = omega (arith, length-drop n es)

drop-drop : (n : ℕ) (es : List AuditEvent) → drop 1 (drop n es) ≡ drop (suc n) es
drop-drop zero es = refl
drop-drop (suc n) [] = refl
drop-drop (suc n) (e ∷ es) = drop-drop n es

drop-append :
    (n : ℕ) (es later : List AuditEvent) → n ≤ length es → drop n (es ++ later) ≡ drop n es ++ later
drop-append zero es later h = refl
drop-append (suc n) [] later h = absurd (omega arith)
drop-append (suc n) (e ∷ es) later h = drop-append n es later (omega arith)

latest-snoc :
    (n : ℕ) (es : List AuditEvent) (e : AuditEvent)
    → latest (suc n) (es ++ e ∷ []) ≡ drop (length es - n) es ++ e ∷ []
latest-snoc n es e =
    ap (λ k. drop (k - suc n) (es ++ e ∷ [])) (length-append es (e ∷ []))
    ∙ ap (λ k. drop k (es ++ e ∷ [])) (one_less (length es) n)
    ∙ drop-append (length es - n) es (e ∷ []) (omega arith)
  where
    one_less : (k n : ℕ) → k + 1 - suc n ≡ k - n
    one_less k n = omega arith

push_ring-latest :
    (capacity : ℕ) (es : List AuditEvent) (e : AuditEvent)
    → push_ring capacity (latest (slots capacity) es) e ≡ latest (slots capacity) (es ++ e ∷ [])
unfolding push_ring
push_ring-latest zero es e =
    ap (λ r. r ++ e ∷ [])
      (if_elim (λ r. r ≡ drop (length es - 0) es) (leb 0 (length (latest 1 es)))
        (λ full. emptied es) (λ space. absurd (ground (arith, space))))
    ∙ sym (latest-snoc 0 es e)
  where
    one_back : (k : ℕ) → suc (suc k - 1) ≡ suc k - 0
    one_back k = omega arith

    emptied : (es : List AuditEvent) → drop 1 (latest 1 es) ≡ drop (length es - 0) es
    emptied [] = refl
    emptied (f ∷ es) =
        drop-drop (length (f ∷ es) - 1) (f ∷ es) ∙ ap (λ k. drop k (f ∷ es)) (one_back (length es))
push_ring-latest (suc n) es e =
    ap (λ r. r ++ e ∷ [])
      (if_elim (λ r. r ≡ drop (length es - n) es) (leb (suc n) (length (latest (suc n) es)))
        (λ full.
          drop-drop (length es - suc n) es
          ∙ ap (λ k. drop k es) (one_on full (length-drop (length es - suc n) es)))
        (λ space. ap (λ k. drop k es) (none_off space (length-drop (length es - suc n) es))))
    ∙ sym (latest-snoc n es e)
  where
    one_on :
        leb (suc n) (length (latest (suc n) es)) ≡ true
        → length (latest (suc n) es) ≡ length es - (length es - suc n)
        → suc (length es - suc n) ≡ length es - n
    one_on full e = ground (arith, full, e)

    none_off :
        leb (suc n) (length (latest (suc n) es)) ≡ false
        → length (latest (suc n) es) ≡ length es - (length es - suc n)
        → length es - suc n ≡ length es - n
    none_off space e = ground (arith, space, e)

latest-eq_self : (n : ℕ) (es : List AuditEvent) → length es ≤ n → latest n es ≡ es
latest-eq_self n es h = ap (λ k. drop k es) none_over
  where
    none_over : length es - n ≡ 0
    none_over = omega arith

module _ (op : Operator) (cluster : Text) (json : Json) where
  run-from :
      (w : op.Store × AuditLog) (steps : List Step) (es : List AuditEvent) (capacity n : ℕ)
      → w.1.events ≡ latest (slots capacity) es
      → w.1.capacity ≡ capacity
      → w.1.next_id ≡ n
      → (run op cluster json w steps).1.events
        ≡ latest (slots capacity) (es ++ appended_events n steps)
  unfolding run perform append appended_events
  run-from w [] es capacity n h c i = h ∙ ap (latest (slots capacity)) (sym (append-nil es))
  run-from (s, log) (appended entry ∷ steps) es capacity n h c i =
      run-from (s, (append log entry).0) steps (es ++ event_of n entry ∷ []) capacity (n + 1)
        (ap (λ k. push_ring k log.events (event_of log.next_id entry)) c
          ∙ ap (λ r. push_ring capacity r (event_of log.next_id entry)) h
          ∙ ap (λ k. push_ring capacity (latest (slots capacity) es) (event_of k entry)) i
          ∙ push_ring-latest capacity es (event_of n entry))
        c (ap (λ k. k + 1) i)
      ∙ ap (latest (slots capacity)) (append_assoc es (event_of n entry ∷ []) _)
  run-from (s, log) (ran i ∷ steps) es capacity n h c d =
      let same = run_picked-IsSameRing op cluster json s log (pick i log.spawned) in
      run-from (run_picked op cluster json s log (pick i log.spawned)) steps es capacity n
        (same.events ∙ h) (same.capacity ∙ c) (same.next_id ∙ d)

  -- From any log whose ring fits, after any appends and tasks in any order, the ring holds the latest
  -- events, as many as there are slots for, of those it held and those appended since, which are
  -- numbered on from the log's next id.
  pub run-latest :
      (s : op.Store) (log : AuditLog) (steps : List Step)
      → length log.events ≤ slots log.capacity
      → (run op cluster json (s, log) steps).1.events
        ≡ latest (slots log.capacity) (log.events ++ appended_events log.next_id steps)
  run-latest s log steps h =
      run-from (s, log) steps log.events log.capacity log.next_id
        (sym (latest-eq_self (slots log.capacity) log.events h)) refl refl
