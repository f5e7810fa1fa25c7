-- ===== src/Audit/Reading.antt =====
-- What `load_from_storage` of core/audit.rs reads, and that its highest id bounds it.
use pgvisor.Prelude.{
  ℕ, ◌≤◌, ◌≡◌, refl, sym, ap, ◌∙◌, Option, none, some, List, [], ◌∷◌, ◌++◌, All, All-map, arith,
}
use mathlib.Core.List.{append_assoc, append-nil}
use pgvisor.Prelude.Texts.{Text}
use pgvisor.Backup.Store.{Operator, Read, found, not_found, failed}
use pgvisor.Audit.{AuditEvent, Json}
use pgvisor.Audit.Loading.{
  max_number, batch_id_of, Loaded, max_event_id, add_batch, add_single, add_file, load_path,
  load_paths,
}

-- The events of a file: a batch, or else one event, or else none.
abbrev decoded : Option (List AuditEvent) → Option AuditEvent → List AuditEvent
decoded (some batch) single = batch
decoded none (some e) = e ∷ []
decoded none none = []

abbrev of_read : Json → Read → List AuditEvent
of_read json (found bytes) = decoded (json.from_slice bytes) (json.event_from_slice bytes)
of_read json not_found = []
of_read json failed = []

-- The events of all files that can be read.
abbrev pub stored_events : (op : Operator) → Json → op.Store → List Text → List AuditEvent
stored_events op json s [] = []
stored_events op json s (path ∷ paths) =
    of_read json (op.read s path) ++ stored_events op json s paths

abbrev pub AtMost : ℕ → List AuditEvent → Type 0
AtMost n es = All (λ (e : AuditEvent). e.id ≤ n) es

AtMost-weaken : (m n : ℕ) (es : List AuditEvent) → m ≤ n → AtMost m es → AtMost n es
AtMost-weaken m n es h = All-map _ _ es (λ e a. omega (arith, a, h))

AtMost-append : (n : ℕ) (xs ys : List AuditEvent) → AtMost n xs → AtMost n ys → AtMost n (xs ++ ys)
AtMost-append n [] ys a b = b
AtMost-append n (x ∷ xs) ys a b = (a.0, AtMost-append n xs ys a.1 b)

max_number-bound : (n k : ℕ) → (n ≤ max_number n (some k)) × (k ≤ max_number n (some k))
unfolding max_number
max_number-bound n k = (ground arith, ground arith)

max_event_id-bound :
    (n : ℕ) (es : List AuditEvent) → (n ≤ max_event_id n es) × AtMost (max_event_id n es) es
unfolding max_event_id
max_event_id-bound n [] = (omega arith, tt)
max_event_id-bound n (e ∷ es) =
    let here = max_number-bound n e.id in
    let rest = max_event_id-bound (max_number n (some e.id)) es in
    (omega (arith, here.0, rest.0), (omega (arith, here.1, rest.0), rest.1))

-- What the loop has read, and that the highest id bounds it.
pub record HasRead (l : Loaded) (before es : List AuditEvent) : Type 0 where
  pub loaded : l.loaded ≡ before ++ es
  pub bound : AtMost l.max_id l.loaded

module _ (op : Operator) (cluster : Text) (json : Json) where
  add_file-HasRead :
      (path : Text) (l : Loaded) (r : Read)
      → AtMost l.max_id l.loaded
      → HasRead (add_file op cluster json path l r) l.loaded (of_read json r)
  unfolding add_file add_batch add_single
  add_file-HasRead path l not_found a = record { loaded = sym (append-nil l.loaded); bound = a }
  add_file-HasRead path l failed a = record { loaded = sym (append-nil l.loaded); bound = a }
  add_file-HasRead path l (found bytes) a =
      by_decoded (json.from_slice bytes) (json.event_from_slice bytes)
    where
      by_single : (o : Option AuditEvent) → HasRead (add_single l o) l.loaded (decoded none o)
      by_single none = record { loaded = sym (append-nil l.loaded); bound = a }
      by_single (some e) =
          let highest = max_number-bound l.max_id e.id in
          record {
            loaded = refl;
            bound =
                AtMost-append (max_number l.max_id (some e.id)) l.loaded (e ∷ [])
                  (AtMost-weaken l.max_id (max_number l.max_id (some e.id)) l.loaded highest.0 a)
                  (highest.1, tt);
          }

      by_decoded :
          (o : Option (List AuditEvent)) (single : Option AuditEvent)
          → HasRead
              (elim o as (λ o. Loaded) [
                | none ↦ add_single l single
                | some batch ↦ add_batch path l batch
              ])
              l.loaded
              (decoded o single)
      by_decoded none single = by_single single
      by_decoded (some batch) single =
          let highest = max_event_id-bound l.max_id batch in
          record {
            loaded = refl;
            bound =
                AtMost-append (max_event_id l.max_id batch) l.loaded batch
                  (AtMost-weaken l.max_id (max_event_id l.max_id batch) l.loaded highest.0 a)
                  highest.1;
          }

  pub load_paths-HasRead :
      (s : op.Store) (l : Loaded) (paths : List Text)
      → AtMost l.max_id l.loaded
      → HasRead (load_paths op cluster json s l paths) l.loaded (stored_events op json s paths)
  unfolding load_paths load_path
  load_paths-HasRead s l [] a = record { loaded = sym (append-nil l.loaded); bound = a }
  load_paths-HasRead s l (path ∷ paths) a =
      let first =
        add_file-HasRead path
          (record l { max_batch_id = max_number l.max_batch_id (batch_id_of path) })
          (op.read s path) a in
      let rest = load_paths-HasRead s (load_path op cluster json s l path) paths first.bound in
      record {
        loaded =
            rest.loaded
            ∙ ap (λ b. b ++ stored_events op json s paths) first.loaded
            ∙ append_assoc l.loaded (of_read json (op.read s path)) (stored_events op json s paths);
        bound = rest.bound;
      }
