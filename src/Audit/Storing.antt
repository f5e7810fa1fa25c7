-- ===== src/Audit/Storing.antt =====
-- Where the audit log of core/audit.rs keeps an event, and that writes leave it there.
use mathlib.Core.List.{append_cancel_left, append_cancel_right}
use pgvisor.Prelude.{
  ℕ, zero, suc, ◌<◌, ◌≤◌, ◌≡◌, ◌∙◌, Option, none, some, List, [], ◌∷◌, ◌⊎◌, inl, inr, In, arith,
}
use pgvisor.Prelude.Texts.{Text, text}
use pgvisor.Prelude.Decimals.{decimal8, decimal8-injective}
use pgvisor.Storage.Bytes.{Bytes}
use pgvisor.Backup.Store.{Operator, IsObjectStore, found}
use pgvisor.Audit.{AuditEvent, AuditLog, Json, audit_prefix, batch_name, batch_key}
use pgvisor.Audit.History.{Picked, keep, pick}

-- What is written as JSON is read back.
abbrev pub IsCodec : Json → Type 0
IsCodec json =
    (batch : List AuditEvent) (bytes : Bytes)
    → json.to_vec batch ≡ some bytes
    → json.from_slice bytes ≡ some batch

-- The event stands in the object of a finished batch.
pub record IsStored (op : Operator) (cluster : Text) (json : Json) (w : op.Store × AuditLog)
    (e : AuditEvent) : Type 0 where
  pub id : ℕ
  pub finished : id < w.1.current_batch_id
  pub bytes : Bytes
  pub batch : List AuditEvent
  pub object : op.read w.0 (batch_key cluster id) ≡ found bytes
  pub decoded : json.from_slice bytes ≡ some batch
  pub member : In e batch

-- The event waits in a task, or is in the batch that the next task writes, or is stored.
abbrev pub IsKept : (op : Operator) → Text → Json → op.Store × AuditLog → AuditEvent → Type 0
IsKept op cluster json w e =
    In e w.1.spawned ⊎ In e w.1.current_batch ⊎ IsStored op cluster json w e

batch_key-injective : (cluster : Text) (i j : ℕ) → batch_key cluster i ≡ batch_key cluster j → i ≡ j
unfolding batch_key batch_name
batch_key-injective cluster i j e =
    let parts = append_cancel_left (audit_prefix cluster) (batch_name i) (batch_name j) e in
    decimal8-injective i j (
      append_cancel_right (decimal8 i) (decimal8 j) (text ".json")
        (append_cancel_left (text "audit_batch_") _ _ parts))

-- A task may be run that is not there: then nothing is picked.
abbrev pub Leaves : AuditEvent → Option Picked → Type 0
Leaves e none = Unit
Leaves e (some p) = (e ≡ p.event) ⊎ In e p.others

keep-Leaves : (e x : AuditEvent) (o : Option Picked) → (e ≡ x) ⊎ Leaves e o → Leaves e (keep x o)
unfolding keep
keep-Leaves e x none h = tt
keep-Leaves e x (some p) (inl here) = inr (inl here)
keep-Leaves e x (some p) (inr (inl picked)) = inl picked
keep-Leaves e x (some p) (inr (inr later)) = inr (inr later)

pub pick-Leaves : (i : ℕ) (es : List AuditEvent) (e : AuditEvent) → In e es → Leaves e (pick i es)
unfolding pick
pick-Leaves i [] e there = absurd there
pick-Leaves zero (x ∷ es) e there = there
pick-Leaves (suc i) (x ∷ es) e (inl here) = keep-Leaves e x (pick i es) (inl here)
pick-Leaves (suc i) (x ∷ es) e (inr there) =
    keep-Leaves e x (pick i es) (inr (pick-Leaves i es e there))

module _ (op : Operator) (cluster : Text) (json : Json) (laws : IsObjectStore op)
    (codec : IsCodec json) where
  -- A stored event stays so where the log moves on and its object is left alone.
  pub IsStored-later :
      (s t : op.Store) (log later : AuditLog) (e : AuditEvent)
      (st : IsStored op cluster json (s, log) e)
      → op.read t (batch_key cluster st.id) ≡ op.read s (batch_key cluster st.id)
      → log.current_batch_id ≤ later.current_batch_id
      → IsStored op cluster json (t, later) e
  IsStored-later s t log later e st same next = record {
    id = st.id;
    finished = omega (arith, next, st.finished);
    bytes = st.bytes;
    batch = st.batch;
    object = same ∙ st.object;
    decoded = st.decoded;
    member = st.member;
  }

  -- A write of the current batch leaves the finished ones alone.
  pub IsStored-write :
      (s : op.Store) (log later : AuditLog) (bytes : Bytes) (e : AuditEvent)
      → log.current_batch_id ≤ later.current_batch_id
      → IsStored op cluster json (s, log) e
      → IsStored op cluster json
          ((op.write s (batch_key cluster log.current_batch_id) bytes).store, later)
          e
  IsStored-write s log later bytes e next st =
      IsStored-later s _ log later e st
        (laws.read-write_other s (batch_key cluster log.current_batch_id) (batch_key cluster st.id)
          bytes
          (λ same.
            unlike (batch_key-injective cluster st.id log.current_batch_id same) st.finished))
        next
    where
      unlike : {m n : ℕ} → m ≡ n → m < n → ⊥
      unlike e h = omega arith
