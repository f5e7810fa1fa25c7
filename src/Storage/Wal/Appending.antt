-- ===== src/Storage/Wal/Appending.antt =====
-- What is read from an opened log of storage/wal.rs after appends.
use pgvisor.Prelude.{
  ℕ, ◌+◌, ◌≤◌, ◌≡◌, sym, ap, ◌∙◌, ◌⊎◌, inl, inr, some, List, [], ◌∷◌, ◌++◌, length, length-append,
  All, eqb, if◌then◌else◌, Bool-cases, Option-cases, subst, arith,
}
use pgvisor.Prelude.Maps.Ordered.{BTreeMap, get, insert, get-insert}
use pgvisor.Raft.Types.{LogId, Entry}
use pgvisor.Storage.Bytes.{Bytes}
use pgvisor.Storage.Codec.{Codec, IsStorable}
use pgvisor.Storage.Wal.{
  Wal, LogIndexEntry, ok, err, serialization, header_len, add_entry, append_entry, append,
  read_entry, read_meta, frame, open_wal,
}
use pgvisor.Storage.Wal.Recovery.{Rec, Clean, content, index_of, log_of, open_any}
use pgvisor.Storage.Wal.Durability.{frames, Clean-frames, append-log_of, ok_injective}
use pgvisor.Storage.Wal.Reading.{read_meta-append, read_meta-frame}

-- Every indexed record lies inside the first `n` bytes.
abbrev Within : ℕ → BTreeMap LogIndexEntry → Type 0
Within n [] = Unit
Within n ((j, m) ∷ index) =
    (header_len ≤ m.total_record_len) × (m.file_offset + m.total_record_len ≤ n) × Within n index

Within-weaken : (m n : ℕ) (index : BTreeMap LogIndexEntry) → m ≤ n → Within m index → Within n index
Within-weaken m n [] le h = tt
Within-weaken m n ((j, x) ∷ index) le h =
    (h.0, omega (arith, h.1, le), Within-weaken m n index le h.2)

add_entry-Within :
    (n offset total : ℕ) (id : LogId) (index : BTreeMap LogIndexEntry)
    → header_len ≤ total
    → offset + total ≤ n
    → Within n index
    → Within n (add_entry index offset total id)
unfolding add_entry insert
add_entry-Within n offset total id [] size inside h = (size, inside, tt)
add_entry-Within n offset total id ((j, x) ∷ index) size inside h =
    ground (arith, add_entry-Within n offset total id index size inside h.2)

get-Within :
    (n i : ℕ) (index : BTreeMap LogIndexEntry) (m : LogIndexEntry)
    → Within n index
    → get index i ≡ some m
    → (header_len ≤ m.total_record_len) × (m.file_offset + m.total_record_len ≤ n)
unfolding get
get-Within n i [] m h e = cc
get-Within n i ((j, x) ∷ index) m h e = ground (arith, get-Within n i index m h.2)

module _ {M : Type 0} (c : Codec M) where
  index_of-Within :
      (index : BTreeMap LogIndexEntry) (offset : ℕ) (rs : List (Rec c))
      → Clean c rs
      → Within offset index
      → Within (offset + length (content c rs)) (index_of c index offset rs)
  unfolding index_of content
  index_of-Within index offset [] clean h = Within-weaken offset (offset + 0) index (omega arith) h
  index_of-Within index offset ((e, b) ∷ rs) clean h =
      subst
        (λ n.
          Within n (index_of c (add_entry index offset (length b) e.log_id) (offset + length b) rs))
        (omega (arith, length-append b (content c rs)))
        (index_of-Within (add_entry index offset (length b) e.log_id) (offset + length b) rs clean.1
          (add_entry-Within (offset + length b) offset (length b) e.log_id index clean.0.0
            (omega arith) (Within-weaken offset (offset + length b) index (omega arith) h)))

  -- The index of a log of records points into its file.
  log_of-Within :
      (rs : List (Rec c)) → Clean c rs → Within (length (log_of c rs).file) (log_of c rs).index
  unfolding log_of
  log_of-Within rs clean =
      subst (λ n. Within n (index_of c [] 0 rs)) (omega arith) (index_of-Within [] 0 rs clean tt)

  read_meta-Within :
      (w : Wal) (more : Bytes) (i : ℕ)
      → Within (length w.file) w.index
      → read_meta c (w.file ++ more) (get w.index i) ≡ read_meta c w.file (get w.index i)
  unfolding read_meta
  read_meta-Within w more i h = elim (Option-cases (get w.index i)) [
    | inl e ↦ rw e
    | inr (m, e) ↦
        let at = get-Within (length w.file) i w.index m h e in
        rw e (read_meta-append c w.file more m at.0 at.1)
  ]

  append_entry-Within :
      (w : Wal) (e : Entry M) (i : ℕ)
      → IsStorable c e
      → Within (length w.file) w.index
      → read_entry c (append_entry c w e) i
        ≡ (if eqb e.log_id.index i then ok (some e) else read_entry c w i)
  unfolding read_entry append_entry add_entry
  append_entry-Within w e i st h = elim (Bool-cases (eqb e.log_id.index i)) [
    | inl new ↦ rw (get-insert, new) (read_meta-frame c w.file e st)
    | inr old ↦ rw (get-insert, old) (read_meta-Within w (frame c e) i h)
  ]

  -- In a log that opening some file gave, and to which any storable entries were appended, appending one
  -- more makes its index read as the entry, whatever was there, and leaves what every other index reads as.
  pub read_entry-append :
      (file : Bytes) (w : Wal) (es : List (Entry M)) (e : Entry M) (i : ℕ)
      → open_wal c file ≡ ok w
      → All (IsStorable c) es
      → IsStorable c e
      → read_entry c (append_entry c (append c w es) e) i
        ≡ (if eqb e.log_id.index i then ok (some e) else read_entry c (append c w es) i)
  read_entry-append file w es e i opened sts st = go (open_any c file)
    where
      go :
          (open_wal c file ≡ err serialization)
            ⊎ ((rs : List (Rec c)) × (tail : Bytes) × (file ≡ content c rs ++ tail)
                × Clean c rs
                × (open_wal c file ≡ ok (log_of c rs)))
          → read_entry c (append_entry c (append c w es) e) i
            ≡ (if eqb e.log_id.index i then ok (some e) else read_entry c (append c w es) i)
      go (inl fails) = cc (sym opened ∙ fails)
      go (inr (rs, tail, whole, clean, logged)) = append_entry-Within (append c w es) e i st (
          subst (λ (v : Wal). Within (length v.file) v.index) (sym logs)
            (log_of-Within (rs ++ frames c es) (Clean-frames c rs es clean sts)))
        where
          logs : append c w es ≡ log_of c (rs ++ frames c es)
          logs =
              ap (λ v. append c v es) (ok_injective (sym opened ∙ logged)) ∙ append-log_of c rs es
