-- ===== src/Storage/Wal/Reading.antt =====
-- What `read_entry` returns after each operation of storage/wal.rs: the log as a map from indices
-- to entries.
use pgvisor.Prelude.{
  Bool-cases, leb, ℕ, zero, suc, ◌+◌, ◌-◌, ◌≤◌, ◌≡◌, refl, sym, ap, ◌∙◌, ◌⊎◌, inl, inr, Option,
  none, some, List, [], ◌∷◌, ◌++◌, Bool, true, false, length, length-append, length-take, take,
  drop, ltb, if◌then◌else◌, Option-cases, arith,
}
use native.Mathlib.Nat.{add-zero}
use mathlib.Core.Path.{ap₂, subst}
use mathlib.Core.List.{append_assoc, append-nil}
use pgvisor.Prelude.Maps.Ordered.{get-remove_upto, get, first_from, split_off}
use pgvisor.Raft.Types.{Entry}
use pgvisor.Storage.Bytes.{Bytes, read_at, read_at-append, read_at_end, append-take-drop}
use pgvisor.Storage.Codec.{Codec, IsStorable}
use pgvisor.Storage.Wal.{
  Wal, LogIndexEntry, purge_upto, ok, header_len, truncate_since, read_entry, read_meta,
  decode_entry, frame, read_from, read_range,
}
use pgvisor.Storage.Wal.Records.{header, length-header, frame_split}
use pgvisor.Storage.Wal.Layout.{IsLaid, Laid-get, Laid-cut, get-cut, get-beyond}

module _ {M : Type 0} (c : Codec M) where
  -- A record inside a prefix of the file is read from the prefix alone.
  pub read_meta-append :
      (file more : Bytes) (m : LogIndexEntry)
      → header_len ≤ m.total_record_len
      → m.file_offset + m.total_record_len ≤ length file
      → read_meta c (file ++ more) (some m) ≡ read_meta c file (some m)
  unfolding read_meta
  read_meta-append file more m size inside = ap (decode_entry c) (
      read_at-append (m.file_offset + header_len) (m.total_record_len - header_len) file more
        (omega arith))

  decodes : (e : Entry M) → IsStorable c e → decode_entry c (some (c.serialize e)) ≡ ok (some e)
  unfolding decode_entry
  decodes e st = ground (arith, st.decodes)

  -- The frame that was written last is read back.
  pub read_meta-frame :
      (file : Bytes) (e : Entry M)
      → IsStorable c e
      → read_meta c (file ++ frame c e) (
          some (record {
            file_offset = length file;
            total_record_len = header_len + length (c.serialize e);
            log_id = e.log_id;
          }))
        ≡ ok (some e)
  unfolding read_meta decode_entry
  read_meta-frame file e st = ap (decode_entry c) payload_read ∙ decodes e st
    where
      start : length file + header_len ≡ length (file ++ header c e)
      start = omega (arith, length-append file (header c e), length-header c e)

      size : header_len + length (c.serialize e) - header_len ≡ length (c.serialize e)
      size = omega arith

      whole : file ++ frame c e ≡ (file ++ header c e) ++ (c.serialize e ++ [])
      whole =
          ap (◌++◌ file) (frame_split c e)
          ∙ sym (append_assoc file (header c e) (c.serialize e))
          ∙ ap (◌++◌ (file ++ header c e)) (sym (append-nil (c.serialize e)))

      payload_read :
          read_at
            (length file + header_len)
            (header_len + length (c.serialize e) - header_len)
            (file ++ frame c e)
          ≡ some (c.serialize e)
      payload_read =
          ap₂ (λ at n. read_at at n (file ++ frame c e)) start size
          ∙ ap (read_at (length (file ++ header c e)) (length (c.serialize e))) whole
          ∙ read_at_end (file ++ header c e) (c.serialize e) []

  read_meta-take :
      (file : Bytes) (o : ℕ) (m : LogIndexEntry)
      → header_len ≤ m.total_record_len
      → m.file_offset + m.total_record_len ≤ o
      → o ≤ length file
      → read_meta c (take o file) (some m) ≡ read_meta c file (some m)
  read_meta-take file o m size inside within =
      sym (
        read_meta-append (take o file) (drop o file) m size
          (omega (arith, length-take o file within)))
      ∙ ap (λ f. read_meta c f (some m)) (append-take-drop o file)

  read_meta-none : (file : Bytes) → read_meta c file none ≡ ok none
  unfolding read_meta
  read_meta-none file = refl

  -- After a cut at the record `m`, what is left of the index reads as before.
  read_meta-cut :
      (w : Wal) (s f i : ℕ) (m : LogIndexEntry)
      → IsLaid w
      → first_from w.index s ≡ some (f, m)
      → read_meta c (take m.file_offset w.file) (get (split_off w.index f) i)
        ≡ read_meta c w.file (get (split_off w.index f) i)
  read_meta-cut w s f i m laid first =
      let cut = Laid-cut 0 0 (length w.file) s f w.index m laid first in
      elim (Option-cases (get (split_off w.index f) i)) [
        | inl e ↦ rw e (read_meta-none (take m.file_offset w.file) ∙ sym (read_meta-none w.file))
        | inr (x, e) ↦
            let at = Laid-get 0 0 m.file_offset i (split_off w.index f) x cut.4 e in
            rw e (read_meta-take w.file m.file_offset x at.2 at.3 cut.3)
      ]

  -- The test of an index, moved out of the read.
  read_meta-if :
      (file : Bytes) (b : Bool) (o : Option LogIndexEntry)
      → read_meta c file (if b then o else none) ≡ (if b then read_meta c file o else ok none)
  read_meta-if file true o = refl
  read_meta-if file false o = read_meta-none file

  -- After a truncation from index `s` on, the indices below `s` read as before and the others hold
  -- nothing.
  pub read_entry-truncate_since :
      (w : Wal) (s i : ℕ)
      → IsLaid w
      → read_entry c (truncate_since w s) i ≡ (if ltb i s then read_entry c w i else ok none)
  unfolding read_entry truncate_since
  read_entry-truncate_since w s i laid = elim (Option-cases (first_from w.index s)) [
    | inl none_left ↦
        rw (none_left, truncate_since)
          (ap (read_meta c w.file) (get-beyond s i w.index none_left)
            ∙ read_meta-if w.file (ltb i s) (get w.index i))
    | inr ((f, m), first) ↦
        rw (first, truncate_since)
          (read_meta-cut w s f i m laid first
            ∙ ap (read_meta c w.file) (get-cut 0 0 (length w.file) s f i w.index m laid first)
            ∙ read_meta-if w.file (ltb i s) (get w.index i))
  ]

  -- A purge takes out the bound itself, too.
  pub read_entry-purge_upto :
      (w : Wal) (u i : ℕ)
      → read_entry c (purge_upto w u) i ≡ (if leb i u then ok none else read_entry c w i)
  unfolding read_entry purge_upto read_meta
  read_entry-purge_upto w u i = elim (Bool-cases (leb i u)) [
    | inl gone ↦ rw (get-remove_upto, gone)
    | inr kept ↦ rw (get-remove_upto, kept)
  ]

  -- The entries `es` stand in the log at the indices from `start` on.
  abbrev pub Holds : Wal → ℕ → List (Entry M) → Type 0
  Holds w start [] = Unit
  Holds w start (e ∷ es) = (read_entry c w start ≡ ok (some e)) × Holds w (start + 1) es

  read_from-Holds :
      (w : Wal) (start count : ℕ) (es : List (Entry M))
      → Holds w start es
      → length es ≤ count
      → (length es ≡ count) ⊎ (read_entry c w (start + length es) ≡ ok none)
      → read_from c w start count ≡ ok es
  unfolding read_from
  read_from-Holds w start zero [] h le stop = refl
  read_from-Holds w start zero (e ∷ es) h le stop = absurd (omega arith)
  read_from-Holds w start (suc count) [] h le (inl full) = absurd (omega arith)
  read_from-Holds w start (suc count) [] h le (inr gap) =
      rw (subst (λ i. read_entry c w i ≡ ok none) (add-zero start) gap)
  read_from-Holds w start (suc count) (e ∷ es) h le stop =
      rw (h.0, read_from-Holds w (start + 1) count es h.1 (omega arith) (shift stop))
    where
      shift :
          (suc (length es) ≡ suc count) ⊎ (read_entry c w (start + suc (length es)) ≡ ok none)
          → (length es ≡ count) ⊎ (read_entry c w (start + 1 + length es) ≡ ok none)
      shift (inl full) = inl (omega arith)
      shift (inr gap) =
          let same : start + suc (length es) ≡ start + 1 + length es = omega arith in
          inr (subst (λ i. read_entry c w i ≡ ok none) same gap)

  -- The log holds the entries `es` from index `start` on, and they reach `end` or the first index
  -- without an entry. Then reading from `start` up to `end` returns exactly them.
  pub read_range-Holds :
      (w : Wal) (start end : ℕ) (es : List (Entry M))
      → Holds w start es
      → start + length es ≤ end
      → (start + length es ≡ end) ⊎ (read_entry c w (start + length es) ≡ ok none)
      → read_range c w start end ≡ ok es
  unfolding read_range
  read_range-Holds w start end es h le stop =
      read_from-Holds w start (end - start) es h (omega arith) (counted stop)
    where
      counted :
          (start + length es ≡ end) ⊎ (read_entry c w (start + length es) ≡ ok none)
          → (length es ≡ end - start) ⊎ (read_entry c w (start + length es) ≡ ok none)
      counted (inl full) = inl (omega arith)
      counted (inr gap) = inr gap
