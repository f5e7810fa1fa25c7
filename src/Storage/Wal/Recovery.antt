-- ===== src/Storage/Wal/Recovery.antt =====
-- Recovery of the log of storage/wal.rs from any file: what `Wal::open` keeps and cuts off.
use pgvisor.Prelude.{
  ℕ, zero, suc, ◌+◌, ◌-◌, ◌≤◌, ◌<◌, ◌≡◌, refl, sym, ap, ◌∙◌, ◌⊎◌, inl, inr, Option, none, some,
  false, List, [], ◌∷◌, ◌++◌, length, take, length-append, take-append_length, ltb, ltb_iff, arith,
}
use mathlib.Core.Path.{ap₂}
use mathlib.Core.List.{append_assoc, append-nil}
use pgvisor.Prelude.Maps.Ordered.{BTreeMap}
use pgvisor.Raft.Types.{LogId, Entry}
use pgvisor.Storage.Bytes.{Bytes, read_exact}
use pgvisor.Storage.Codec.{Codec}
use pgvisor.Storage.Wal.{
  Wal, LogIndexEntry, ok, err, serialization, Parsed, damaged, undecodable, parsed, add_entry,
  parse_header, parse_record, scan, open_wal,
}
use pgvisor.Storage.Wal.Scan.{IsRecord, IsRecord-inv}

not_below : (a b : ℕ) → b ≤ a → ltb a b ≡ false
not_below a b h = ground arith

module _ {M : Type 0} (c : Codec M) where
  abbrev pub Rec : Type 0
  Rec = Entry M × Bytes

  abbrev pub Clean : List Rec → Type 0
  Clean [] = Unit
  Clean ((e, b) ∷ rs) = IsRecord c e b × Clean rs

  unfoldable pub content : List Rec → Bytes
  content [] = []
  content ((e, b) ∷ rs) = b ++ content rs

  unfoldable pub index_of : BTreeMap LogIndexEntry → ℕ → List Rec → BTreeMap LogIndexEntry
  index_of index offset [] = index
  index_of index offset ((e, b) ∷ rs) =
      index_of (add_entry index offset (length b) e.log_id) (offset + length b) rs

  unfoldable pub last_id : Option LogId → List Rec → Option LogId
  last_id last [] = last
  last_id last ((e, b) ∷ rs) = last_id (some e.log_id) rs

  -- The log that holds these records and nothing else.
  unfoldable pub log_of : List Rec → Wal
  log_of rs = record { file = content rs; index = index_of [] 0 rs; last_log_id = last_id none rs }

  -- What stops the scan.
  abbrev pub Ends : Bytes → Type 0
  Ends tail = parse_record c tail ≡ damaged

  module _ (fuel : ℕ) (file rest : Bytes) (offset : ℕ) (index : BTreeMap LogIndexEntry)
      (last : Option LogId) where
    scan_done :
        length file ≤ offset
        → scan c (suc fuel) file offset rest index last
          ≡ ok (record { file = file; index = index; last_log_id = last })
    unfolding scan
    scan_done h = rw (not_below offset (length file) h)

    scan_damaged :
        offset < length file
        → Ends rest
        → scan c (suc fuel) file offset rest index last
          ≡ ok (record { file = take offset file; index = index; last_log_id = last })
    unfolding scan
    scan_damaged h ends = rw ((ltb_iff offset (length file)).1 h, ends)

    scan_undecodable :
        offset < length file
        → parse_record c rest ≡ undecodable
        → scan c (suc fuel) file offset rest index last ≡ err serialization
    unfolding scan
    scan_undecodable h stops = rw ((ltb_iff offset (length file)).1 h, stops)

    scan_parsed :
        (e : Entry M) (total : ℕ) (rest' : Bytes)
        → offset < length file
        → parse_record c rest ≡ parsed e total rest'
        → scan c (suc fuel) file offset rest index last
          ≡ scan c fuel file
              (offset + total)
              rest'
              (add_entry index offset total e.log_id)
              (some e.log_id)
    unfolding scan
    scan_parsed e total rest' h goes = rw ((ltb_iff offset (length file)).1 h, goes)

  -- From a cursor behind `pre`, the scan takes the records and goes on behind them.
  scan_records :
      (fuel : ℕ) (pre : Bytes) (rs : List Rec) (tail : Bytes) (index : BTreeMap LogIndexEntry)
      (last : Option LogId)
      → Clean rs
      → scan c
          (length rs + fuel)
          (pre ++ (content rs ++ tail))
          (length pre)
          (content rs ++ tail)
          index
          last
        ≡ scan c fuel
            ((pre ++ content rs) ++ tail)
            (length (pre ++ content rs))
            tail
            (index_of index (length pre) rs)
            (last_id last rs)
  unfolding content index_of last_id
  scan_records fuel pre [] tail index last clean =
      rw (append-nil pre)
        (ap (λ n. scan c n (pre ++ tail) (length pre) tail index last) (omega arith))
  scan_records fuel pre ((e, b) ∷ rs) tail index last clean =
      ap₂ (λ f n. scan c n (pre ++ f) (length pre) f index last) (append_assoc b (content rs) tail)
        (omega arith)
      ∙ scan_parsed (length rs + fuel) (pre ++ (b ++ (content rs ++ tail)))
          (b ++ (content rs ++ tail)) (length pre) index last e (length b) (content rs ++ tail)
          (omega (
            arith,
            length-append pre (b ++ (content rs ++ tail)),
            length-append b (content rs ++ tail),
            clean.0.0,
          ))
          (clean.0.1 (content rs ++ tail))
      ∙ ap₂
          (λ f n.
            scan c (length rs + fuel) f n (content rs ++ tail)
              (add_entry index (length pre) (length b) e.log_id) (some e.log_id))
          (sym (append_assoc pre b (content rs ++ tail))) (sym (length-append pre b))
      ∙ scan_records fuel (pre ++ b) rs tail (add_entry index (length pre) (length b) e.log_id)
          (some e.log_id) clean.1
      ∙ ap₂
          (λ f n.
            scan c fuel (f ++ tail) (length f) tail
              (index_of (add_entry index (length pre) (length b) e.log_id) n rs)
              (last_id (some e.log_id) rs))
          (append_assoc pre b (content rs)) (length-append pre b)

  length-records-le : (rs : List Rec) → Clean rs → length rs ≤ length (content rs)
  unfolding content
  length-records-le [] clean = omega arith
  length-records-le ((e, b) ∷ rs) clean =
      omega (arith, length-append b (content rs), clean.0.0, length-records-le rs clean.1)

  -- The scan from the start, up to the end of the records.
  open_records :
      (rs : List Rec) (tail : Bytes)
      → Clean rs
      → (fuel : ℕ) × (open_wal c (content rs ++ tail)
          ≡ scan c
              (suc fuel)
              (content rs ++ tail)
              (length (content rs))
              tail
              (index_of [] 0 rs)
              (last_id none rs))
  unfolding open_wal
  open_records rs tail clean =
      let file = content rs ++ tail in
      let fuel = length file - length rs in
      (
        fuel,
        ap (λ n. scan c n file 0 file [] none)
              (omega (arith, length-records-le rs clean, length-append (content rs) tail))
            ∙ scan_records (suc fuel) [] rs tail [] none clean,
      )

  -- Intact records are kept, and the damage behind them is cut off.
  pub open-Clean :
      (rs : List Rec) (tail : Bytes)
      → Clean rs
      → Ends tail
      → open_wal c (content rs ++ tail) ≡ ok (log_of rs)
  unfolding log_of
  open-Clean rs [] clean ends =
      let (fuel, scanned) = open_records rs [] clean in
      scanned
      ∙ scan_done fuel (content rs ++ []) [] (length (content rs)) _ _ (rw append-nil (omega arith))
      ∙ rw append-nil
  open-Clean rs (x ∷ tail) clean ends =
      let (fuel, scanned) = open_records rs (x ∷ tail) clean in
      scanned
      ∙ scan_damaged fuel (content rs ++ x ∷ tail) (x ∷ tail) (length (content rs)) _ _
          (omega (arith, length-append (content rs) (x ∷ tail))) ends
      ∙ rw (take-append_length (content rs) (x ∷ tail))

  open_undecodable :
      (rs : List Rec) (x : ℕ) (tail : Bytes)
      → Clean rs
      → parse_record c (x ∷ tail) ≡ undecodable
      → open_wal c (content rs ++ x ∷ tail) ≡ err serialization
  open_undecodable rs x tail clean stops =
      let (fuel, scanned) = open_records rs (x ∷ tail) clean in
      scanned
      ∙ scan_undecodable fuel (content rs ++ x ∷ tail) (x ∷ tail) (length (content rs)) _ _
          (omega (arith, length-append (content rs) (x ∷ tail))) stops

  parse-nil : Ends []
  unfolding parse_record parse_header read_exact
  parse-nil = refl

  pub open_again : (rs : List Rec) → Clean rs → open_wal c (content rs) ≡ ok (log_of rs)
  open_again rs clean =
      ap (open_wal c) (sym (append-nil (content rs))) ∙ open-Clean rs [] clean parse-nil

  abbrev Split : Bytes → Type 0
  Split b =
      (rs : List Rec) × (tail : Bytes) × (b ≡ content rs ++ tail)
      × Clean rs
      × (Ends tail ⊎ (parse_record c tail ≡ undecodable))

  Split-more : (e : Entry M) (x r b : Bytes) → b ≡ x ++ r → IsRecord c e x → Split r → Split b
  unfolding content
  Split-more e x r b front is (rs, tail, whole, clean, stop) = (
    (e, x) ∷ rs,
    tail,
    front ∙ ap (◌++◌ x) whole ∙ sym (append_assoc x (content rs) tail),
    (is, clean),
    stop,
  )

  -- Any bytes are intact records, and a rest at which the scan stops.
  Split-file : (fuel : ℕ) (b : Bytes) → length b < fuel → Split b
  unfolding content
  Split-file zero b h = absurd (omega arith)
  Split-file (suc fuel) b h = go (λ r. Split-file fuel r) (parse_record c b) refl
    where
      go :
          ((r : Bytes) → length r < fuel → Split r)
          → (p : Parsed M) → parse_record c b ≡ p
          → Split b
      go rest damaged stop = ([], b, refl, tt, inl stop)
      go rest undecodable stop = ([], b, refl, tt, inr stop)
      go rest (parsed e total r) goes =
          let (x, front, size, is) = IsRecord-inv c b goes in
          Split-more e x r b front is
            (rest r (omega (arith, ap length front, length-append x r, is.0)))

  -- What `open` makes of any file, in terms of its records.
  pub open_any :
      (file : Bytes)
      → (open_wal c file ≡ err serialization)
        ⊎ ((rs : List Rec) × (tail : Bytes) × (file ≡ content rs ++ tail)
            × Clean rs
            × (open_wal c file ≡ ok (log_of rs)))
  open_any file = go (Split-file (suc (length file)) file (omega arith))
    where
      go :
          Split file
          → (open_wal c file ≡ err serialization)
            ⊎ ((rs : List Rec) × (tail : Bytes) × (file ≡ content rs ++ tail)
                × Clean rs
                × (open_wal c file ≡ ok (log_of rs)))
      go (rs, tail, whole, clean, inl ends) =
          inr (rs, tail, whole, clean, ap (open_wal c) whole ∙ open-Clean rs tail clean ends)
      go (rs, [], whole, clean, inr stops) = cc (parse-nil)
      go (rs, x ∷ tail, whole, clean, inr stops) =
          inl (ap (open_wal c) whole ∙ open_undecodable rs x tail clean stops)
