-- ===== src/Storage/Wal/Durability.antt =====
-- Durability of the log of storage/wal.rs: reopening after appends, and after a torn write.
use pgvisor.Prelude.{
  ℕ, ◌+◌, ◌<◌, ◌≡◌, refl, sym, ap, ◌∙◌, ◌⊎◌, inl, inr, Option, none, some, List, [], ◌∷◌, ◌++◌, map,
  length, take, length-append, All, arith,
}
use mathlib.Core.Path.{ap₂}
use mathlib.Core.List.{append_assoc, append-nil}
use pgvisor.Prelude.Maps.Ordered.{BTreeMap}
use pgvisor.Raft.Types.{LogId, Entry}
use pgvisor.Storage.Bytes.{Bytes}
use pgvisor.Storage.Codec.{Codec, IsStorable}
use pgvisor.Storage.Wal.{
  Wal, LogIndexEntry, ok, err, serialization, open_wal, frame, append_entry, append, add_entry,
  header_len,
}
use pgvisor.Storage.Wal.Records.{parse_record-frame, parse_record-torn, length-frame}
use pgvisor.Storage.Wal.Scan.{IsRecord}
use pgvisor.Storage.Wal.Recovery.{
  Rec, Clean, content, index_of, last_id, log_of, open-Clean, open_again, open_any,
}

pub ok_injective : {a b : Wal} → ok a ≡ ok b → a ≡ b
ok_injective h = cc

module _ {M : Type 0} (c : Codec M) where
  -- Opening any file fails because a payload with a good checksum does not decode, or yields a log
  -- whose file is a prefix of the given one, and opening that prefix again yields the same log.
  pub open_wal-prefix :
      (file : Bytes)
      → (open_wal c file ≡ err serialization)
        ⊎ ((w : Wal) × (tail : Bytes) × (open_wal c file ≡ ok w)
            × (file ≡ w.file ++ tail)
            × (open_wal c w.file ≡ ok w))
  unfolding log_of
  open_wal-prefix file = go (open_any c file)
    where
      go :
          (open_wal c file ≡ err serialization)
            ⊎ ((rs : List (Rec c)) × (tail : Bytes) × (file ≡ content c rs ++ tail)
                × Clean c rs
                × (open_wal c file ≡ ok (log_of c rs)))
          → (open_wal c file ≡ err serialization)
            ⊎ ((w : Wal) × (tail : Bytes) × (open_wal c file ≡ ok w)
                × (file ≡ w.file ++ tail)
                × (open_wal c w.file ≡ ok w))
      go (inl e) = inl e
      go (inr (rs, tail, whole, clean, opened)) =
          inr (log_of c rs, tail, opened, whole, open_again c rs clean)

  abbrev pub frames : List (Entry M) → List (Rec c)
  frames = map (λ e. (e, frame c e))

  frame-IsRecord : (e : Entry M) → IsStorable c e → IsRecord c e (frame c e)
  frame-IsRecord e st = (omega (arith, length-frame c e), parse_record-frame c e st)

  pub Clean-frames :
      (rs : List (Rec c)) (es : List (Entry M))
      → Clean c rs
      → All (IsStorable c) es
      → Clean c (rs ++ frames es)
  Clean-frames [] [] clean sts = tt
  Clean-frames [] (e ∷ es) clean sts = (frame-IsRecord e sts.0, Clean-frames [] es tt sts.1)
  Clean-frames (r ∷ rs) es clean sts = (clean.0, Clean-frames rs es clean.1 sts)

  content-append : (rs qs : List (Rec c)) → content c (rs ++ qs) ≡ content c rs ++ content c qs
  unfolding content
  content-append [] qs = refl
  content-append ((e, b) ∷ rs) qs =
      ap (◌++◌ b) (content-append rs qs) ∙ sym (append_assoc b (content c rs) (content c qs))

  index_of-append :
      (index : BTreeMap LogIndexEntry) (offset : ℕ) (rs qs : List (Rec c))
      → index_of c index offset (rs ++ qs)
        ≡ index_of c (index_of c index offset rs) (offset + length (content c rs)) qs
  unfolding index_of content
  index_of-append index offset [] qs = ap (λ n. index_of c index n qs) (omega arith)
  index_of-append index offset ((e, b) ∷ rs) qs =
      let shift : offset + length b + length (content c rs) ≡ offset + length (b ++ content c rs) =
        omega (arith, length-append b (content c rs)) in
      index_of-append (add_entry index offset (length b) e.log_id) (offset + length b) rs qs
      ∙ ap
          (λ n.
            index_of c
              (index_of c (add_entry index offset (length b) e.log_id) (offset + length b) rs) n qs)
          shift

  last_id-append :
      (last : Option LogId) (rs qs : List (Rec c))
      → last_id c last (rs ++ qs) ≡ last_id c (last_id c last rs) qs
  unfolding last_id
  last_id-append last [] qs = refl
  last_id-append last ((e, b) ∷ rs) qs = last_id-append (some e.log_id) rs qs

  -- Appending one entry to a log of records adds its frame as a record.
  append_entry-log_of :
      (rs : List (Rec c)) (e : Entry M)
      → append_entry c (log_of c rs) e ≡ log_of c (rs ++ (e, frame c e) ∷ [])
  unfolding append_entry log_of content index_of last_id
  append_entry-log_of rs e =
      λ i. record { file = whole i; index = entries i; last_log_id = newest i }
    where
      whole : content c rs ++ frame c e ≡ content c (rs ++ (e, frame c e) ∷ [])
      whole = sym (
          content-append rs ((e, frame c e) ∷ [])
          ∙ ap (◌++◌ (content c rs)) (append-nil (frame c e)))

      entries :
          add_entry
            (index_of c [] 0 rs)
            (length (content c rs))
            (header_len + length (c.serialize e))
            e.log_id
          ≡ index_of c [] 0 (rs ++ (e, frame c e) ∷ [])
      entries =
          ap₂ (λ offset n. add_entry (index_of c [] 0 rs) offset n e.log_id)
            {y = 0 + length (content c rs)} (omega arith) (sym (length-frame c e))
          ∙ sym (index_of-append [] 0 rs ((e, frame c e) ∷ []))

      newest : some e.log_id ≡ last_id c none (rs ++ (e, frame c e) ∷ [])
      newest = sym (last_id-append none rs ((e, frame c e) ∷ []))

  pub append-log_of :
      (rs : List (Rec c)) (es : List (Entry M))
      → append c (log_of c rs) es ≡ log_of c (rs ++ frames es)
  unfolding append
  append-log_of rs [] = ap (log_of c) (sym (append-nil rs))
  append-log_of rs (e ∷ es) =
      ap (λ w. append c w es) (append_entry-log_of rs e)
      ∙ append-log_of (rs ++ (e, frame c e) ∷ []) es
      ∙ ap (log_of c) (append_assoc rs ((e, frame c e) ∷ []) (frames es))

  -- A log that was opened is extended by storable entries, and a crash interrupts
  -- the write of one more entry after `k` of its bytes. Opening the file again yields the log as it
  -- was before that entry, with its index and its last log id.
  pub open_wal-append_torn :
      (file : Bytes) (w : Wal) (es : List (Entry M)) (e : Entry M) (k : ℕ)
      → open_wal c file ≡ ok w
      → All (IsStorable c) es
      → IsStorable c e
      → k < length (frame c e)
      → open_wal c ((append c w es).file ++ take k (frame c e)) ≡ ok (append c w es)
  unfolding log_of
  open_wal-append_torn file w es e k opened sts st torn = go (open_any c file)
    where
      go :
          (open_wal c file ≡ err serialization)
            ⊎ ((rs : List (Rec c)) × (tail : Bytes) × (file ≡ content c rs ++ tail)
                × Clean c rs
                × (open_wal c file ≡ ok (log_of c rs)))
          → open_wal c ((append c w es).file ++ take k (frame c e)) ≡ ok (append c w es)
      go (inl fails) = cc (sym opened ∙ fails)
      go (inr (rs, tail, whole, clean, logged)) = rw (logs rs logged) (
          open-Clean c (rs ++ frames es) (take k (frame c e)) (Clean-frames rs es clean sts)
            (parse_record-torn c e st k torn))
        where
          logs :
              (rs : List (Rec c))
              → open_wal c file ≡ ok (log_of c rs)
              → append c w es ≡ log_of c (rs ++ frames es)
          logs rs logged =
              ap (λ v. append c v es) (ok_injective (sym opened ∙ logged)) ∙ append-log_of rs es
