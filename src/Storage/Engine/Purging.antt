-- ===== src/Storage/Engine/Purging.antt =====
-- Purging, votes and restarts of the log store of storage/engine.rs.
use pgvisor.Prelude.{
  ℕ, ◌+◌, ◌≡◌, refl, ap, ◌∙◌, some, List, [], ◌∷◌, ◌++◌, length, take, All, inl, ◌<◌, arith,
}
use pgvisor.Raft.Types.{LogId, Entry}
use pgvisor.Storage.Bytes.{Bytes}
use pgvisor.Storage.Codec.{Codec, IsStorable}
use pgvisor.Storage.Wal
use pgvisor.Storage.Wal.{Wal, Result, ok, err, open_wal, frame, read_entry, purge_upto}
use pgvisor.Storage.Wal.Reading.{Holds, read_range-Holds, read_entry-purge_upto}
use pgvisor.Storage.Wal.Durability.{open_wal-append_torn}
use pgvisor.Storage.Engine.LogStore.{
  LogStore, Json, unbounded, open_store, read_meta_file, persist_meta, index_after, range_start,
  range_end, try_get_log_entries, save_vote, append, purge,
}

module _ {M V : Type 0} (c : Codec M) (json : Json V) where
  -- Entries behind the purge point are still there.
  Holds-purge_upto :
      (w : Wal) (u start : ℕ) (es : List (Entry M))
      → u < start
      → Holds c w start es
      → Holds c (purge_upto w u) start es
  Holds-purge_upto w u start [] behind h = tt
  Holds-purge_upto w u start (e ∷ es) behind h = (
    read_entry-purge_upto c w u start ∙ ground (arith, h.0),
    Holds-purge_upto w u (start + 1) es (omega arith) h.1,
  )

  -- A log holds the entries `es` directly behind the index of `id`, up to its last one. After a
  -- purge up to `id`, reading with no bounds returns exactly these entries, and the store's state
  -- names `id` as purged.
  pub try_get_log_entries-purge :
      (s : LogStore V) (id last : LogId) (es : List (Entry M))
      → Holds c s.wal (id.index + 1) es
      → s.wal.last_log_id ≡ some last
      → last.index ≡ id.index + length es
      → (try_get_log_entries c json (purge c json s id) unbounded unbounded ≡ ok es)
        × ((purge c json s id).meta.last_purged_log_id ≡ some id)
  unfolding try_get_log_entries purge persist_meta range_start range_end index_after purge_upto
  try_get_log_entries-purge s id last es h newest count = (
    ap
          (λ o.
            Wal.read_range c (purge_upto s.wal id.index) (id.index + 1)
              (index_after o (id.index + 1)))
          newest
        ∙ (read_range-Holds c (purge_upto s.wal id.index) (id.index + 1) (last.index + 1) es
            (Holds-purge_upto s.wal id.index (id.index + 1) es (omega arith) h) (omega arith)
            (inl (omega arith))),
    refl,
  )

  -- A store saves a vote, then appends storable entries to a log that was opened from its file, and
  -- the process stops after `k` bytes of a further entry. If the metadata reads back, opening the
  -- store again finds the vote, the purge point and the log as they were before that entry.
  pub open_store-append_torn :
      (s : LogStore V) (vote : V) (file : Bytes) (es : List (Entry M)) (e : Entry M) (k : ℕ)
      → json.from_str (json.to_vec (save_vote c json s vote).meta)
        ≡ some (save_vote c json s vote).meta
      → open_wal c file ≡ ok s.wal
      → All (IsStorable c) es
      → IsStorable c e
      → k < length (frame c e)
      → open_store c json
          ((append c json (save_vote c json s vote) es).wal.file ++ take k (frame c e))
          (append c json (save_vote c json s vote) es).meta_file
        ≡ ok (append c json (save_vote c json s vote) es)
  unfolding open_store append save_vote persist_meta read_meta_file
  open_store-append_torn s vote file es e k parses opened sts st torn =
      rw (open_wal-append_torn c file s.wal es e k opened sts st torn, parses, read_meta_file)
