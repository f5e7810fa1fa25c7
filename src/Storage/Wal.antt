-- ===== src/Storage/Wal.antt =====
-- crates/pgvisor-core/src/storage/wal.rs. The file is its bytes; the calls of the operating system
-- succeed, and a crash is a file that ends early. Offsets do not reach 2^64.
pub mod Records
pub mod Scan
pub mod Recovery
pub mod Durability
pub mod Layout
pub mod Reading
pub mod Appending
mod Examples
use pgvisor.Prelude.{
  ℕ, zero, suc, ◌+◌, ◌-◌, ◌%◌, Option, none, some, List, [], ◌∷◌, ◌++◌, not, ltb, eqb,
  if◌then◌else◌, length, take, drop,
}
use pgvisor.Prelude.Maps.Ordered
use pgvisor.Prelude.Maps.Ordered.{BTreeMap}
use pgvisor.Raft.Types.{LogId, Entry}
use pgvisor.Storage.Bytes.{Bytes, put_u32, read_u32, bytes_eq, read_exact, read_at}
use pgvisor.Storage.Codec.{Codec}

-- b"PGV1"
abbrev pub wal_magic : Bytes
wal_magic = b'P' ∷ b'G' ∷ b'V' ∷ b'1' ∷ []

abbrev pub header_len : ℕ
header_len = 12

pub record LogIndexEntry : Type 0 where
  pub file_offset : ℕ
  pub total_record_len : ℕ
  pub log_id : LogId

pub record Wal : Type 0 where
  pub file : Bytes
  pub index : BTreeMap LogIndexEntry
  pub last_log_id : Option LogId

-- The variants of `StorageError` that the log returns; `out_of_fuel` is the model's own.
pub data Error : Type 0 where
  io serialization out_of_fuel : Error

pub data Result {ℓ} (A : Type ℓ) : Type ℓ where
  ok : A → Result A
  err : Error → Result A

infixl 5 ◌>>=◌
abbrev pub ◌>>=◌ {ℓ κ} : {A : Type ℓ} {B : Type κ} → Result A → (A → Result B) → Result B
ok a >>= f = f a
err e >>= f = err e

-- The bytes at the cursor: a record, with its length and the bytes behind it, or damage at which
-- the log is cut off, or a payload that its checksum accepts and `bincode` does not.
pub data Parsed (M : Type 0) : Type 0 where
  damaged : Parsed M
  undecodable : Parsed M
  parsed : Entry M → ℕ → Bytes → Parsed M

unfoldable pub add_entry : BTreeMap LogIndexEntry → ℕ → ℕ → LogId → BTreeMap LogIndexEntry
add_entry index offset total log_id =
    Ordered.insert log_id.index
      (record { file_offset = offset; total_record_len = total; log_id = log_id }) index

module _ {M : Type 0} (c : Codec M) where
  unfoldable pub decode_payload : Option (Entry M) → ℕ → Bytes → Parsed M
  decode_payload none total rest = undecodable
  decode_payload (some e) total rest = parsed e total rest

  -- Behind the header, at its payload length and its checksum.
  unfoldable pub parse_payload : ℕ → ℕ → Option (Bytes × Bytes) → Parsed M
  parse_payload payload_len expected_crc none = damaged
  parse_payload payload_len expected_crc (some (payload, rest)) =
      if not (eqb (c.crc32 payload) expected_crc)
      then damaged
      else decode_payload (c.deserialize payload) (header_len + payload_len) rest

  unfoldable pub parse_header : Option (Bytes × Bytes) → Parsed M
  parse_header none = damaged
  parse_header (some (header, rest)) =
      if not (bytes_eq (take 4 header) wal_magic)
      then damaged
      else let payload_len = read_u32 (take 4 (drop 4 header)) in
        let expected_crc = read_u32 (drop 8 header) in
        parse_payload payload_len expected_crc (read_exact payload_len rest)

  -- One round of the scan, from the header to the decoded entry.
  unfoldable pub parse_record : Bytes → Parsed M
  parse_record bytes = parse_header (read_exact header_len bytes)

  -- The scan of `open`: `rest` is what lies behind the cursor, which stands at `offset`.
  unfoldable pub scan : ℕ → Bytes → ℕ → Bytes → BTreeMap LogIndexEntry → Option LogId → Result Wal
  scan zero file offset rest index last = err out_of_fuel
  scan (suc fuel) file offset rest index last =
      let next = λ (e : Entry M) (total : ℕ) (rest' : Bytes).
        scan fuel file (offset + total) rest' (add_entry index offset total e.log_id)
          (some e.log_id) in
      let round : Result Wal = elim (parse_record rest) [
        | damaged ↦ ok (record { file = take offset file; index = index; last_log_id = last })
        | undecodable ↦ err serialization
        | parsed e total rest' ↦ next e total rest'
      ] in
      if ltb offset (length file)
      then round
      else ok (record { file = file; index = index; last_log_id = last })

  unfoldable pub open_wal : Bytes → Result Wal
  open_wal file = scan (suc (length file)) file 0 file [] none

  -- The bytes of one record; the length is cast to 32 bits.
  unfoldable pub frame : Entry M → Bytes
  frame e =
      let payload = c.serialize e in
      wal_magic ++ (put_u32 (length payload % 4294967296) ++ (put_u32 (c.crc32 payload) ++ payload))

  unfoldable pub append_entry : Wal → Entry M → Wal
  append_entry w e = record {
    file = w.file ++ frame e;
    index = add_entry w.index (length w.file) (header_len + length (c.serialize e)) e.log_id;
    last_log_id = some e.log_id;
  }

  unfoldable pub append : Wal → List (Entry M) → Wal
  append w [] = w
  append w (e ∷ es) = append (append_entry w e) es

  unfoldable pub decode_entry : Option Bytes → Result (Option (Entry M))
  decode_entry none = err io
  decode_entry (some payload) = elim (c.deserialize payload) [
    | none ↦ err serialization
    | some e ↦ ok (some e)
  ]

  unfoldable pub read_meta : Bytes → Option LogIndexEntry → Result (Option (Entry M))
  read_meta file none = ok none
  read_meta file (some meta) =
      decode_entry
        (read_at (meta.file_offset + header_len) (meta.total_record_len - header_len) file)

  unfoldable pub read_entry : Wal → ℕ → Result (Option (Entry M))
  read_entry w index = read_meta w.file (Ordered.get w.index index)

  -- `for index in start..start + count`, which stops at the first index without an entry.
  unfoldable pub read_from : Wal → ℕ → ℕ → Result (List (Entry M))
  read_from w start zero = ok []
  read_from w start (suc count) =
      let more = read_from w (start + 1) count in
      read_entry w start >>= elim [ none ↦ ok [] | some e ↦ more >>= λ es. ok (e ∷ es) ]

  unfoldable pub read_range : Wal → ℕ → ℕ → Result (List (Entry M))
  read_range w start end = read_from w start (end - start)

  unfoldable pub first_log_id : Wal → Option LogId
  first_log_id w = elim (Ordered.first_value w.index) [ none ↦ none | some m ↦ some m.log_id ]

unfoldable pub last_of : BTreeMap LogIndexEntry → Option LogId
last_of index = elim (Ordered.last_value index) [ none ↦ none | some m ↦ some m.log_id ]

unfoldable pub truncate_since : Wal → ℕ → Wal
truncate_since w since_index = elim (Ordered.first_from w.index since_index) [
  | none ↦ w
  | some (first_key, meta) ↦ record {
    file = take meta.file_offset w.file;
    index = Ordered.split_off w.index first_key;
    last_log_id = last_of (Ordered.split_off w.index first_key);
  }
]

unfoldable pub purge_upto : Wal → ℕ → Wal
purge_upto w upto_index = record w { index = Ordered.remove_upto w.index upto_index }

unfoldable pub len : Wal → ℕ
len w = length w.index
