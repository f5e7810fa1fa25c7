-- ===== src/Storage/Codec.antt =====
-- What storage/ takes from other crates: `crc32fast` and `bincode` over log entries.
use pgvisor.Prelude.{ℕ, ◌<◌, ◌≡◌, Option, some, length}
use pgvisor.Raft.Types.{Entry}
use pgvisor.Storage.Bytes.{Bytes}

pub record Codec (M : Type 0) : Type 0 where
  pub crc32 : Bytes → ℕ
  pub serialize : Entry M → Bytes
  pub deserialize : Bytes → Option (Entry M)

-- What the two crates document, for one entry: the checksum has 32 bits and decoding undoes
-- encoding; and the payload's length fits the 32 bits of the record header.
pub record IsStorable {M : Type 0} (c : Codec M) (e : Entry M) : Type 0 where
  pub crc32_bound : c.crc32 (c.serialize e) < 4294967296
  pub decodes : c.deserialize (c.serialize e) ≡ some e
  pub fits : length (c.serialize e) < 4294967296
