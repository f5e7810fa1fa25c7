-- ===== src/Storage/Wal/Records.antt =====
-- Single records of the log of storage/wal.rs: what `append` writes is what the scan reads.
use pgvisor.Prelude.{
  none, ℕ, ◌+◌, ◌%◌, ◌<◌, ◌≡◌, refl, ap, ◌∙◌, some, ◌++◌, length, length-take, ◌-◌, take, drop,
  arith,
}
use native.Mathlib.Decide.{dec_lt}
use pgvisor.Raft.Types.{Entry}
use pgvisor.Storage.Bytes.{
  Bytes, put_u32, read_u32, read_exact, read_exact-append, read_u32-put_u32, bytes_eq_refl,
  take-length_add,
}
use pgvisor.Storage.Codec.{Codec, IsStorable}
use pgvisor.Storage.Wal.{
  damaged, wal_magic, header_len, parsed, parse_payload, parse_header, parse_record, decode_payload,
  frame,
}

module _ {M : Type 0} (c : Codec M) where
  pub header : Entry M → Bytes
  header e =
      wal_magic
      ++ (put_u32 (length (c.serialize e) % 4294967296) ++ put_u32 (c.crc32 (c.serialize e)))

  pub length-frame : (e : Entry M) → length (frame c e) ≡ header_len + length (c.serialize e)
  unfolding frame put_u32
  length-frame e = omega arith

  pub frame-header : (e : Entry M) (r : Bytes) → frame c e ++ r ≡ header e ++ (c.serialize e ++ r)
  unfolding frame header put_u32
  frame-header e r = refl

  pub length-header : (e : Entry M) → length (header e) ≡ header_len
  unfolding header put_u32
  length-header e = refl

  pub frame_split : (e : Entry M) → frame c e ≡ header e ++ c.serialize e
  unfolding frame header put_u32
  frame_split e = refl

  module _ (e : Entry M) (storable : IsStorable c e) where
    payload_step :
        (r : Bytes)
        → parse_payload c
            (length (c.serialize e))
            (c.crc32 (c.serialize e))
            (some (c.serialize e, r))
          ≡ parsed e (length (frame c e)) r
    unfolding parse_payload decode_payload
    payload_step r = ground (arith, storable.decodes, length-frame e)

    magic : take 4 (header e) ≡ wal_magic
    unfolding header
    magic = refl

    payload_len : read_u32 (take 4 (drop 4 (header e))) ≡ length (c.serialize e)
    unfolding header put_u32
    payload_len =
        read_u32-put_u32 (length (c.serialize e) % 4294967296) (omega arith)
        ∙ omega (arith, storable.fits)

    checksum : read_u32 (drop 8 (header e)) ≡ c.crc32 (c.serialize e)
    unfolding header put_u32
    checksum = read_u32-put_u32 (c.crc32 (c.serialize e)) storable.crc32_bound

    -- The header of a frame is read back as the payload's length and its checksum.
    header_step :
        (b : Bytes)
        → parse_header c (some (header e, b))
          ≡ parse_payload c
              (length (c.serialize e))
              (c.crc32 (c.serialize e))
              (read_exact (length (c.serialize e)) b)
    unfolding parse_header
    header_step b = rw (magic, bytes_eq_refl wal_magic, payload_len, checksum)

    read_header : (b : Bytes) → read_exact header_len (header e ++ b) ≡ some (header e, b)
    unfolding header put_u32
    read_header b = read_exact-append (header e) b

    -- Whatever lies behind it, a frame is parsed into its entry, its own length and the rest.
    pub parse_record-frame :
        (r : Bytes) → parse_record c (frame c e ++ r) ≡ parsed e (length (frame c e)) r
    unfolding parse_record
    parse_record-frame r =
        ap (parse_record c) (frame-header e r)
        ∙ ap (parse_header c) (read_header (c.serialize e ++ r))
        ∙ header_step (c.serialize e ++ r)
        ∙ ap (parse_payload c _ _) (read_exact-append (c.serialize e) r)
        ∙ payload_step r

    short : (n : ℕ) (b : Bytes) → length b < n → read_exact n b ≡ none
    unfolding read_exact
    short n b h = ground arith

    payload_short :
        (n crc : ℕ) (b : Bytes) → length b < n → parse_payload c n crc (read_exact n b) ≡ damaged
    unfolding parse_payload
    payload_short n crc b h = rw (short n b h)

    torn_payload :
        (j : ℕ)
        → j < length (c.serialize e)
        → parse_record c (header e ++ take j (c.serialize e)) ≡ damaged
    unfolding parse_record
    torn_payload j h =
        ap (parse_header c) (read_header (take j (c.serialize e)))
        ∙ header_step (take j (c.serialize e))
        ∙ payload_short _ _ (take j (c.serialize e)) (omega (arith, length-take j (c.serialize e)))

    torn_header : (b : Bytes) → length b < header_len → parse_record c b ≡ damaged
    unfolding parse_record parse_header
    torn_header b h = rw (short header_len b h)

    -- A frame that was not written to its end is damage.
    pub parse_record-torn :
        (k : ℕ) → k < length (frame c e) → parse_record c (take k (frame c e)) ≡ damaged
    parse_record-torn k h = elim (dec_lt k header_len) [
      | yes p ↦ torn_header (take k (frame c e)) (omega (arith, length-take k (frame c e)))
      | no p ↦
          let j = k - header_len in
          ap (λ f. parse_record c (take k f)) (frame_split e)
          ∙ ap (parse_record c)
              (take-length_add (header e) (c.serialize e) k j (omega (arith, length-header e)))
          ∙ torn_payload j (omega (arith, length-frame e))
    ]
