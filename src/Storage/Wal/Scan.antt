-- ===== src/Storage/Wal/Scan.antt =====
-- The scan of `Wal::open` in storage/wal.rs over any bytes: intact records, then damage.
use pgvisor.Prelude.{
  ℕ, ◌+◌, ◌≤◌, ◌≡◌, sym, ap, ◌∙◌, subst, ◌⊎◌, inl, inr, none, some, ◌++◌, length, length-take, take,
  length-append, Bool-cases, Option-cases, arith,
}
use mathlib.Core.List.{append_assoc}
use pgvisor.Raft.Types.{Entry}
use pgvisor.Storage.Bytes.{Bytes, bytes_eq, read_exact, read_exact-append, append-take-drop}
use pgvisor.Storage.Codec.{Codec}
use pgvisor.Storage.Wal.{
  wal_magic, header_len, parsed, decode_payload, parse_payload, parse_header, parse_record,
}

read_exact_inv :
    (n : ℕ) (b x y : Bytes) → read_exact n b ≡ some (x, y) → (b ≡ x ++ y) × (length x ≡ n)
unfolding read_exact
read_exact_inv n b x y h = ground (arith, append-take-drop n b, length-take n b)

module _ {M : Type 0} (c : Codec M) where
  -- These bytes are one record, whatever follows them.
  abbrev pub IsRecord : Entry M → Bytes → Type 0
  IsRecord e b =
      (header_len ≤ length b) × ((r : Bytes) → parse_record c (b ++ r) ≡ parsed e (length b) r)

  payload_eof :
      (n crc : ℕ) {e : Entry M} {total : ℕ} {r : Bytes}
      → parse_payload c n crc none ≡ parsed e total r
      → ⊥
  unfolding parse_payload
  payload_eof n crc h = cc

  payload_ok :
      (n crc : ℕ) (p r₀ : Bytes) {e : Entry M} {total : ℕ} {r : Bytes}
      → parse_payload c n crc (some (p, r₀)) ≡ parsed e total r
      → (r₀ ≡ r)
        × (total ≡ header_len + n)
        × ((s : Bytes) → parse_payload c n crc (some (p, s)) ≡ parsed e total s)
  unfolding parse_payload decode_payload
  payload_ok n crc p r₀ h = (ground arith, ground arith, λ s. ground arith)

  payload_inv :
      (n crc : ℕ) (b : Bytes) {e : Entry M} {total : ℕ} {r : Bytes}
      → parse_payload c n crc (read_exact n b) ≡ parsed e total r
      → (p : Bytes) × (b ≡ p ++ r)
        × (total ≡ header_len + length p)
        × ((s : Bytes) → parse_payload c n crc (read_exact n (p ++ s)) ≡ parsed e total s)
  payload_inv n crc b {e} {total} {r} h = go (Option-cases (read_exact n b))
    where
      go :
          (read_exact n b ≡ none) ⊎ ((pr : Bytes × Bytes) × (read_exact n b ≡ some pr))
          → (p : Bytes) × (b ≡ p ++ r)
            × (total ≡ header_len + length p)
            × ((s : Bytes) → parse_payload c n crc (read_exact n (p ++ s)) ≡ parsed e total s)
      go (inl eof) = absurd (payload_eof n crc (rw eof at h))
      go (inr ((p, r₀), got)) =
          let inv = read_exact_inv n b p r₀ got in
          let good = payload_ok n crc p r₀ (rw got at h) in
          (
            p,
            inv.0 ∙ ap (◌++◌ p) good.0,
            omega arith,
            λ s.
                ap (parse_payload c n crc)
                  (subst (λ k. read_exact k (p ++ s) ≡ some (p, s)) inv.1 (read_exact-append p s))
                ∙ good.2 s,
          )

  header_inv :
      (hd b : Bytes) {e : Entry M} {total : ℕ} {r : Bytes}
      → parse_header c (some (hd, b)) ≡ parsed e total r
      → (p : Bytes) × (b ≡ p ++ r)
        × (total ≡ header_len + length p)
        × ((s : Bytes) → parse_header c (some (hd, p ++ s)) ≡ parsed e total s)
  unfolding parse_header
  header_inv hd b h = elim (Bool-cases (bytes_eq (take 4 hd) wal_magic)) [
    | inl good ↦ rw good (payload_inv _ _ b (rw good at h))
    | inr bad ↦ cc (rw bad at h)
  ]

  header_eof : {e : Entry M} {total : ℕ} {r : Bytes} → parse_header c none ≡ parsed e total r → ⊥
  unfolding parse_header
  header_eof h = cc

  -- What the scan accepts is a record in front of the rest.
  pub IsRecord-inv :
      (b : Bytes) {e : Entry M} {total : ℕ} {r : Bytes}
      → parse_record c b ≡ parsed e total r
      → (x : Bytes) × (b ≡ x ++ r) × (total ≡ length x) × IsRecord e x
  unfolding parse_record
  IsRecord-inv b {e} {total} {r} h = go (Option-cases (read_exact header_len b))
    where
      go :
          (read_exact header_len b ≡ none)
            ⊎ ((pr : Bytes × Bytes) × (read_exact header_len b ≡ some pr))
          → (x : Bytes) × (b ≡ x ++ r) × (total ≡ length x) × IsRecord e x
      go (inl eof) = absurd (header_eof (rw eof at h))
      go (inr ((hd, b'), got)) =
          let inv = read_exact_inv header_len b hd b' got in
          let (p, split, size, any) = header_inv hd b' (rw got at h) in
          let whole : length (hd ++ p) ≡ total = omega (arith, length-append hd p) in
          (
            hd ++ p,
            inv.0 ∙ ap (◌++◌ hd) split ∙ sym (append_assoc hd p r),
            sym whole,
            (
              omega (arith, length-append hd p),
              λ s.
                  ap (parse_record c) (append_assoc hd p s)
                  ∙ ap (parse_header c) (
                      subst (λ k. read_exact k (hd ++ (p ++ s)) ≡ some (hd, p ++ s)) inv.1
                        (read_exact-append hd (p ++ s)))
                  ∙ any s
                  ∙ ap (λ t. parsed e t s) (sym whole),
            ),
          )
