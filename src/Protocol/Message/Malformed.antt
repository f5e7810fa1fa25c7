-- ===== src/Protocol/Message/Malformed.antt =====
-- Lengths that no frame has, in protocol/message.rs.
use pgvisor.Prelude.{
  ℕ, ◌+◌, ◌%◌, ◌^◌, ◌≤◌, ◌<◌, ◌≡◌, ◌↔◌, refl, sym, ap, subst, ◌∙◌, inl, inr, false, none, ◌∷◌, ◌++◌,
  ltb, ltb_iff, length, Bool-cases, length-append, arith,
}
use pgvisor.Storage.Bytes.{Bytes, put_u32, length-put_u32}
use pgvisor.Protocol.Message.Wire.{
  Pgwire, panic, as_usize, frame_len, is_short, tag_of, split_frame,
}
use pgvisor.Protocol.Message.Rows.{read_u32-append}
use pgvisor.Protocol.Message.Frontend.{raw_frame, decode_frontend}
use pgvisor.Protocol.Message.RoundTrip.{is_pgwire_tag, by_tag-raw}

header_length :
    (tag word : ℕ) (rest : Bytes) → length (tag ∷ (put_u32 word ++ rest)) ≡ 5 + length rest
header_length tag word rest = omega (arith, length-append (put_u32 word) rest, length-put_u32 word)

frame_len-put_u32 :
    (tag word : ℕ) (rest : Bytes)
    → word < 2 ^ 32
    → frame_len (tag ∷ (put_u32 word ++ rest)) ≡ (1 + as_usize word) % 2 ^ 64
unfolding frame_len
frame_len-put_u32 tag word rest h =
    ap (λ n. (1 + as_usize n) % 2 ^ 64) (read_u32-append word rest h)

split_frame-none : (n : ℕ) (src : Bytes) → n < 5 → split_frame n src ≡ none
unfolding split_frame
split_frame-none n src h = ground (arith, h)

-- A length below four, or minus one.
short_word : (word : ℕ) → word < 2 ^ 32 → (word + 1) % 2 ^ 32 < 5 → (1 + as_usize word) % 2 ^ 64 < 5
unfolding as_usize
short_word word h l = ground arith

long_word : (word : ℕ) → word < 2 ^ 32 → (1 + as_usize word) % 2 ^ 64 < 5 → (word + 1) % 2 ^ 32 < 5
unfolding as_usize
long_word word h l = ground arith

raw_frame-panic :
    (tag n : ℕ) (src : Bytes)
    → ltb (length src) n ≡ false
    → raw_frame tag (split_frame n src) ≡ panic
    → n < 5
unfolding split_frame raw_frame
raw_frame-panic tag n src l e = elim (Bool-cases (ltb n 5)) [
  | inl small ↦ (ltb_iff n 5).0 small
  | inr large ↦ absurd (ground (arith, l, large, e))
]

raw_frame-small : (tag n : ℕ) (src : Bytes) → n < 5 → raw_frame tag (split_frame n src) ≡ panic
unfolding raw_frame
raw_frame-small tag n src h = rw (split_frame-none n src h) refl

-- A client's message whose tag pgwire does not decode, and of which as much is there as its length
-- says, stops the session by a panic exactly if that length is below four or minus one.
pub decode_frontend-panic_iff :
    (pg : Pgwire) (tag word : ℕ) (rest : Bytes)
    → is_pgwire_tag tag ≡ false
    → word < 2 ^ 32
    → (1 + as_usize word) % 2 ^ 64 ≤ 5 + length rest
    → (decode_frontend pg (tag ∷ (put_u32 word ++ rest)) ≡ panic) ↔ ((word + 1) % 2 ^ 32 < 5)
unfolding decode_frontend is_short tag_of
decode_frontend-panic_iff pg tag word rest t h l =
    let src : Bytes = tag ∷ (put_u32 word ++ rest) in
    let n = frame_len-put_u32 tag word rest h in
    let long = header_length tag word rest in
    let whole : ltb (length src) (frame_len src) ≡ false = ground (arith, n, long, l) in
    let header : ltb (length src) 5 ≡ false = ground (arith, long) in
    let raw_case : decode_frontend pg src ≡ raw_frame tag (split_frame (frame_len src) src) =
      rw (header, whole) (by_tag-raw pg tag src t) in
    (
      λ e.
          long_word word h (
            subst (λ k. k < 5) n
              (raw_frame-panic tag (frame_len src) src whole (sym raw_case ∙ e))),
      λ s.
          raw_case
          ∙ raw_frame-small tag (frame_len src) src
              (subst (λ k. k < 5) (sym n) (short_word word h s)),
    )
