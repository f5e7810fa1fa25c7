-- ===== src/Protocol/Message/RoundTrip.antt =====
-- What protocol/message.rs writes it reads back.
use mathlib.Core.List.{append_assoc}
use native.Mathlib.Nat.{mod-eq_of_lt}
use pgvisor.Prelude.{
  ◌||◌, ℕ, suc, ◌+◌, ◌^◌, ◌≤◌, ◌<◌, ◌≡◌, refl, sym, ap, ◌∙◌, subst, Bool, false, Option, none, some,
  List, [], ◌∷◌, ◌++◌, eqb, length, take, drop, All, if◌then◌else◌, length-append,
  take-append_length, drop-append_length, arith,
}
use pgvisor.Storage.Bytes.{Bytes, put_u32, length-put_u32}
use pgvisor.Protocol.Message.Wire.{
  PgBackend, Pgwire, message, as_usize, frame_len, is_short, tag_of, split_frame, IsFrame,
}
use pgvisor.Protocol.Message.Rows.{IsValue, decode_data_row_values-encode_values, read_u32-append}
use pgvisor.Protocol.Message.Initial.{unwrap_or_zero}
use pgvisor.Protocol.Message.Frontend.{
  raw, raw_frame, by_tag, decode_frontend, put_raw, encode_frontend, by_pgwire, expect_query,
  expect_terminate, expect_sync, expect_flush,
}
use pgvisor.Protocol.Message.Backend.{
  BackendMessage, authentication_md5_password, data_row, find_message, salt_of, from_authentication,
  from_backend, by_decoder, decode_backend, to_backend, encode_as, encode_backend,
}

-- The bytes of a frame, before the rest of the input.
abbrev pub frame : ℕ → Bytes → Bytes
frame tag body = tag ∷ (put_u32 (length body + 4) ++ body)

pub frame_len-frame :
    (tag : ℕ) (body rest : Bytes)
    → length body + 4 < 2 ^ 31
    → frame_len (frame tag body ++ rest) ≡ length body + 5
unfolding frame_len as_usize
frame_len-frame tag body rest h = ground (
  arith,
  append_assoc (put_u32 (length body + 4)) body rest,
  read_u32-append (length body + 4) (body ++ rest),
)

length-frame :
    (tag : ℕ) (body rest : Bytes) → length (frame tag body ++ rest) ≡ length body + 5 + length rest
length-frame tag body rest = omega (
  arith,
  length-append (put_u32 (length body + 4) ++ body) rest,
  length-append (put_u32 (length body + 4)) body,
  length-put_u32 (length body + 4),
)

pub is_short-frame :
    (tag : ℕ) (body rest : Bytes)
    → length body + 4 < 2 ^ 31
    → is_short (frame tag body ++ rest) ≡ false
unfolding is_short
is_short-frame tag body rest h =
    ground (arith, length-frame tag body rest, frame_len-frame tag body rest h)

-- The strings and the salt have the form that their types in the program promise.
abbrev pub IsFaithful : (Bytes → Bytes) → BackendMessage → Type 0
IsFaithful lossy (authentication_md5_password salt) = length salt ≡ 4
IsFaithful lossy (data_row values) = (length values < 2 ^ 15) × All (IsValue lossy) values
IsFaithful lossy _ = Unit

abbrev Returns : (Bytes → Bytes) → ℕ → BackendMessage → Option PgBackend → Type 0
Returns lossy tag m none = Unit
Returns lossy tag m (some w) = from_backend lossy tag w ≡ m

take-length_all : (xs : Bytes) → take (length xs) xs ≡ xs
take-length_all [] = refl
take-length_all (x ∷ xs) = ap (◌∷◌ x) (take-length_all xs)

salt_of-four : (salt : Bytes) → length salt ≡ 4 → salt_of salt ≡ salt
unfolding salt_of
salt_of-four salt h = ground (arith, h, subst (λ n. take n salt ≡ salt) h (take-length_all salt))

to_backend-Returns :
    (lossy : Bytes → Bytes) (tag : ℕ) (m : BackendMessage)
    → IsFaithful lossy m
    → Returns lossy tag m (to_backend m)
unfolding to_backend from_backend from_authentication find_message unwrap_or_zero
to_backend-Returns lossy tag (authentication_md5_password salt) h =
    ap authentication_md5_password (salt_of-four salt h)
to_backend-Returns lossy tag (data_row values) h =
    ap data_row (
      rw (mod-eq_of_lt (few values h.0))
        (decode_data_row_values-encode_values lossy values h.0 h.1))
  where
    few : (vs : List (Option Bytes)) → length vs < 2 ^ 15 → length vs < 2 ^ 16
    few vs h = omega arith
to_backend-Returns lossy tag (BackendMessage.raw t payload) h = tt
to_backend-Returns lossy tag _ h = refl

decode_backend-frame :
    (pg : Pgwire) (lossy : Bytes → Bytes) (w : PgBackend) (rest : Bytes)
    (f : IsFrame pg.encode_backend pg.decode_backend w)
    → decode_backend pg lossy (pg.encode_backend w ++ rest)
      ≡ message (from_backend lossy (tag_of (pg.encode_backend w ++ rest)) w) rest
unfolding decode_backend by_decoder
decode_backend-frame pg lossy w rest f =
    rw
      (
        subst (λ b. is_short (b ++ rest) ≡ false) (sym f.layout)
            (is_short-frame f.tag f.body rest f.fits),
        f.reads rest,
      )
      refl

-- A message of the server that pgwire can write, the values of a row and the salt included, is read
-- back as it was, and the input that follows it is left.
pub decode_backend-encode_backend :
    (pg : Pgwire) (lossy : Bytes → Bytes) (m : BackendMessage) (w : PgBackend) (rest : Bytes)
    → to_backend m ≡ some w
    → IsFrame pg.encode_backend pg.decode_backend w
    → IsFaithful lossy m
    → decode_backend pg lossy (encode_backend pg m ++ rest) ≡ message m rest
unfolding encode_backend encode_as
decode_backend-encode_backend pg lossy m w rest e f h =
    ap (λ o. decode_backend pg lossy (encode_as pg o m ++ rest)) e
    ∙ decode_backend-frame pg lossy w rest f
    ∙ ap (λ x. message x rest)
        (subst (Returns lossy (tag_of (pg.encode_backend w ++ rest)) m) e
          (to_backend-Returns lossy (tag_of (pg.encode_backend w ++ rest)) m h))

-- Past the header, as it computes.
split_at_five :
    (n : ℕ) (src payload rest : Bytes)
    → n + 5 ≤ length src
    → drop 5 (take (n + 5) src) ≡ payload
    → drop (n + 5) src ≡ rest
    → split_frame (n + 5) src ≡ some (payload, rest)
unfolding split_frame
split_at_five n src payload rest l t d = ground (arith, l, t, d)

split_frame-frame :
    (tag : ℕ) (body rest : Bytes)
    → split_frame (length body + 5) (frame tag body ++ rest) ≡ some (body, rest)
unfolding put_u32
split_frame-frame tag body rest =
    let five : length body + 5 ≡ suc (suc (suc (suc (suc (length body))))) = omega arith in
    split_at_five (length body) (frame tag body ++ rest) body rest
      (omega (arith, length-frame tag body rest)) (rw five (take-append_length body rest))
      (rw five (drop-append_length body rest))

-- The tags that pgwire decodes for a client's messages.
abbrev pub is_pgwire_tag : ℕ → Bool
is_pgwire_tag tag = eqb tag 81 || eqb tag 88 || eqb tag 83 || eqb tag 72

skip_four :
    {A : Type 0} (a b c d : Bool) (u v w x y : A)
    → a || b || c || d ≡ false
    → (if a then u else if b then v else if c then w else if d then x else y) ≡ y
skip_four a b c d u v w x y e = ground (arith, e)

pub by_tag-raw :
    (pg : Pgwire) (tag : ℕ) (src : Bytes)
    → is_pgwire_tag tag ≡ false
    → by_tag pg tag src ≡ raw_frame tag (split_frame (frame_len src) src)
unfolding by_tag
by_tag-raw pg tag src t =
    skip_four (eqb tag 81) (eqb tag 88) (eqb tag 83) (eqb tag 72)
      (by_pgwire expect_query (pg.decode_frontend src))
      (by_pgwire expect_terminate (pg.decode_frontend src))
      (by_pgwire expect_sync (pg.decode_frontend src))
      (by_pgwire expect_flush (pg.decode_frontend src))
      (raw_frame tag (split_frame (frame_len src) src)) t

-- A client's message with any other tag is passed on as it came: its tag and its payload are read
-- back, and the input that follows is left.
pub decode_frontend-raw :
    (pg : Pgwire) (tag : ℕ) (payload rest : Bytes)
    → is_pgwire_tag tag ≡ false
    → length payload + 4 < 2 ^ 31
    → decode_frontend pg (encode_frontend pg (raw tag payload) ++ rest)
      ≡ message (raw tag payload) rest
unfolding decode_frontend encode_frontend put_raw tag_of raw_frame
decode_frontend-raw pg tag payload rest t h = rw (is_short-frame tag payload rest h) (
    by_tag-raw pg tag (frame tag payload ++ rest) t
    ∙ ap (λ n. raw_frame tag (split_frame n (frame tag payload ++ rest)))
        (frame_len-frame tag payload rest h)
    ∙ ap (raw_frame tag) (split_frame-frame tag payload rest))
