-- ===== src/Proxy/Session/Framing.antt =====
-- `extract_backend_frame` of proxy/src/session.rs on whole frames and on parts of them.
use pgvisor.Prelude.{
  ℕ, ◌+◌, ◌^◌, ◌≤◌, ◌<◌, ◌≡◌, refl, sym, ap, ◌∙◌, Option, none, some, [], ◌∷◌, ◌++◌, length, take,
  drop, if_elim, length-append, take-append_length, drop-append_length, arith,
}
use pgvisor.Storage.Bytes.{Bytes, put_u32, read_u32, length-put_u32}
use pgvisor.Protocol.Message.Wire.{as_usize, frame_len, is_short, tag_of}
use pgvisor.Protocol.Message.RoundTrip.{frame, frame_len-frame, is_short-frame}
use pgvisor.Proxy.Session.{Frame, extract_backend_frame}

-- A frame as the protocol lays it out.
pub record IsWhole (f : Frame) : Type 0 where
  pub body : Bytes
  pub fits : length body + 4 < 2 ^ 31
  pub layout : f.bytes ≡ frame f.tag body

frame_len-append : (buf rest : Bytes) → 5 ≤ length buf → frame_len (buf ++ rest) ≡ frame_len buf
unfolding frame_len as_usize read_u32
frame_len-append (t ∷ a ∷ b ∷ c ∷ d ∷ buf) rest h = refl
frame_len-append [] rest h = absurd (omega (arith, h))
frame_len-append (t ∷ []) rest h = absurd (omega (arith, h))
frame_len-append (t ∷ a ∷ []) rest h = absurd (omega (arith, h))
frame_len-append (t ∷ a ∷ b ∷ []) rest h = absurd (omega (arith, h))
frame_len-append (t ∷ a ∷ b ∷ c ∷ []) rest h = absurd (omega (arith, h))

pub length-whole : (f : Frame) (i : IsWhole f) → length f.bytes ≡ length i.body + 5
length-whole f i =
    ap length i.layout
    ∙ omega (
      arith,
      length-append (put_u32 (length i.body + 4)) i.body,
      length-put_u32 (length i.body + 4),
    )

frame_len-whole :
    (f : Frame) (i : IsWhole f) (rest : Bytes) → frame_len (f.bytes ++ rest) ≡ length f.bytes
frame_len-whole f i rest =
    ap (λ (b : Bytes). frame_len (b ++ rest)) i.layout
    ∙ frame_len-frame f.tag i.body rest i.fits
    ∙ sym (length-whole f i)

-- A complete frame is taken off.
pub extract_backend_frame-whole :
    (f : Frame)
    → IsWhole f
    → (rest : Bytes) → extract_backend_frame (f.bytes ++ rest) ≡ some (f, rest)
unfolding extract_backend_frame tag_of
extract_backend_frame-whole f i rest =
    if_elim (λ (r : Option (Frame × Bytes)). r ≡ some (f, rest)) (is_short (f.bytes ++ rest))
      (λ e. absurd (
        ground (
          arith,
          e,
          ap (λ (b : Bytes). is_short (b ++ rest)) i.layout
              ∙ is_short-frame f.tag i.body rest i.fits,
        )))
      (λ e.
        ap
          (λ n. some (
            record { tag = tag_of (f.bytes ++ rest); bytes = take n (f.bytes ++ rest) },
            drop n (f.bytes ++ rest),
          ))
          (frame_len-whole f i rest)
        ∙ ap
            (λ t. some (
              record { tag = t; bytes = take (length f.bytes) (f.bytes ++ rest) },
              drop (length f.bytes) (f.bytes ++ rest),
            ))
            (ap (λ (b : Bytes). tag_of (b ++ rest)) i.layout)
        ∙ ap
            (λ b. some (record { tag = f.tag; bytes = b }, drop (length f.bytes) (f.bytes ++ rest)))
            (take-append_length f.bytes rest)
        ∙ ap (λ b. some (f, b)) (drop-append_length f.bytes rest))

-- A part of a frame is left for later.
pub extract_backend_frame-part :
    (f : Frame)
    → IsWhole f
    → (buf rest tail : Bytes) → buf ++ rest ≡ f.bytes ++ tail
    → length buf < length f.bytes
    → extract_backend_frame buf ≡ none
unfolding extract_backend_frame is_short
extract_backend_frame-part f i buf rest tail e h =
    if_elim (λ (r : Option (Frame × Bytes)). r ≡ none) (is_short buf) (λ s. refl)
      (λ s.
        let enough : 5 ≤ length buf = ground (arith, s) in
        let same : frame_len buf ≡ length f.bytes =
          sym (frame_len-append buf rest enough) ∙ ap frame_len e ∙ frame_len-whole f i tail in
        absurd (ground (arith, s, same, h)))

-- A buffer that holds a frame begins with it.
pub split_off :
    (f buf rest tail : Bytes)
    → buf ++ rest ≡ f ++ tail
    → length f ≤ length buf
    → (later : Bytes) × (buf ≡ f ++ later) × (later ++ rest ≡ tail)
split_off [] buf rest tail e h = (buf, refl, e)
split_off (x ∷ f) [] rest tail e h = absurd (omega (arith, h))
split_off (x ∷ f) (y ∷ buf) rest tail e h =
    let found : (later : Bytes) × (buf ≡ f ++ later) × (later ++ rest ≡ tail) =
      split_off f buf rest tail (ap (drop 1) e) (omega (arith, h)) in
    (found.0, ap (λ b. y ∷ b) found.1 ∙ ap (λ z. z ∷ (f ++ found.0)) (ap tag_of_list e), found.2)
  where
    tag_of_list : Bytes → ℕ
    tag_of_list [] = 0
    tag_of_list (z ∷ zs) = z
