-- ===== src/Protocol/Message/Rows.antt =====
-- The values of a DataRow in protocol/message.rs. `from_utf8_lossy` is a parameter.
use pgvisor.Prelude.{
  ℕ, zero, suc, ◌-◌, ◌^◌, ◌<◌, ◌≡◌, refl, sym, ap, ◌∙◌, false, Option, none, some, List, [], ◌∷◌,
  ◌++◌, ltb, leb, eqb, length, take, drop, All, if◌then◌else◌, take-append_length,
  drop-append_length, length-append, inl, inr, Bool-cases, arith,
}
use mathlib.Core.List.{append_assoc, append-nil}
use pgvisor.Storage.Bytes.{Bytes, put_u32, read_u32}

-- The loop that writes the values: -1 for none, and else the length and the bytes.
unfoldable pub encode_value : Option Bytes → Bytes
encode_value none = put_u32 (2 ^ 32 - 1)
encode_value (some s) = put_u32 (length s) ++ s

unfoldable pub encode_values : List (Option Bytes) → Bytes
encode_values [] = []
encode_values (v ∷ vs) = encode_value v ++ encode_values vs

-- One round of `decode_data_row_values` after the length was read; `rest` is for the next rounds.
unfoldable pub decode_value :
    (Bytes → Bytes) → ℕ → Bytes → (Bytes → List (Option Bytes)) → List (Option Bytes)
decode_value lossy len buf rest =
    if eqb len (2 ^ 32 - 1)
    then none ∷ rest buf
    else if leb (2 ^ 31) len
    then rest buf
    else if ltb (length buf) len
    then []
    else some (lossy (take len buf)) ∷ rest (drop len buf)

unfoldable pub decode_rounds : (Bytes → Bytes) → ℕ → Bytes → List (Option Bytes)
decode_rounds lossy zero buf = []
decode_rounds lossy (suc n) buf =
    let rest = λ (left : Bytes). decode_rounds lossy n left in
    if ltb (length buf) 4 then [] else decode_value lossy (read_u32 buf) (drop 4 buf) rest

-- A negative count has no rounds.
unfoldable pub decode_data_row_values : (Bytes → Bytes) → Bytes → ℕ → List (Option Bytes)
decode_data_row_values lossy bytes field_count =
    if ltb field_count (2 ^ 15) then decode_rounds lossy field_count bytes else []

abbrev pub IsValue : (Bytes → Bytes) → Option Bytes → Type 0
IsValue lossy none = Unit
IsValue lossy (some s) = (length s < 2 ^ 31) × (lossy s ≡ s)

pub read_u32-append : (n : ℕ) (rest : Bytes) → n < 4294967296 → read_u32 (put_u32 n ++ rest) ≡ n
unfolding read_u32 put_u32
read_u32-append n rest h = omega arith

drop-put_u32 : (n : ℕ) (rest : Bytes) → drop 4 (put_u32 n ++ rest) ≡ rest
unfolding put_u32
drop-put_u32 n rest = refl

long_enough : (n : ℕ) (rest : Bytes) → ltb (length (put_u32 n ++ rest)) 4 ≡ false
unfolding put_u32
long_enough n rest = ground arith

decode_value-some :
    (lossy : Bytes → Bytes) (s buf : Bytes) (rest : Bytes → List (Option Bytes))
    → length s < 2 ^ 31
    → lossy s ≡ s
    → decode_value lossy (length s) (s ++ buf) rest ≡ some s ∷ rest buf
unfolding decode_value
decode_value-some lossy s buf rest h l =
    ground (arith, length-append s buf, take-append_length s buf, drop-append_length s buf, l)

decode_rounds-put_u32 :
    (lossy : Bytes → Bytes) (n w : ℕ) (buf : Bytes)
    → w < 4294967296
    → decode_rounds lossy (suc n) (put_u32 w ++ buf)
      ≡ decode_value lossy w buf (λ left. decode_rounds lossy n left)
unfolding decode_rounds
decode_rounds-put_u32 lossy n w buf h =
    rw (long_enough w buf, read_u32-append w buf h, drop-put_u32 w buf) refl

decode_value-none :
    (lossy : Bytes → Bytes) (buf : Bytes) (rest : Bytes → List (Option Bytes))
    → decode_value lossy (2 ^ 32 - 1) buf rest ≡ none ∷ rest buf
unfolding decode_value
decode_value-none lossy buf rest = refl

decode_rounds-encode_values :
    (lossy : Bytes → Bytes) (vs : List (Option Bytes)) (rest : Bytes)
    → All (IsValue lossy) vs
    → decode_rounds lossy (length vs) (encode_values vs ++ rest) ≡ vs
unfolding encode_values encode_value decode_rounds
decode_rounds-encode_values lossy [] rest h = refl
decode_rounds-encode_values lossy (none ∷ vs) rest h =
    ap (decode_rounds lossy (suc (length vs)))
      (append_assoc (put_u32 (2 ^ 32 - 1)) (encode_values vs) rest)
    ∙ decode_rounds-put_u32 lossy (length vs) (2 ^ 32 - 1) (encode_values vs ++ rest) (omega arith)
    ∙ decode_value-none lossy (encode_values vs ++ rest)
        (λ left. decode_rounds lossy (length vs) left)
    ∙ ap (◌∷◌ none) (decode_rounds-encode_values lossy vs rest h.1)
decode_rounds-encode_values lossy (some s ∷ vs) rest h =
    ap (decode_rounds lossy (suc (length vs))) (
      append_assoc (put_u32 (length s) ++ s) (encode_values vs) rest
      ∙ append_assoc (put_u32 (length s)) s (encode_values vs ++ rest))
    ∙ decode_rounds-put_u32 lossy (length vs) (length s) (s ++ (encode_values vs ++ rest))
        (omega (arith, h.0.0))
    ∙ decode_value-some lossy s (encode_values vs ++ rest)
        (λ left. decode_rounds lossy (length vs) left) h.0.0 h.0.1
    ∙ ap (◌∷◌ (some s)) (decode_rounds-encode_values lossy vs rest h.1)

-- The values that were written into a row are read back, the missing ones and the order included.
pub decode_data_row_values-encode_values :
    (lossy : Bytes → Bytes) (vs : List (Option Bytes))
    → length vs < 2 ^ 15
    → All (IsValue lossy) vs
    → decode_data_row_values lossy (encode_values vs) (length vs) ≡ vs
unfolding decode_data_row_values
decode_data_row_values-encode_values lossy vs l h = elim (Bool-cases (ltb (length vs) (2 ^ 15))) [
  | inl few ↦ rw few (
      ap (decode_rounds lossy (length vs)) (sym (append-nil (encode_values vs)))
      ∙ decode_rounds-encode_values lossy vs [] h)
  | inr many ↦ absurd (ground (arith, many, l))
]
