-- ===== src/Storage/Bytes.antt =====
-- Files as lists of bytes, with what the `byteorder` and `std::io` calls of storage/ read and write.
use pgvisor.Prelude.{
  ℕ, zero, suc, ◌+◌, ◌-◌, ◌*◌, ◌/◌, ◌%◌, ◌≤◌, ◌<◌, ◌≡◌, refl, ap, Option, none, some, List, [], ◌∷◌,
  ◌++◌, Bool, true, false, ◌&&◌, eqb, leb, if◌then◌else◌, length, take, drop, length-append,
  take-append_length, drop-append_length, arith,
}

abbrev pub Bytes : Type 0
Bytes = List ℕ

-- Big-endian 32-bit words: `write_u32::<BigEndian>` and `read_u32::<BigEndian>`.
unfoldable pub put_u32 : ℕ → Bytes
put_u32 n = n / 16777216 % 256 ∷ n / 65536 % 256 ∷ n / 256 % 256 ∷ n % 256 ∷ []

unfoldable pub read_u32 : Bytes → ℕ
read_u32 (a ∷ b ∷ c ∷ d ∷ r) = a * 16777216 + b * 65536 + c * 256 + d
read_u32 _ = 0

-- Byte slices compared with `!=`.
unfoldable pub bytes_eq : Bytes → Bytes → Bool
bytes_eq [] [] = true
bytes_eq (a ∷ r) (b ∷ s) = eqb a b && bytes_eq r s
bytes_eq _ _ = false

-- `read_exact` of `n` bytes at the cursor: `none` is `UnexpectedEof`.
unfoldable pub read_exact : ℕ → Bytes → Option (Bytes × Bytes)
read_exact n bytes = if leb n (length bytes) then some (take n bytes, drop n bytes) else none

-- `seek(SeekFrom::Start(at))` and then `read_exact`.
unfoldable pub read_at : ℕ → ℕ → Bytes → Option Bytes
read_at at n file = elim (read_exact n (drop at file)) [ none ↦ none | some (b, rest) ↦ some b ]

pub read_u32-put_u32 : (n : ℕ) → n < 4294967296 → read_u32 (put_u32 n) ≡ n
unfolding read_u32 put_u32
read_u32-put_u32 n h = omega arith

pub length-put_u32 : (n : ℕ) → length (put_u32 n) ≡ 4
unfolding put_u32
length-put_u32 n = refl

pub bytes_eq_refl : (a : Bytes) → bytes_eq a a ≡ true
unfolding bytes_eq
bytes_eq_refl [] = refl
bytes_eq_refl (a ∷ r) = ground (arith, bytes_eq_refl r)

pub read_exact-append : (a r : Bytes) → read_exact (length a) (a ++ r) ≡ some (a, r)
unfolding read_exact
read_exact-append a r =
    ground (arith, length-append a r, take-append_length a r, drop-append_length a r)

pub length-drop : (n : ℕ) (xs : Bytes) → length (drop n xs) ≡ length xs - n
length-drop zero xs = omega arith
length-drop (suc n) [] = omega arith
length-drop (suc n) (x ∷ xs) = omega (arith, length-drop n xs)

pub take-append : (n : ℕ) (xs ys : Bytes) → n ≤ length xs → take n (xs ++ ys) ≡ take n xs
take-append zero xs ys h = refl
take-append (suc n) [] ys h = absurd (omega arith)
take-append (suc n) (x ∷ xs) ys h = ap (◌∷◌ x) (take-append n xs ys (omega arith))

pub drop-append : (n : ℕ) (xs ys : Bytes) → n ≤ length xs → drop n (xs ++ ys) ≡ drop n xs ++ ys
drop-append zero xs ys h = refl
drop-append (suc n) [] ys h = absurd (omega arith)
drop-append (suc n) (x ∷ xs) ys h = drop-append n xs ys (omega arith)

pub append-take-drop : (n : ℕ) (xs : Bytes) → take n xs ++ drop n xs ≡ xs
append-take-drop zero xs = refl
append-take-drop (suc n) [] = refl
append-take-drop (suc n) (x ∷ xs) = ap (◌∷◌ x) (append-take-drop n xs)

-- A read that ends inside a prefix of the file does not see what follows.
pub read_at-append :
    (at n : ℕ) (file more : Bytes)
    → at + n ≤ length file
    → read_at at n (file ++ more) ≡ read_at at n file
unfolding read_at read_exact
read_at-append at n file more h = ground (
  arith,
  drop-append at file more (omega arith),
  length-drop at file,
  length-append (drop at file) more,
  take-append n (drop at file) more (omega (arith, length-drop at file)),
)

pub read_at_end :
    (file a more : Bytes) → read_at (length file) (length a) (file ++ (a ++ more)) ≡ some a
unfolding read_at
read_at_end file a more =
    rw (drop-append_length file (a ++ more), read_exact-append a more, read_at)

pub take-length_add :
    (xs ys : Bytes) (k j : ℕ) → k ≡ length xs + j → take k (xs ++ ys) ≡ xs ++ take j ys
take-length_add [] ys k j e = ap (λ n. take n ys) (omega arith)
take-length_add (x ∷ xs) ys zero j e = absurd (omega arith)
take-length_add (x ∷ xs) ys (suc k) j e = ap (◌∷◌ x) (take-length_add xs ys k j (omega arith))

pub read_exact-put_u32 : (n : ℕ) (r : Bytes) → read_exact 4 (put_u32 n ++ r) ≡ some (put_u32 n, r)
unfolding put_u32
read_exact-put_u32 n r = read_exact-append (put_u32 n) r
