-- ===== src/Prelude/Texts.antt =====
-- Rust's `str` as its characters' numbers, and what the program calls on it.
use Prim.Native.Nat.{ℕ, ◌-◌}
use Prim.Native.Char.{code}
use Prim.Native.String.{String, [] as empty, ◌∷◌ as cons}
use mathlib.Core.Path.{◌≡◌, refl, ap, ◌∙◌}
use mathlib.Core.Bool.{Bool, true, false, ◌&&◌, ◌||◌}
use mathlib.Core.Option.{Option, none, some}
use mathlib.Core.List.{List, [], ◌∷◌, map}
use native.Mathlib.Omega.{arith}
use pgvisor.Prelude.Tests.{Key, eqb, eqb_iff, leb, if◌then◌else◌, Bool-cases}
use mathlib.Core.Logic.{inl, inr}
use pgvisor.Prelude.Lists.{is_empty}

abbrev pub Text : Type 0
Text = List ℕ

abbrev pub text : String → Text
text empty = []
text (cons c s) = code c ∷ text s

abbrev pub same_text : Text → Text → Bool
same_text [] [] = true
same_text [] (d ∷ t) = false
same_text (c ∷ s) [] = false
same_text (c ∷ s) (d ∷ t) = eqb c d && same_text s t

pub same_text_refl : (s : Text) → same_text s s ≡ true
same_text_refl [] = refl
same_text_refl (c ∷ s) = ground (arith, eqb_iff c c, same_text_refl s)

pub same_text_sound : (s t : Text) → same_text s t ≡ true → s ≡ t
same_text_sound [] [] e = refl
same_text_sound [] (d ∷ t) e = absurd (ground (arith, e))
same_text_sound (c ∷ s) [] e = absurd (ground (arith, e))
same_text_sound (c ∷ s) (d ∷ t) e = elim (Bool-cases (eqb c d)) [
  | inl here ↦
      ap (λ x. x ∷ s) ((eqb_iff c d).0 here)
      ∙ ap (◌∷◌ d) (same_text_sound s t (ground (arith, e, here)))
  | inr there ↦ absurd (ground (arith, e, there))
]

instance abbrev pub chars_key : Key Text
chars_key = record { same = same_text; same_refl = same_text_refl; same_sound = same_text_sound }

-- Unicode's `White_Space`.
unfoldable pub is_whitespace : ℕ → Bool
is_whitespace c =
    (leb 9 c && leb c 13)
    || eqb c 32
    || eqb c 133
    || eqb c 160
    || eqb c 5760
    || (leb 8192 c && leb c 8202)
    || eqb c 8232
    || eqb c 8233
    || eqb c 8239
    || eqb c 8287
    || eqb c 12288

unfoldable pub trim_start : Text → Text
trim_start [] = []
trim_start (c ∷ s) = if is_whitespace c then trim_start s else c ∷ s

-- Without the characters at the end that pass a test.
unfoldable pub trim_end_by : (ℕ → Bool) → Text → Text
trim_end_by test [] = []
trim_end_by test (c ∷ s) =
    let rest = trim_end_by test s in if is_empty rest && test c then [] else c ∷ rest

unfoldable pub trim : Text → Text
trim s = trim_end_by is_whitespace (trim_start s)

-- `trim_end_matches(';')`
unfoldable pub trim_semicolons : Text → Text
trim_semicolons s = trim_end_by (eqb 59) s

unfoldable pub take_word : Text → Text
take_word [] = []
take_word (c ∷ s) = let rest = take_word s in if is_whitespace c then [] else c ∷ rest

unfoldable pub drop_word : Text → Text
drop_word [] = []
drop_word (c ∷ s) = if is_whitespace c then c ∷ s else drop_word s

-- `split_whitespace().next()` and `nth(1)`, empty where there is none.
unfoldable pub first_word : Text → Text
first_word s = take_word (trim_start s)

unfoldable pub second_word : Text → Text
second_word s = first_word (drop_word (trim_start s))

unfoldable pub starts_with : Text → Text → Bool
starts_with s [] = true
starts_with [] (d ∷ sought) = false
starts_with (c ∷ s) (d ∷ sought) = eqb c d && starts_with s sought

-- `s.contains(sought)`
unfoldable pub contains_text : Text → Text → Bool
contains_text [] sought = is_empty sought
contains_text (c ∷ s) sought = starts_with (c ∷ s) sought || contains_text s sought

-- `str::lines`; a carriage return stays, as every line is trimmed.
unfoldable pub push_char : ℕ → List Text → List Text
push_char c [] = (c ∷ []) ∷ []
push_char c (line ∷ lines) = (c ∷ line) ∷ lines

unfoldable pub split_lines : Text → List Text
split_lines [] = []
split_lines (c ∷ s) = let rest = split_lines s in if eqb c 10 then [] ∷ rest else push_char c rest

unfoldable pub strip_prefix : Text → Text → Option Text
strip_prefix s [] = some s
strip_prefix [] (d ∷ sought) = none
strip_prefix (c ∷ s) (d ∷ sought) = if eqb c d then strip_prefix s sought else none

unfoldable pub upper_char : ℕ → ℕ
upper_char c = if leb 97 c && leb c 122 then c - 32 else c

unfoldable pub to_ascii_uppercase : Text → Text
to_ascii_uppercase s = map upper_char s

-- Upper case keeps the tests that classification makes.
pub upper_char-is_whitespace : (c : ℕ) → is_whitespace (upper_char c) ≡ is_whitespace c
unfolding is_whitespace upper_char
upper_char-is_whitespace c = ground arith

pub upper_char-semicolon : (c : ℕ) → eqb 59 (upper_char c) ≡ eqb 59 c
unfolding upper_char
upper_char-semicolon c = ground arith

pub upper_char_twice : (c : ℕ) → upper_char (upper_char c) ≡ upper_char c
unfolding upper_char
upper_char_twice c = ground arith
