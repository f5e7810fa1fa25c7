-- ===== src/Prelude/Decimals.antt =====
-- Decimal printing of unsigned numbers, plain and padded with zeros to eight digits.
use Prim.Native.Nat.{ℕ, zero, suc, ◌+◌, ◌-◌, ◌*◌, ◌/◌, ◌%◌, ◌<◌}
use mathlib.Core.Path.{◌≡◌, refl, sym, ap, ◌∙◌}
use mathlib.Core.Bool.{false}
use mathlib.Core.List.{[], ◌∷◌, ◌++◌}
use native.Mathlib.Omega.{arith}
use pgvisor.Prelude.Tests.{ltb, if◌then◌else◌, if_elim}
use pgvisor.Prelude.Lists.{length}
use pgvisor.Prelude.Texts.{Text}

-- The first argument is fuel: more than the number is enough.
unfoldable pub print_digits : ℕ → ℕ → Text → Text
print_digits zero n later = later
print_digits (suc fuel) n later =
    let rest = print_digits fuel (n / 10) ((48 + n % 10) ∷ later) in
    if ltb n 10 then (48 + n) ∷ later else rest

unfoldable pub decimal : ℕ → Text
decimal n = print_digits (suc n) n []

unfoldable pub zeros : ℕ → Text
zeros zero = []
zeros (suc n) = 48 ∷ zeros n

-- `{:08}`
unfoldable pub decimal8 : ℕ → Text
decimal8 n = zeros (8 - length (decimal n)) ++ decimal n

-- The number that digits stand for, after those already read.
abbrev value : ℕ → Text → ℕ
value n [] = n
value n (c ∷ s) = value (n * 10 + (c - 48)) s

value-print_digits :
    (fuel n : ℕ) (later : Text) → n < fuel → value 0 (print_digits fuel n later) ≡ value n later
unfolding print_digits
value-print_digits zero n later h = absurd (omega arith)
value-print_digits (suc fuel) n later h =
    if_elim (λ t. value 0 t ≡ value n later) (ltb n 10) (λ e. ap (λ k. value k later) (small n))
      (λ e.
        value-print_digits fuel (n / 10) ((48 + n % 10) ∷ later) (fewer n fuel e h)
        ∙ ap (λ k. value k later) (split n))
  where
    small : (n : ℕ) → 0 * 10 + (48 + n - 48) ≡ n
    small n = omega arith

    split : (n : ℕ) → n / 10 * 10 + (48 + n % 10 - 48) ≡ n
    split n = omega arith

    fewer : (n fuel : ℕ) → ltb n 10 ≡ false → n < suc fuel → n / 10 < fuel
    fewer n fuel e h = ground (arith, e)

value-zeros : (n : ℕ) (s : Text) → value 0 (zeros n ++ s) ≡ value 0 s
unfolding zeros
value-zeros zero s = refl
value-zeros (suc n) s = value-zeros n s

value-decimal8 : (n : ℕ) → value 0 (decimal8 n) ≡ n
unfolding decimal8 decimal
value-decimal8 n =
    value-zeros (8 - length (decimal n)) (decimal n) ∙ value-print_digits (suc n) n [] (omega arith)

-- Different numbers are printed differently.
pub decimal8-injective : (m n : ℕ) → decimal8 m ≡ decimal8 n → m ≡ n
decimal8-injective m n e = sym (value-decimal8 m) ∙ ap (value 0) e ∙ value-decimal8 n
