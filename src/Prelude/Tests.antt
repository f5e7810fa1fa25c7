-- ===== src/Prelude/Tests.antt =====
-- Boolean tests, and equality of keys as an interface.
use Prim.Native.Nat.{ℕ, ◌≤◌, ◌<◌, compare, Ordering}
use Prim.Native.String.{String}
use mathlib.Core.Path.{◌≡◌, refl, sym, ◌∙◌, subst}
use mathlib.Core.Logic.{◌≢◌, ◌⊎◌, inl, inr, ◌↔◌}
use mathlib.Core.Bool.{Bool, true, false, ◌&&◌, ◌||◌}
use mathlib.Core.Option.{Option, none, some}
use native.Mathlib.Omega.{arith}
use text.Mathlib.Text.{◌==◌ as str_beq}
use text.Mathlib.TextEquality.{eq_iff}

abbrev pub ltb : ℕ → ℕ → Bool
ltb a b = elim (compare a b) [ Ordering.lt ↦ true | _ ↦ false ]

abbrev pub leb : ℕ → ℕ → Bool
leb a b = elim (compare a b) [ Ordering.gt ↦ false | _ ↦ true ]

abbrev pub eqb : ℕ → ℕ → Bool
eqb a b = elim (compare a b) [ Ordering.eq ↦ true | _ ↦ false ]

infix 1 if◌then◌else◌
abbrev pub if◌then◌else◌ {ℓ} : {A : Type ℓ} → Bool → A → A → A
if true then x else y = x
if false then x else y = y

pub if_elim {ℓ κ} :
    {A : Type ℓ} (P : A → Type κ) (b : Bool) {x y : A}
    → (b ≡ true → P x)
    → (b ≡ false → P y)
    → P (if b then x else y)
if_elim P true f g = f refl
if_elim P false f g = g refl

pub eqb_iff : (a b : ℕ) → (eqb a b ≡ true) ↔ (a ≡ b)
eqb_iff a b = (λ h. ground arith, λ h. ground arith)

pub ltb_iff : (a b : ℕ) → (ltb a b ≡ true) ↔ (a < b)
ltb_iff a b = (λ h. ground arith, λ h. ground arith)

pub leb_iff : (a b : ℕ) → (leb a b ≡ true) ↔ (a ≤ b)
leb_iff a b = (λ h. ground arith, λ h. ground arith)

pub Bool-cases : (b : Bool) → (b ≡ true) ⊎ (b ≡ false)
Bool-cases true = inl refl
Bool-cases false = inr refl

pub Option-cases {ℓ} : {A : Type ℓ} (o : Option A) → (o ≡ none) ⊎ ((a : A) × (o ≡ some a))
Option-cases none = inl refl
Option-cases (some a) = inr (a, refl)

-- `Eq` of the keys and texts that the program compares.
pub record Key {ℓ} (K : Type ℓ) : Type ℓ where
  pub same : K → K → Bool
  pub same_refl : (k : K) → same k k ≡ true
  pub same_sound : (j k : K) → same j k ≡ true → j ≡ k

module _ {ℓ} {K : Type ℓ} ⦃keys : Key K⦄ where
  infix 50 ◌==◌
  abbrev pub ◌==◌ : K → K → Bool
  j == k = keys.same j k

  pub same_iff : (j k : K) → (j == k ≡ true) ↔ (j ≡ k)
  same_iff j k = (keys.same_sound j k, λ e. subst (λ i. j == i ≡ true) e (keys.same_refl j))

instance abbrev pub number_key : Key ℕ
number_key = record {
  same = eqb;
  same_refl = λ k. (eqb_iff k k).1 refl;
  same_sound = λ j k. (eqb_iff j k).0;
}

instance abbrev pub text_key : Key String
text_key = record {
  same = str_beq;
  same_refl = λ k. (eq_iff k k).1 refl;
  same_sound = λ j k. (eq_iff j k).0;
}

pub both : (a b : Bool) → a && b ≡ true → (a ≡ true) × (b ≡ true)
both true b e = (refl, e)
both false b e = absurd (ground (arith, e))

pub neither : (a b : Bool) → a || b ≡ false → (a ≡ false) × (b ≡ false)
neither true b e = absurd (ground (arith, e))
neither false b e = (refl, e)

module _ {ℓ} {K : Type ℓ} ⦃keys : Key K⦄ where
  pub differs : (a b : K) → a == b ≡ false → a ≢ b
  differs a b e h = absurd (ground (arith, sym e ∙ (same_iff a b).1 h))
