-- ===== src/Prelude/Maps/Assoc.antt =====
-- `HashMap` and the string-keyed `BTreeMap`, whose order the program never reads.
use mathlib.Core.Path.{◌≡◌, refl, ap}
use mathlib.Core.Bool.{Bool}
use mathlib.Core.Option.{Option, none, some}
use mathlib.Core.Logic.{inl, inr}
use mathlib.Core.List.{List, [], ◌∷◌}
use native.Mathlib.Omega.{arith}
use pgvisor.Prelude.Tests.{Key, same_iff, ◌==◌, if◌then◌else◌, Bool-cases}

abbrev pub Assoc {ℓ κ} : Type ℓ → Type κ → Type (ℓ ⊔ κ)
Assoc K V = List (K × V)

module _ {ℓ κ} {K : Type ℓ} {V : Type κ} ⦃keys : Key K⦄ where
  unfoldable pub get : Assoc K V → K → Option V
  get [] k = none
  get ((j, v) ∷ m) k = if j == k then some v else get m k

  -- The value of a key that is there is replaced where it stands.
  unfoldable pub insert : Assoc K V → K → V → Assoc K V
  insert [] k v = (k, v) ∷ []
  insert ((j, w) ∷ m) k v = if j == k then (j, v) ∷ m else (j, w) ∷ insert m k v

  unfoldable pub remove : Assoc K V → K → Assoc K V
  remove [] k = []
  remove ((j, w) ∷ m) k = let kept = remove m k in if j == k then kept else (j, w) ∷ kept

  -- `retain(|k, _| test(k))`
  unfoldable pub retain : Assoc K V → (K → Bool) → Assoc K V
  retain [] test = []
  retain ((j, w) ∷ m) test = let kept = retain m test in if test j then (j, w) ∷ kept else kept

  pub get-insert :
      (m : Assoc K V) (k j : K) (v : V)
      → get (insert m k v) j ≡ (if k == j then some v else get m j)
  unfolding get insert
  get-insert [] k j v = refl
  get-insert ((i, w) ∷ m) k j v =
      ground (arith, get-insert m k j v, same_iff i k, same_iff i j, same_iff k j)

  pub get-remove :
      (m : Assoc K V) (k j : K) → get (remove m k) j ≡ (if k == j then none else get m j)
  unfolding get remove
  get-remove [] k j = ground arith
  get-remove ((i, w) ∷ m) k j =
      ground (arith, get-remove m k j, same_iff i k, same_iff i j, same_iff k j)

  pub get-retain :
      (m : Assoc K V) (test : K → Bool) (j : K)
      → get (retain m test) j ≡ (if test j then get m j else none)
  unfolding get retain
  get-retain [] test j = ground arith
  get-retain ((i, w) ∷ m) test j = elim (Bool-cases (i == j)) [
    | inl here ↦ ground (arith, ap test (keys.same_sound i j here), get-retain m test j)
    | inr there ↦ ground (arith, get-retain m test j)
  ]
