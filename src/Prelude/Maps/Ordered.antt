-- ===== src/Prelude/Maps/Ordered.antt =====
-- `BTreeMap<u64, V>`: an association list in ascending order of its keys.
use Prim.Native.Nat.{ℕ, ◌+◌, ◌≤◌}
use mathlib.Core.Path.{◌≡◌, refl}
use mathlib.Core.Option.{Option, none, some}
use mathlib.Core.List.{List, [], ◌∷◌}
use native.Mathlib.Omega.{arith}
use pgvisor.Prelude.Tests.{eqb, ltb, leb, if◌then◌else◌}

abbrev pub BTreeMap {ℓ} : Type ℓ → Type ℓ
BTreeMap V = List (ℕ × V)

module _ {ℓ} {V : Type ℓ} where
  unfoldable pub get : BTreeMap V → ℕ → Option V
  get [] k = none
  get ((j, v) ∷ m) k = if eqb j k then some v else get m k

  -- Before the first larger key; an equal key is replaced.
  unfoldable pub insert : ℕ → V → BTreeMap V → BTreeMap V
  insert k v [] = (k, v) ∷ []
  insert k v ((j, w) ∷ m) =
      if ltb k j then (k, v) ∷ (j, w) ∷ m else if eqb k j then (k, v) ∷ m else (j, w) ∷ insert k v m

  -- `range(k..).next()`
  unfoldable pub first_from : BTreeMap V → ℕ → Option (ℕ × V)
  first_from [] k = none
  first_from ((j, v) ∷ m) k = if leb k j then some (j, v) else first_from m k

  -- What `split_off(&k)` leaves in the map: the keys below `k`.
  unfoldable pub split_off : BTreeMap V → ℕ → BTreeMap V
  split_off [] k = []
  split_off ((j, v) ∷ m) k = let rest = split_off m k in if ltb j k then (j, v) ∷ rest else rest

  -- The keys of `range(..=k)` removed.
  unfoldable pub remove_upto : BTreeMap V → ℕ → BTreeMap V
  remove_upto [] k = []
  remove_upto ((j, v) ∷ m) k = let rest = remove_upto m k in if leb j k then rest else (j, v) ∷ rest

  -- `values().next()` and `values().next_back()`
  unfoldable pub first_value : BTreeMap V → Option V
  first_value [] = none
  first_value ((j, v) ∷ m) = some v

  unfoldable pub last_value : BTreeMap V → Option V
  last_value [] = none
  last_value ((j, v) ∷ []) = some v
  last_value ((j, v) ∷ n ∷ m) = last_value (n ∷ m)

  -- Keys ascend, and all are above a bound.
  abbrev pub Above : ℕ → BTreeMap V → Type 0
  Above b [] = Unit
  Above b ((j, v) ∷ m) = (b ≤ j) × Above (j + 1) m

  pub Above-weaken : (a b : ℕ) (m : BTreeMap V) → a ≤ b → Above b m → Above a m
  Above-weaken a b [] h k = tt
  Above-weaken a b ((j, v) ∷ m) h k = (omega arith, k.1)

  pub get-insert :
      (k j : ℕ) (v : V) (m : BTreeMap V)
      → get (insert k v m) j ≡ (if eqb k j then some v else get m j)
  unfolding get insert
  get-insert k j v [] = refl
  get-insert k j v ((i, w) ∷ m) = ground (arith, get-insert k j v m)

  pub get-remove_upto :
      (k j : ℕ) (m : BTreeMap V) → get (remove_upto m k) j ≡ (if leb j k then none else get m j)
  unfolding get remove_upto
  get-remove_upto k j [] = ground arith
  get-remove_upto k j ((i, w) ∷ m) = ground (arith, get-remove_upto k j m)

  pub get-split_off :
      (k j : ℕ) (m : BTreeMap V) → get (split_off m k) j ≡ (if ltb j k then get m j else none)
  unfolding get split_off
  get-split_off k j [] = ground arith
  get-split_off k j ((i, w) ∷ m) = ground (arith, get-split_off k j m)

  pub insert-Above : (b k : ℕ) (v : V) (m : BTreeMap V) → b ≤ k → Above b m → Above b (insert k v m)
  unfolding insert
  insert-Above b k v [] h a = (h, tt)
  insert-Above b k v ((j, w) ∷ m) h a = ground (arith, insert-Above (j + 1) k v m)
