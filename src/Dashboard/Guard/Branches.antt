-- ===== src/Dashboard/Guard/Branches.antt =====
-- Lemmas on the results and tests of dashboard/security.rs.
use pgvisor.Prelude.{◌≡◌, refl, sym, ap, Bool, true, false, not, if◌then◌else◌, arith}
use pgvisor.Prelude.Texts.{Text}
use pgvisor.Dashboard.Guard.{SecurityError, Result, ok, err}

-- A branch that was not taken, and the one that was.
pub refused_else :
    (b : Bool) (e : SecurityError) (r : Result Text) (s : Text)
    → (if b then err e else r) ≡ ok s
    → (b ≡ false) × (r ≡ ok s)
refused_else true e r s h = absurd (ground (arith, h))
refused_else false e r s h = (refl, h)

pub ok-injective : (a b : Text) → ok a ≡ ok b → a ≡ b
ok-injective a b e = ap (λ r. elim r [ err x ↦ a | ok x ↦ x ]) e

pub unless-true : (b : Bool) → not b ≡ false → b ≡ true
unless-true true e = refl
unless-true false e = sym e
