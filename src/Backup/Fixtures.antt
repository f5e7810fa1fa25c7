-- ===== src/Backup/Fixtures.antt =====
-- An object store for examples: a list of objects, the latest first, whose writes succeed.
use pgvisor.Prelude.{
  ◌≡◌, ◌≢◌, refl, sym, ap, ◌∙◌, subst, Bool, true, false, Option, none, some, List, [], ◌∷◌, ◌++◌,
  eqb, ◌==◌, if◌then◌else◌, if_elim, Bool-cases, All, inl, inr, arith, eqb_iff, same_iff,
  Option-cases,
}
use pgvisor.Prelude.Texts.{Text, chars_key, same_text_refl}
use pgvisor.Storage.Bytes.{Bytes}
use pgvisor.Backup.Store.{Read, found, not_found, Entry, Operator, IsObjectStore}

abbrev pub Bucket : Type 0
Bucket = List (Text × Bytes)

abbrev pub get : Bucket → Text → Read
get [] k = not_found
get (o ∷ os) k = if o.0 == k then found o.1 else get os k

abbrev pub is_found : Read → Bool
is_found (found v) = true
is_found r = false

abbrev pub remove : Bucket → Text → Bucket
remove [] k = []
remove (o ∷ os) k = let rest = remove os k in if o.0 == k then rest else o ∷ rest

abbrev pub strip_prefix : Text → Text → Option Text
strip_prefix [] s = some s
strip_prefix (c ∷ prefix) [] = none
strip_prefix (c ∷ prefix) (d ∷ s) = if eqb c d then strip_prefix prefix s else none

abbrev pub with_entry : Text → Option Text → List Entry → List Entry
with_entry path none rest = rest
with_entry path (some name) rest = record { path = path; name = name } ∷ rest

abbrev pub entries : Bucket → Text → List Entry
entries [] prefix = []
entries (o ∷ os) prefix = with_entry o.0 (strip_prefix prefix o.0) (entries os prefix)

abbrev pub bucket : Operator
bucket = record {
  Store = Bucket;
  write = λ s k v. record { store = (k, v) ∷ s; is_ok = true };
  read = get;
  exists = λ s k. some (is_found (get s k));
  list = λ s prefix. some (entries s prefix);
  delete = remove;
}

get-remove : (s : Bucket) (k j : Text) → j ≢ k → get (remove s k) j ≡ get s j
get-remove [] k j d = refl
get-remove (o ∷ os) k j d = elim (Bool-cases (o.0 == k)) [
  | inl e ↦
      if_elim (λ (b : Bucket). get b j ≡ get (o ∷ os) j) (o.0 == k)
        (λ g.
          get-remove os k j d
          ∙ skip (o.0 == j) (λ h. d (sym ((same_iff o.0 j).0 h) ∙ (same_iff o.0 k).0 e)))
        (λ g. absurd (ground (arith, e, g)))
  | inr e ↦
      if_elim (λ (b : Bucket). get b j ≡ get (o ∷ os) j) (o.0 == k)
        (λ g. absurd (ground (arith, e, g)))
        (λ g. ap (λ r. if o.0 == j then found o.1 else r) (get-remove os k j d))
]
  where
    skip : (b : Bool) → b ≢ true → get os j ≡ (if b then found o.1 else get os j)
    skip true h = absurd (h refl)
    skip false h = refl

strip_prefix-append :
    (prefix path name : Text) → strip_prefix prefix path ≡ some name → path ≡ prefix ++ name
strip_prefix-append [] path name h = ap (λ o. elim o [ none ↦ [] | some n ↦ n ]) h
strip_prefix-append (c ∷ prefix) [] name h = absurd (ground (arith, h))
strip_prefix-append (c ∷ prefix) (d ∷ path) name h = elim (Bool-cases (eqb c d)) [
  | inl e ↦
      ap (λ x. x ∷ path) (sym ((eqb_iff c d).0 e))
      ∙ ap (◌∷◌ c) (
          strip_prefix-append prefix path name
            (ap (λ b. if b then strip_prefix prefix path else none) (sym e) ∙ h))
  | inr e ↦
      absurd (ground (arith, ap (λ b. if b then strip_prefix prefix path else none) (sym e) ∙ h))
]

entries-path :
    (s : Bucket) (prefix : Text) → All (λ (e : Entry). e.path ≡ prefix ++ e.name) (entries s prefix)
entries-path [] prefix = tt
entries-path (o ∷ os) prefix = elim (Option-cases (strip_prefix prefix o.0)) [
  | inl e ↦
      subst (λ r. Fits (with_entry o.0 r (entries os prefix))) (sym e) (entries-path os prefix)
  | inr (name, e) ↦
      subst (λ r. Fits (with_entry o.0 r (entries os prefix))) (sym e)
        (strip_prefix-append prefix o.0 name e, entries-path os prefix)
]
  where
    Fits : List Entry → Type 0
    Fits es = All (λ (e : Entry). e.path ≡ prefix ++ e.name) es

pub bucket-IsObjectStore : IsObjectStore bucket
bucket-IsObjectStore = record {
  read-write = λ s k v h.
      if_elim (λ (r : Read). r ≡ found v) (k == k) (λ e. refl)
        (λ e. absurd (ground (arith, e, same_text_refl k)));
  exists-read =
      λ s k v b h e. sym (ap (λ o. elim o [ none ↦ true | some c ↦ c ]) e) ∙ ap is_found h;
  read-write_other = λ s k j v d.
      if_elim (λ (r : Read). r ≡ get s j) (k == j) (λ e. absurd (d (sym ((same_iff k j).0 e))))
        (λ e. refl);
  read-delete_other = get-remove;
  list-path = λ s prefix es h.
      subst
        (λ o. elim o [ none ↦ Unit | some l ↦ All (λ (e : Entry). e.path ≡ prefix ++ e.name) l ]) h
        (entries-path s prefix);
}
