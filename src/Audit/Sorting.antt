-- ===== src/Audit/Sorting.antt =====
-- The order and the number of the events that core/audit.rs puts into its ring at a start.
use pgvisor.Prelude.{
  ◌≡◌, refl, ◌⊎◌, inl, inr, true, ℕ, zero, suc, ◌-◌, ◌≤◌, ◌<◌, List, [], ◌∷◌, ltb, leb, eqb, length,
  drop, if_elim, All, All-map, arith,
}
use pgvisor.Audit.{AuditEvent}
use pgvisor.Audit.Ring.{length-drop}
use pgvisor.Audit.Loading.{insert_by_id, sort_by_id, dedup_after, dedup_by_id, fitting, for_ring}

abbrev NotBelow : ℕ → List AuditEvent → Type 0
NotBelow n es = All (λ (e : AuditEvent). n ≤ e.id) es

abbrev pub Above : ℕ → List AuditEvent → Type 0
Above n es = All (λ (e : AuditEvent). n < e.id) es

abbrev IsSorted : List AuditEvent → Type 0
IsSorted [] = Unit
IsSorted (e ∷ es) = NotBelow e.id es × IsSorted es

-- Each id is above the one before it.
abbrev pub IsAscending : List AuditEvent → Type 0
IsAscending [] = Unit
IsAscending (e ∷ es) = Above e.id es × IsAscending es

NotBelow-weaken : (m n : ℕ) (es : List AuditEvent) → m ≤ n → NotBelow n es → NotBelow m es
NotBelow-weaken m n es h = All-map _ _ es (λ e a. omega (arith, a, h))

Above-weaken : (m n : ℕ) (es : List AuditEvent) → m ≤ n → Above n es → Above m es
Above-weaken m n es h = All-map _ _ es (λ e a. omega (arith, a, h))

insert_by_id-All {κ} :
    (P : AuditEvent → Type κ) (e : AuditEvent) (es : List AuditEvent)
    → P e
    → All P es
    → All P (insert_by_id e es)
unfolding insert_by_id
insert_by_id-All P e [] p a = (p, tt)
insert_by_id-All P e (f ∷ es) p a =
    if_elim (All P) (leb e.id f.id) (λ first. (p, a))
      (λ later. (a.0, insert_by_id-All P e es p a.1))

insert_by_id-IsSorted :
    (e : AuditEvent) (es : List AuditEvent) → IsSorted es → IsSorted (insert_by_id e es)
unfolding insert_by_id
insert_by_id-IsSorted e [] h = (tt, tt)
insert_by_id-IsSorted e (f ∷ es) h =
    if_elim IsSorted (leb e.id f.id)
      (λ first.
        let le : e.id ≤ f.id = ground (arith, first) in
        ((le, NotBelow-weaken e.id f.id es le h.0), h))
      (λ later.
        let ge : f.id ≤ e.id = ground (arith, later) in
        (
          insert_by_id-All (λ (g : AuditEvent). f.id ≤ g.id) e es ge h.0,
          insert_by_id-IsSorted e es h.1,
        ))

sort_by_id-IsSorted : (es : List AuditEvent) → IsSorted (sort_by_id es)
unfolding sort_by_id
sort_by_id-IsSorted [] = tt
sort_by_id-IsSorted (e ∷ es) = insert_by_id-IsSorted e (sort_by_id es) (sort_by_id-IsSorted es)

sort_by_id-All {κ} :
    (P : AuditEvent → Type κ) (es : List AuditEvent) → All P es → All P (sort_by_id es)
unfolding sort_by_id
sort_by_id-All P [] a = tt
sort_by_id-All P (e ∷ es) a = insert_by_id-All P e (sort_by_id es) a.0 (sort_by_id-All P es a.1)

dedup_after-IsAscending :
    (last : AuditEvent) (es : List AuditEvent)
    → NotBelow last.id es
    → IsSorted es
    → Above last.id (dedup_after last es) × IsAscending (dedup_after last es)
unfolding dedup_after
dedup_after-IsAscending last [] b h = (tt, tt)
dedup_after-IsAscending last (e ∷ es) b h =
    if_elim (λ (l : List AuditEvent). Above last.id l × IsAscending l) (eqb e.id last.id)
      (λ same. dedup_after-IsAscending last es b.1 h.1)
      (λ other.
        let later = dedup_after-IsAscending e es h.0 h.1 in
        let above : last.id < e.id = ground (arith, other, b.0) in
        (
          (above, Above-weaken last.id e.id (dedup_after e es) (omega (arith, above)) later.0),
          later,
        ))

dedup_after-All {κ} :
    (P : AuditEvent → Type κ) (last : AuditEvent) (es : List AuditEvent)
    → All P es
    → All P (dedup_after last es)
unfolding dedup_after
dedup_after-All P last [] a = tt
dedup_after-All P last (e ∷ es) a =
    if_elim (All P) (eqb e.id last.id) (λ same. dedup_after-All P last es a.1)
      (λ other. (a.0, dedup_after-All P e es a.1))

drop-All {κ} :
    (P : AuditEvent → Type κ) (n : ℕ) (es : List AuditEvent) → All P es → All P (drop n es)
drop-All P zero es a = a
drop-All P (suc n) [] a = tt
drop-All P (suc n) (e ∷ es) a = drop-All P n es a.1

drop-IsAscending : (n : ℕ) (es : List AuditEvent) → IsAscending es → IsAscending (drop n es)
drop-IsAscending zero es h = h
drop-IsAscending (suc n) [] h = tt
drop-IsAscending (suc n) (e ∷ es) h = drop-IsAscending n es h.1

dedup_by_id-IsAscending : (es : List AuditEvent) → IsSorted es → IsAscending (dedup_by_id es)
unfolding dedup_by_id
dedup_by_id-IsAscending [] h = tt
dedup_by_id-IsAscending (e ∷ es) h = dedup_after-IsAscending e es h.0 h.1

dedup_by_id-All {κ} :
    (P : AuditEvent → Type κ) (es : List AuditEvent) → All P es → All P (dedup_by_id es)
unfolding dedup_by_id
dedup_by_id-All P [] a = tt
dedup_by_id-All P (e ∷ es) a = (a.0, dedup_after-All P e es a.1)

pub for_ring-IsAscending :
    (capacity : ℕ) (es : List AuditEvent) → IsAscending (for_ring capacity es)
unfolding for_ring fitting
for_ring-IsAscending capacity es =
    let ascending = dedup_by_id-IsAscending (sort_by_id es) (sort_by_id-IsSorted es) in
    if_elim IsAscending (ltb capacity (length (dedup_by_id (sort_by_id es))))
      (λ full. drop-IsAscending _ (dedup_by_id (sort_by_id es)) ascending) (λ fits. ascending)

pub for_ring-All {κ} :
    (P : AuditEvent → Type κ) (capacity : ℕ) (es : List AuditEvent)
    → All P es
    → All P (for_ring capacity es)
unfolding for_ring fitting
for_ring-All P capacity es a =
    let kept = dedup_by_id-All P (sort_by_id es) (sort_by_id-All P es a) in
    if_elim (All P) (ltb capacity (length (dedup_by_id (sort_by_id es))))
      (λ full. drop-All P _ (dedup_by_id (sort_by_id es)) kept) (λ fits. kept)

fitting-length :
    (capacity : ℕ) (es : List AuditEvent)
    → (length (fitting capacity es) ≤ capacity)
      × (1 ≤ capacity → 1 ≤ length es → 1 ≤ length (fitting capacity es))
unfolding fitting
fitting-length capacity es =
    if_elim
      (λ (l : List AuditEvent).
        (length l ≤ capacity) × (1 ≤ capacity → 1 ≤ length es → 1 ≤ length l))
      (ltb capacity (length es))
      (λ full.
        let kept = length-drop (length es - capacity) es in
        (ground (arith, full, kept), λ h k. ground (arith, full, kept, h)))
      (λ fits. (ground (arith, fits), λ h k. k))

pub for_ring-length :
    (capacity : ℕ) (es : List AuditEvent) → length (for_ring capacity es) ≤ capacity
unfolding for_ring
for_ring-length capacity es = (fitting-length capacity (dedup_by_id (sort_by_id es))).0

-- Some events leave some.
pub for_ring-nonempty :
    (capacity : ℕ) (e : AuditEvent) (es : List AuditEvent)
    → 1 ≤ capacity
    → 1 ≤ length (for_ring capacity (e ∷ es))
unfolding for_ring sort_by_id insert_by_id dedup_by_id
for_ring-nonempty capacity e es h =
    (fitting-length capacity (dedup_by_id (insert_by_id e (sort_by_id es)))).1 h
      (some_left (sort_by_id es))
  where
    deduped : (f : AuditEvent) (fs : List AuditEvent) → 1 ≤ length (dedup_by_id (f ∷ fs))
    deduped f fs = omega arith

    some_left : (fs : List AuditEvent) → 1 ≤ length (dedup_by_id (insert_by_id e fs))
    some_left [] = deduped e []
    some_left (f ∷ fs) =
        if_elim (λ (l : List AuditEvent). 1 ≤ length (dedup_by_id l)) (leb e.id f.id)
          (λ first. deduped e (f ∷ fs)) (λ later. deduped f (insert_by_id e fs))

-- An event with this id is there.
abbrev pub HasId : ℕ → List AuditEvent → Type 0
HasId n [] = ⊥
HasId n (e ∷ es) = (e.id ≡ n) ⊎ HasId n es

-- An event of this id is in the ring, or the ring is full of later ones.
abbrev pub IsHeld : ℕ → List AuditEvent → ℕ → Type 0
IsHeld capacity ring n = HasId n ring ⊎ ((length ring ≡ capacity) × Above n ring)

insert_by_id-HasId :
    (n : ℕ) (e : AuditEvent) (es : List AuditEvent)
    → (e.id ≡ n) ⊎ HasId n es
    → HasId n (insert_by_id e es)
unfolding insert_by_id
insert_by_id-HasId n e [] h = h
insert_by_id-HasId n e (f ∷ es) (inl new) =
    if_elim (HasId n) (leb e.id f.id) (λ first. inl new)
      (λ later. inr (insert_by_id-HasId n e es (inl new)))
insert_by_id-HasId n e (f ∷ es) (inr (inl here)) =
    if_elim (HasId n) (leb e.id f.id) (λ first. inr (inl here)) (λ later. inl here)
insert_by_id-HasId n e (f ∷ es) (inr (inr there)) =
    if_elim (HasId n) (leb e.id f.id) (λ first. inr (inr there))
      (λ later. inr (insert_by_id-HasId n e es (inr there)))

sort_by_id-HasId : (n : ℕ) (es : List AuditEvent) → HasId n es → HasId n (sort_by_id es)
unfolding sort_by_id
sort_by_id-HasId n [] h = h
sort_by_id-HasId n (e ∷ es) (inl here) = insert_by_id-HasId n e (sort_by_id es) (inl here)
sort_by_id-HasId n (e ∷ es) (inr there) =
    insert_by_id-HasId n e (sort_by_id es) (inr (sort_by_id-HasId n es there))

dedup_after-HasId :
    (n : ℕ) (last : AuditEvent) (es : List AuditEvent)
    → HasId n es
    → (last.id ≡ n) ⊎ HasId n (dedup_after last es)
unfolding dedup_after
dedup_after-HasId n last [] h = absurd h
dedup_after-HasId n last (e ∷ es) (inl here) =
    if_elim (λ (l : List AuditEvent). (last.id ≡ n) ⊎ HasId n l) (eqb e.id last.id)
      (λ same. inl (ground (arith, same, here))) (λ other. inr (inl here))
dedup_after-HasId n last (e ∷ es) (inr there) =
    if_elim (λ (l : List AuditEvent). (last.id ≡ n) ⊎ HasId n l) (eqb e.id last.id)
      (λ same. dedup_after-HasId n last es there) (λ other. inr (dedup_after-HasId n e es there))

dedup_by_id-HasId : (n : ℕ) (es : List AuditEvent) → HasId n es → HasId n (dedup_by_id es)
unfolding dedup_by_id
dedup_by_id-HasId n [] h = h
dedup_by_id-HasId n (e ∷ es) (inl here) = inl here
dedup_by_id-HasId n (e ∷ es) (inr there) = dedup_after-HasId n e es there

drop-HasId :
    (n k : ℕ) (es : List AuditEvent)
    → IsAscending es
    → HasId n es
    → HasId n (drop k es) ⊎ Above n (drop k es)
drop-HasId n zero es a h = inl h
drop-HasId n (suc k) [] a h = absurd h
drop-HasId n (suc k) (e ∷ es) a (inl here) = inr (
    drop-All (λ (f : AuditEvent). n < f.id) k es (Above-weaken n e.id es (omega (arith, here)) a.0))
drop-HasId n (suc k) (e ∷ es) a (inr there) = drop-HasId n k es a.1 there

fitting-IsHeld :
    (capacity n : ℕ) (es : List AuditEvent)
    → IsAscending es
    → HasId n es
    → IsHeld capacity (fitting capacity es) n
unfolding fitting
fitting-IsHeld capacity n es a h =
    if_elim (λ (l : List AuditEvent). IsHeld capacity l n) (ltb capacity (length es))
      (λ full. by_drop full (drop-HasId n (length es - capacity) es a h)) (λ fits. inl h)
  where
    by_drop :
        ltb capacity (length es) ≡ true
        → HasId n (drop (length es - capacity) es) ⊎ Above n (drop (length es - capacity) es)
        → IsHeld capacity (drop (length es - capacity) es) n
    by_drop full (inl there) = inl there
    by_drop full (inr above) =
        inr (ground (arith, full, length-drop (length es - capacity) es), above)

All-HasId : (es : List AuditEvent) → All (λ (e : AuditEvent). HasId e.id es) es
All-HasId [] = tt
All-HasId (e ∷ es) = (
  inl refl,
  All-map (λ (f : AuditEvent). HasId f.id es) (λ (f : AuditEvent). HasId f.id (e ∷ es)) es
      (λ f. inr) (All-HasId es),
)

-- The ring keeps the events with the greatest ids.
pub for_ring-IsHeld :
    (capacity : ℕ) (es : List AuditEvent)
    → All (λ (e : AuditEvent). IsHeld capacity (for_ring capacity es) e.id) es
unfolding for_ring
for_ring-IsHeld capacity es =
    All-map (λ (e : AuditEvent). HasId e.id es)
      (λ (e : AuditEvent). IsHeld capacity (for_ring capacity es) e.id) es
      (λ e h.
        fitting-IsHeld capacity e.id (dedup_by_id (sort_by_id es))
          (dedup_by_id-IsAscending (sort_by_id es) (sort_by_id-IsSorted es))
          (dedup_by_id-HasId e.id (sort_by_id es) (sort_by_id-HasId e.id es h)))
      (All-HasId es)
