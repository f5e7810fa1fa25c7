-- ===== src/Proxy/Backups/Targets.antt =====
-- Which nodes proxy/src/backup.rs backs up, and which it takes for standbys in a restore.
use pgvisor.Prelude.{
  ◌≡◌, ◌≢◌, refl, sym, ap, ◌∙◌, subst, true, false, not, ◌&&◌, Option, none, some, List, [], ◌∷◌,
  ◌++◌, ◌⊎◌, inl, inr, In, In-append, In-append_left, In-append_right, All, contains, if_elim, both,
  ◌==◌, same_iff, differs, Bool-cases, arith,
}
use pgvisor.Prelude.Texts.{Text, chars_key}
use pgvisor.Backup.Store.{Operator}
use pgvisor.Proxy.Backups.{
  Network, ProxyBackupService, World, Target, host_of, port_of, or_configured, is_host,
  add_candidate, add_candidates, leader_target, choose_target, select_backup_target,
}
use pgvisor.Proxy.Backups.Restore.{
  add_standby, union_standbys, without_host, restore_leader_host, restore_standbys,
}

contains-In : (xs : List Text) (a : Text) → contains xs a ≡ true → In a xs
contains-In [] a h = absurd (ground (arith, h))
contains-In (x ∷ xs) a h = elim (Bool-cases (x == a)) [
  | inl here ↦ inl (sym ((same_iff x a).0 here))
  | inr there ↦ inr (contains-In xs a (ground (arith, h, there)))
]

All-snoc : (P : Text → Type 0) (xs : List Text) (a : Text) → All P xs → P a → All P (xs ++ a ∷ [])
All-snoc P [] a h p = (p, tt)
All-snoc P (x ∷ xs) a h p = (h.0, All-snoc P xs a h.1 p)

All-by_In : (P : Text → Type 0) (xs : List Text) → ((s : Text) → In s xs → P s) → All P xs
All-by_In P [] h = tt
All-by_In P (x ∷ xs) h = (h x (inl refl), All-by_In P xs (λ s there. h s (inr there)))

-- The known standbys, without those on the leader's host.
pub record IsStandbys (leader : Text) (known standbys : List Text) : Type 0 where
  pub others : All (λ (s : Text). host_of s ≢ leader) standbys
  pub every : (s : Text) → In s known → host_of s ≢ leader → In s standbys
  pub known_only : All (λ (s : Text). In s known) standbys

without_host-All :
    (P : Text → Type 0) (leader : Text) (ss : List Text) → All P ss → All P (without_host leader ss)
unfolding without_host
without_host-All P leader [] a = tt
without_host-All P leader (s ∷ ss) a =
    if_elim (All P) (host_of s == leader) (λ on. without_host-All P leader ss a.1)
      (λ off. (a.0, without_host-All P leader ss a.1))

union_standbys-All :
    (P : Text → Type 0) (standbys ss : List Text)
    → All P standbys
    → All P ss
    → All P (union_standbys standbys ss)
unfolding union_standbys add_standby
union_standbys-All P standbys [] a b = a
union_standbys-All P standbys (s ∷ ss) a b =
    union_standbys-All P (add_standby standbys s) ss
      (if_elim (All P) (contains standbys s) (λ old. a) (λ fresh. All-snoc P standbys s a b.0)) b.1

without_host-others :
    (leader : Text) (ss : List Text)
    → All (λ (s : Text). host_of s ≢ leader) (without_host leader ss)
unfolding without_host
without_host-others leader [] = tt
without_host-others leader (s ∷ ss) =
    if_elim (All (λ (t : Text). host_of t ≢ leader)) (host_of s == leader)
      (λ on. without_host-others leader ss)
      (λ off. (differs (host_of s) leader off, without_host-others leader ss))

without_host-every :
    (leader : Text) (ss : List Text) (s : Text)
    → In s ss
    → host_of s ≢ leader
    → In s (without_host leader ss)
unfolding without_host
without_host-every leader [] s there h = absurd there
without_host-every leader (t ∷ ts) s (inl here) h =
    if_elim (In s) (host_of t == leader)
      (λ on. absurd (h (ap host_of here ∙ (same_iff (host_of t) leader).0 on))) (λ off. inl here)
without_host-every leader (t ∷ ts) s (inr there) h =
    if_elim (In s) (host_of t == leader) (λ on. without_host-every leader ts s there h)
      (λ off. inr (without_host-every leader ts s there h))

union_standbys-In :
    (standbys ss : List Text) (s : Text)
    → In s standbys ⊎ In s ss
    → In s (union_standbys standbys ss)
unfolding union_standbys add_standby
union_standbys-In standbys [] s (inl known) = known
union_standbys-In standbys [] s (inr there) = absurd there
union_standbys-In standbys (t ∷ ts) s (inl known) =
    union_standbys-In (add_standby standbys t) ts s (
      inl (
        if_elim (In s) (contains standbys t) (λ old. known)
          (λ fresh. In-append_left s standbys (t ∷ []) known)))
union_standbys-In standbys (t ∷ ts) s (inr (inl here)) =
    union_standbys-In (add_standby standbys t) ts s (
      inl (
        if_elim (In s) (contains standbys t)
          (λ old. subst (λ r. In r standbys) (sym here) (contains-In standbys t old))
          (λ fresh. In-append_right s standbys (t ∷ []) (inl here))))
union_standbys-In standbys (t ∷ ts) s (inr (inr there)) =
    union_standbys-In (add_standby standbys t) ts s (inr there)

-- A restore reaches every known standby, dynamic or configured, that is not on the leader's host, and
-- nothing else.
pub restore_standbys-IsStandbys :
    (op : Operator) (net : Network) (svc : ProxyBackupService) (w : World op)
    → IsStandbys
        (restore_leader_host op net svc w)
        (net.standby_addrs w.calls ++ svc.configured_standbys)
        (restore_standbys op net svc w)
unfolding restore_standbys
restore_standbys-IsStandbys op net svc w = record {
  others = without_host-others leader union;
  every = λ s there off.
      without_host-every leader union s
        (union_standbys-In dynamic svc.configured_standbys s
          (In-append s dynamic svc.configured_standbys there))
        off;
  known_only = without_host-All IsKnown leader union (
      union_standbys-All IsKnown dynamic svc.configured_standbys
        (All-by_In IsKnown dynamic
          (λ s there. In-append_left s dynamic svc.configured_standbys there))
        (All-by_In IsKnown svc.configured_standbys
          (λ s there. In-append_right s dynamic svc.configured_standbys there)));
}
  where
    leader : Text
    leader = restore_leader_host op net svc w

    dynamic : List Text
    dynamic = net.standby_addrs w.calls

    IsKnown : Text → Type 0
    IsKnown s = In s (dynamic ++ svc.configured_standbys)

    union : List Text
    union = union_standbys dynamic svc.configured_standbys

-- A known node that is not on the leader's host, where a leader is known.
abbrev pub IsFollower : Option Text → Text → Type 0
IsFollower leader s = is_host (host_of s) leader ≡ false

add_candidates-All :
    (leader : Option Text) (P : Text → Type 0) (candidates ss : List Text)
    → All P candidates
    → ((s : Text) → In s ss → IsFollower leader s → P s)
    → All P (add_candidates leader candidates ss)
unfolding add_candidates add_candidate
add_candidates-All leader P candidates [] a f = a
add_candidates-All leader P candidates (s ∷ ss) a f =
    add_candidates-All leader P (add_candidate leader candidates s) ss
      (if_elim (All P) (not (is_host (host_of s) leader) && not (contains candidates s))
        (λ new. All-snoc P candidates s a (f s (inl refl) (follows (both _ _ new).0))) (λ old. a))
      (λ t there. f t (inr there))
  where
    follows : not (is_host (host_of s) leader) ≡ true → IsFollower leader s
    follows e = ground (arith, e)

add_candidates-every :
    (leader : Option Text) (candidates ss : List Text) (s : Text)
    → In s candidates ⊎ In s ss
    → IsFollower leader s
    → In s (add_candidates leader candidates ss)
unfolding add_candidates add_candidate
add_candidates-every leader candidates [] s (inl known) h = known
add_candidates-every leader candidates [] s (inr there) h = absurd there
add_candidates-every leader candidates (t ∷ ts) s (inl known) h =
    add_candidates-every leader (add_candidate leader candidates t) ts s
      (inl (
        if_elim (In s) (not (is_host (host_of t) leader) && not (contains candidates t))
          (λ new. In-append_left s candidates (t ∷ []) known) (λ old. known)))
      h
add_candidates-every leader candidates (t ∷ ts) s (inr (inl here)) h =
    add_candidates-every leader (add_candidate leader candidates t) ts s
      (inl (
        if_elim (In s) (not (is_host (host_of t) leader) && not (contains candidates t))
          (λ new. In-append_right s candidates (t ∷ []) (inl here))
          (λ old.
            subst (λ r. In r candidates) (sym here)
              (contains-In candidates t
                (ground (arith, old, subst (λ r. IsFollower leader r) here h))))))
      h
add_candidates-every leader candidates (t ∷ ts) s (inr (inr there)) h =
    add_candidates-every leader (add_candidate leader candidates t) ts s (inr there) h

-- A follower where there is one, else the leader.
pub record IsTarget (leader : Option Text) (known : List Text) (t : Target) : Type 0 where
  pub follower :
      t.is_follower ≡ true
      → (s : Text) × In s known × IsFollower leader s × (t.host ≡ host_of s) × (t.port ≡ port_of s)
  pub no_follower :
      t.is_follower ≡ false
      → (t ≡ leader_target leader) × ((s : Text) → In s known → is_host (host_of s) leader ≡ true)

abbrev KnownFollower : Option Text → List Text → Text → Type 0
KnownFollower leader known s = In s known × IsFollower leader s

choose_target-IsTarget :
    (leader : Option Text) (known found : List Text)
    → All (KnownFollower leader known) found
    → ((s : Text) → In s known → IsFollower leader s → In s found)
    → IsTarget leader known (choose_target leader found)
unfolding choose_target leader_target
choose_target-IsTarget leader known [] a every = record {
  follower = λ e. absurd (lead leader e);
  no_follower = λ e. (refl, none_left);
}
  where
    lead : (l : Option Text) → (leader_target l).is_follower ≡ true → ⊥
    lead none e = ground (arith, e)
    lead (some addr) e = ground (arith, e)

    none_left : (s : Text) → In s known → is_host (host_of s) leader ≡ true
    none_left s there = elim (Bool-cases (is_host (host_of s) leader)) [
      | inl on ↦ on
      | inr off ↦ absurd (every s there off)
    ]
choose_target-IsTarget leader known (s ∷ ss) a every = record {
  follower = λ e. (s, a.0.0, a.0.1, refl, refl);
  no_follower = λ e. absurd (ground (arith, e));
}

-- A base backup is taken from a known node, dynamic or configured, that is not on the leader's host,
-- with the host and port of its address, whenever there is one; and from the leader only where there is
-- none.
pub select_backup_target-IsTarget :
    (svc : ProxyBackupService) (standbys : List Text) (leader : Option Text)
    → IsTarget
        (or_configured leader svc.configured_leader)
        (standbys ++ svc.configured_standbys)
        (select_backup_target svc standbys leader)
unfolding select_backup_target
select_backup_target-IsTarget svc standbys leader =
    choose_target-IsTarget known all _
      (add_candidates-All known (KnownFollower known all) [] all tt (λ s there h. (there, h)))
      (λ s there h. add_candidates-every known [] all s (inr there) h)
  where
    known : Option Text
    known = or_configured leader svc.configured_leader

    all : List Text
    all = standbys ++ svc.configured_standbys
