-- ===== src/Sidecar/Election/Promotion.antt =====
-- When a round of sidecar/election.rs promotes its node.
use pgvisor.Prelude.{
  both, differs, ℕ, ◌+◌, ◌/◌, ◌%◌, ◌^◌, ◌≤◌, ◌≡◌, ◌≢◌, refl, sym, ap, ◌∙◌, subst, inl, inr, Bool,
  true, false, not, ◌||◌, ◌&&◌, Option, none, some, List, [], ◌∷◌, eqb, eqb_iff, ltb, leb, leb_iff,
  length, All, contains, ◌==◌, if_elim, Bool-cases, arith,
}
use pgvisor.Prelude.Tests.{number_key}
use pgvisor.Prelude.Texts.{text, chars_key}
use pgvisor.Sidecar.Election.{
  ProcessStatus, stopped, running, fenced, restoring, SidecarState, Action, resync_from_primary,
  fence, promote, repoint, Surroundings, find_active_leader, rejoin, guard_leader, alive_peers,
  leader_found, add_sorted, sort_dedup, alive_nodes, first_is, elect, standby_round, role_round,
  tick,
}

-- Whether a round calls `supervisor.promote()`.
unfoldable pub promotes : List Action → Bool
promotes [] = false
promotes (promote ∷ actions) = true
promotes (fence ∷ actions) = promotes actions
promotes (resync_from_primary conninfo ∷ actions) = promotes actions
promotes (repoint peer ∷ actions) = promotes actions

abbrev Lower : ℕ → List ℕ → Type 0
Lower b ns = All (λ n. b ≤ n) ns

abbrev Ascending : ℕ → List ℕ → Type 0
Ascending b [] = Unit
Ascending b (n ∷ ns) = (b ≤ n) × Ascending (n + 1) ns

add_sorted-Ascending :
    (b n : ℕ) (ns : List ℕ) → b ≤ n → Ascending b ns → Ascending b (add_sorted n ns)
unfolding add_sorted
add_sorted-Ascending b n [] h a = (h, tt)
add_sorted-Ascending b n (m ∷ ns) h a = ground (arith, add_sorted-Ascending (m + 1) n ns)

sort_dedup-Ascending : (ns : List ℕ) → Ascending 0 (sort_dedup ns)
unfolding sort_dedup
sort_dedup-Ascending [] = tt
sort_dedup-Ascending (n ∷ ns) =
    add_sorted-Ascending 0 n (sort_dedup ns) (omega arith) (sort_dedup-Ascending ns)

Ascending-Lower : (b n : ℕ) (ns : List ℕ) → b ≤ n → Ascending n ns → Lower b ns
Ascending-Lower b n [] h a = tt
Ascending-Lower b n (m ∷ ns) h a =
    (omega (arith, a.0), Ascending-Lower b (m + 1) ns (omega (arith, a.0)) a.1)

add_sorted-Lower : (b n : ℕ) (ns : List ℕ) → Lower b (add_sorted n ns) → (b ≤ n) × Lower b ns
unfolding add_sorted
add_sorted-Lower b n [] l = (l.0, tt)
add_sorted-Lower b n (m ∷ ns) l =
    if_elim (λ x. Lower b x → (b ≤ n) × Lower b (m ∷ ns)) (ltb n m) (λ e k. (k.0, k.1))
      (λ e.
        if_elim (λ x. Lower b x → (b ≤ n) × Lower b (m ∷ ns)) (eqb n m)
          (λ same k. (subst (λ i. b ≤ i) (sym ((eqb_iff n m).0 same)) k.0, k))
          (λ other k. let parts = add_sorted-Lower b n ns k.1 in (parts.0, (k.0, parts.1))))
      l

sort_dedup-Lower : (b : ℕ) (ns : List ℕ) → Lower b (sort_dedup ns) → Lower b ns
unfolding sort_dedup
sort_dedup-Lower b [] l = tt
sort_dedup-Lower b (n ∷ ns) l =
    let parts = add_sorted-Lower b n (sort_dedup ns) l in (parts.0, sort_dedup-Lower b ns parts.1)

first_is-Lower : (n : ℕ) (ns : List ℕ) → Ascending 0 ns → first_is ns n ≡ true → Lower n ns
unfolding first_is
first_is-Lower n [] a e = tt
first_is-Lower n (m ∷ ns) a e =
    let same = (eqb_iff m n).0 e in
    (omega (arith, same), Ascending-Lower n (m + 1) ns (omega (arith, same)) a.1)

-- What must hold for a node to be promoted in a round.
pub record IsElected (w : Surroundings) (s : SidecarState) : Type 0 where
  pub standby : (s.role ≢ text "leader") × (s.role ≢ text "fenced")
  pub unled : leader_found w w.peers ≡ false
  pub waited : 5 ≤ (s.missed_heartbeats + 1) % 2 ^ 32
  pub quorum : length w.peers / 2 + 1 ≤ length (alive_nodes w s.node_id)
  pub smallest : All (λ n. s.node_id ≤ n) (alive_peers w w.peers)

rejoin-promotes :
    (w : Surroundings) (s : SidecarState) (found : Option ℕ) → promotes (rejoin w s found).1 ≡ false
unfolding rejoin promotes
rejoin-promotes w s none = refl
rejoin-promotes w s (some leader_id) =
    if_elim (λ (r : SidecarState × List Action). promotes r.1 ≡ false) w.resync_ok (λ e. refl)
      (λ e. refl)

guard_leader-promotes :
    (s : SidecarState) (found : Option ℕ) → promotes (guard_leader s found).1 ≡ false
unfolding guard_leader promotes
guard_leader-promotes s none = refl
guard_leader-promotes s (some leader_id) = refl

-- A result of a round promotes only where the conditions hold.
abbrev OnlyElected : Surroundings → SidecarState → SidecarState × List Action → Type 0
OnlyElected w s r = promotes r.1 ≡ true → IsElected w s

never :
    (w : Surroundings) (s : SidecarState) (r : SidecarState × List Action)
    → promotes r.1 ≡ false
    → OnlyElected w s r
never w s r e h = absurd (ground (arith, sym e ∙ h))

standby_round-OnlyElected :
    (w : Surroundings) (s : SidecarState)
    → (s.role ≢ text "leader") × (s.role ≢ text "fenced")
    → OnlyElected w s (standby_round w s)
unfolding standby_round elect promotes alive_nodes
standby_round-OnlyElected w s role =
    if_elim (OnlyElected w s) (leader_found w w.peers)
      (λ e. never w s (record s { missed_heartbeats = 0 }, []) refl)
      (λ unled.
        if_elim (OnlyElected w s)
          (leb 5 ((s.missed_heartbeats + 1) % 2 ^ 32)
            && leb (length w.peers / 2 + 1) (length (alive_nodes w s.node_id))
            && first_is (alive_nodes w s.node_id) s.node_id)
          (λ e h.
            let parts =
              both
                (leb 5 ((s.missed_heartbeats + 1) % 2 ^ 32)
                  && leb (length w.peers / 2 + 1) (length (alive_nodes w s.node_id)))
                (first_is (alive_nodes w s.node_id) s.node_id) e in
            let counts =
              both (leb 5 ((s.missed_heartbeats + 1) % 2 ^ 32))
                (leb (length w.peers / 2 + 1) (length (alive_nodes w s.node_id))) parts.0 in
            record {
              standby = role;
              unled = unled;
              waited = (leb_iff 5 ((s.missed_heartbeats + 1) % 2 ^ 32)).0 counts.0;
              quorum =
                  (leb_iff (length w.peers / 2 + 1) (length (alive_nodes w s.node_id))).0 counts.1;
              smallest =
                  (sort_dedup-Lower s.node_id (s.node_id ∷ alive_peers w w.peers) (
                    first_is-Lower s.node_id (alive_nodes w s.node_id)
                      (sort_dedup-Ascending (s.node_id ∷ alive_peers w w.peers)) parts.1)).1;
            })
          (λ e.
            never w s (record s { missed_heartbeats = (s.missed_heartbeats + 1) % 2 ^ 32 }, [])
              refl))

role_round-OnlyElected : (w : Surroundings) (s : SidecarState) → OnlyElected w s (role_round w s)
unfolding role_round
role_round-OnlyElected w s =
    let found = find_active_leader w s.node_id w.peers in
    if_elim (OnlyElected w s) (s.role == text "fenced")
      (λ e. never w s (rejoin w s found) (rejoin-promotes w s found))
      (λ unfenced.
        if_elim (OnlyElected w s) (s.role == text "leader")
          (λ e. never w s (guard_leader s found) (guard_leader-promotes s found))
          (λ unled.
            standby_round-OnlyElected w s
              (differs s.role (text "leader") unled, differs s.role (text "fenced") unfenced)))

pub tick-IsElected :
    (w : Surroundings) (process : ProcessStatus) (s : SidecarState)
    → promotes (tick w process s).1 ≡ true
    → IsElected w s
unfolding tick promotes
tick-IsElected w restoring s e = absurd (ground (arith, e))
tick-IsElected w running s e = role_round-OnlyElected w s e
tick-IsElected w fenced s e = role_round-OnlyElected w s e
tick-IsElected w stopped s e =
    if_elim (OnlyElected w s) (not (s.role == text "fenced"))
      (λ h. never w s (record s { missed_heartbeats = 0 }, []) refl)
      (λ h. role_round-OnlyElected w s) e

All-contains : (b n : ℕ) (ns : List ℕ) → Lower b ns → contains ns n ≡ true → b ≤ n
All-contains b n [] l e = absurd (ground (arith, e))
All-contains b n (m ∷ ns) l e = elim (Bool-cases (eqb m n)) [
  | inl here ↦ subst (λ i. b ≤ i) ((eqb_iff m n).0 here) l.0
  | inr there ↦ All-contains b n ns l.1 (sym (ap (λ x. x || contains ns n) there) ∙ e)
]

same_winner :
    (w v : Surroundings) (p q : ProcessStatus) (a b : SidecarState)
    → promotes (tick w p a).1 ≡ true
    → promotes (tick v q b).1 ≡ true
    → contains (alive_peers w w.peers) b.node_id ≡ true
    → contains (alive_peers v v.peers) a.node_id ≡ true
    → a.node_id ≡ b.node_id
same_winner w v p q a b x y see_b see_a = omega (
  arith,
  All-contains a.node_id b.node_id (alive_peers w w.peers) (tick-IsElected w p a x).smallest see_b,
  All-contains b.node_id a.node_id (alive_peers v v.peers) (tick-IsElected v q b y).smallest see_a,
)

-- Of two different nodes that see each other alive, at most one is promoted, whatever else they see.
pub tick-one_winner :
    (w v : Surroundings) (p q : ProcessStatus) (a b : SidecarState)
    → a.node_id ≢ b.node_id
    → contains (alive_peers w w.peers) b.node_id ≡ true
    → contains (alive_peers v v.peers) a.node_id ≡ true
    → promotes (tick w p a).1 && promotes (tick v q b).1 ≡ false
tick-one_winner w v p q a b d see_b see_a =
    elim (Bool-cases (promotes (tick w p a).1 && promotes (tick v q b).1)) [
      | inl won ↦
          let wins = both (promotes (tick w p a).1) (promotes (tick v q b).1) won in
          absurd (d (same_winner w v p q a b wins.0 wins.1 see_b see_a))
      | inr lost ↦ lost
    ]
