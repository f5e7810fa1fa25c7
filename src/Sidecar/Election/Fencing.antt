-- ===== src/Sidecar/Election/Fencing.antt =====
-- How a round of sidecar/election.rs changes the role of its node.
use pgvisor.Prelude.{
  differs, ℕ, ◌+◌, ◌%◌, ◌^◌, ◌≡◌, ◌≢◌, refl, sym, ap, ◌∙◌, subst, inl, inr, Bool, true, false, not,
  ◌||◌, ◌&&◌, Option, none, some, List, [], ◌∷◌, contains, leb, length, ◌/◌, ◌==◌, same_iff,
  if◌then◌else◌, if_elim, Bool-cases, arith,
}
use pgvisor.Prelude.Texts.{Text, text, chars_key, contains_text}
use pgvisor.Sidecar.Election.{
  ProcessStatus, stopped, running, fenced, restoring, StatusResponse, SidecarState, Action, fence,
  Surroundings, is_active_leader, self_tag, active_in, find_active_leader, rejoin, guard_leader,
  leader_found, alive_nodes, first_is, try_promote, elect, standby_round, role_round, tick,
}

-- How a role may change: a leader is fenced, a fenced node rejoins as a standby, and a node that is
-- neither is promoted.
pub data RoleStep : Text → Text → Type 0 where
  kept : (r : Text) → RoleStep r r
  leader_fenced : RoleStep (text "leader") (text "fenced")
  rejoined : RoleStep (text "fenced") (text "standby")
  promoted : (r : Text) → r ≢ text "leader" → r ≢ text "fenced" → RoleStep r (text "leader")

abbrev Steps : SidecarState → SidecarState × List Action → Type 0
Steps s r = RoleStep s.role r.0.role

rejoin-Steps :
    (w : Surroundings) (s : SidecarState) (found : Option ℕ)
    → s.role ≡ text "fenced"
    → Steps s (rejoin w s found)
unfolding rejoin
rejoin-Steps w s none e = kept s.role
rejoin-Steps w s (some leader_id) e =
    if_elim (Steps s) w.resync_ok (λ h. subst (λ r. RoleStep r (text "standby")) (sym e) rejoined)
      (λ h. kept s.role)

guard_leader-Steps :
    (s : SidecarState) (found : Option ℕ) → s.role ≡ text "leader" → Steps s (guard_leader s found)
unfolding guard_leader
guard_leader-Steps s none e = kept s.role
guard_leader-Steps s (some leader_id) e =
    subst (λ r. RoleStep r (text "fenced")) (sym e) leader_fenced

standby_round-Steps :
    (w : Surroundings) (s : SidecarState)
    → s.role ≢ text "leader"
    → s.role ≢ text "fenced"
    → Steps s (standby_round w s)
unfolding standby_round elect try_promote
standby_round-Steps w s l f =
    if_elim (Steps s) (leader_found w w.peers) (λ e. kept s.role)
      (λ e.
        if_elim (Steps s)
          (leb 5 ((s.missed_heartbeats + 1) % 2 ^ 32)
            && leb (length w.peers / 2 + 1) (length (alive_nodes w s.node_id))
            && first_is (alive_nodes w s.node_id) s.node_id)
          (λ h. if_elim (Steps s) w.promote_ok (λ ok. promoted s.role l f) (λ ok. kept s.role))
          (λ h. kept s.role))

role_round-Steps : (w : Surroundings) (s : SidecarState) → Steps s (role_round w s)
unfolding role_round
role_round-Steps w s =
    let found = find_active_leader w s.node_id w.peers in
    if_elim (Steps s) (s.role == text "fenced")
      (λ e. rejoin-Steps w s found ((same_iff s.role (text "fenced")).0 e))
      (λ unfenced.
        if_elim (Steps s) (s.role == text "leader")
          (λ e. guard_leader-Steps s found ((same_iff s.role (text "leader")).0 e))
          (λ unled.
            standby_round-Steps w s (differs s.role (text "leader") unled)
              (differs s.role (text "fenced") unfenced)))

-- In any round a role is kept or changes in one of three ways: leader to fenced, fenced to standby,
-- and to leader only from a role that is neither; in particular no fenced node becomes the leader.
pub tick-RoleStep :
    (w : Surroundings) (process : ProcessStatus) (s : SidecarState)
    → RoleStep s.role (tick w process s).0.role
unfolding tick
tick-RoleStep w restoring s = kept s.role
tick-RoleStep w running s = role_round-Steps w s
tick-RoleStep w fenced s = role_round-Steps w s
tick-RoleStep w stopped s =
    if_elim (Steps s) (not (s.role == text "fenced")) (λ h. kept s.role) (λ h. role_round-Steps w s)

abbrev Found : Option ℕ → Type 0
Found o = (l : ℕ) × (o ≡ some l)

clash : {A : Type 0} (b : Bool) → b ≡ true → b ≡ false → A
clash b t f = absurd (ground (arith, sym t ∙ f))

active_in-Found :
    (st : StatusResponse) (rest : Option ℕ)
    → is_active_leader st ≡ true
    → Found (active_in (some st) rest)
unfolding active_in
active_in-Found st rest a =
    if_elim Found (is_active_leader st) (λ e. (st.node_id, refl))
      (λ e. clash (is_active_leader st) a e)

active_in-keeps :
    (o : Option StatusResponse) (rest : Option ℕ) → Found rest → Found (active_in o rest)
unfolding active_in
active_in-keeps none rest f = f
active_in-keeps (some st) rest f =
    if_elim Found (is_active_leader st) (λ e. (st.node_id, refl)) (λ e. f)

find_active_leader-Found :
    (w : Surroundings) (node_id : ℕ) (peers : List Text) (peer : Text) (st : StatusResponse)
    → contains peers peer ≡ true
    → contains_text peer (self_tag w node_id) ≡ false
    → w.probe peer ≡ some st
    → is_active_leader st ≡ true
    → Found (find_active_leader w node_id peers)
unfolding find_active_leader
find_active_leader-Found w node_id [] peer st c t p a = absurd (ground (arith, c))
find_active_leader-Found w node_id (x ∷ peers) peer st c t p a = elim (Bool-cases (x == peer)) [
  | inl here ↦
      let back = sym ((same_iff x peer).0 here) in
      if_elim Found (contains_text x (self_tag w node_id))
        (λ e.
          clash (contains_text x (self_tag w node_id)) e
            (subst (λ y. contains_text y (self_tag w node_id) ≡ false) back t))
        (λ e.
          subst (λ o. Found (active_in o (find_active_leader w node_id peers)))
            (sym (subst (λ y. w.probe y ≡ some st) back p))
            (active_in-Found st (find_active_leader w node_id peers) a))
  | inr there ↦
      let rest =
        find_active_leader-Found w node_id peers peer st
          (sym (ap (λ b. b || contains peers peer) there) ∙ c) t p a in
      if_elim Found (contains_text x (self_tag w node_id)) (λ e. rest)
        (λ e. active_in-keeps (w.probe x) (find_active_leader w node_id peers) rest)
]

-- The role says fenced, and the supervisor is told to fence, which stops PostgreSQL, and nothing else.
abbrev pub IsFenced : SidecarState × List Action → Type 0
IsFenced r = (r.0.role ≡ text "fenced") × (r.1 ≡ fence ∷ [])

guard_leader-IsFenced : (s : SidecarState) (o : Option ℕ) → Found o → IsFenced (guard_leader s o)
unfolding guard_leader
guard_leader-IsFenced s none f = absurd (ground (arith, f.1))
guard_leader-IsFenced s (some l) f = (refl, refl)

role_round-leader :
    (w : Surroundings) (s : SidecarState)
    → s.role ≡ text "leader"
    → role_round w s ≡ guard_leader s (find_active_leader w s.node_id w.peers)
unfolding role_round
role_round-leader w s e =
    ap
      (λ r.
        if r == text "fenced"
        then rejoin w s (find_active_leader w s.node_id w.peers)
        else if r == text "leader"
        then guard_leader s (find_active_leader w s.node_id w.peers)
        else standby_round w s)
      e

-- A leader that runs is fenced in the next round if any of its peers, whose address does not contain
-- the node's own name, answers that it leads and runs: its role becomes fenced, and the one thing the
-- round does to the server is the supervisor's `fence`, which stops it.
pub tick-split_brain :
    (w : Surroundings) (s : SidecarState) (peer : Text) (st : StatusResponse)
    → s.role ≡ text "leader"
    → contains w.peers peer ≡ true
    → contains_text peer (self_tag w s.node_id) ≡ false
    → w.probe peer ≡ some st
    → is_active_leader st ≡ true
    → IsFenced (tick w running s)
unfolding tick
tick-split_brain w s peer st l c t p a = subst IsFenced (sym (role_round-leader w s l)) (
    guard_leader-IsFenced s (find_active_leader w s.node_id w.peers)
      (find_active_leader-Found w s.node_id w.peers peer st c t p a))
