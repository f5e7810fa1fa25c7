-- ===== src/Proxy/Cluster/Leaders.antt =====
-- The leader that a switchover of proxy/src/cluster.rs finds, and asks to step down.
use pgvisor.Prelude.{
  ℕ, ◌≡◌, ◌≢◌, ◌⊎◌, refl, sym, ap, ◌∙◌, subst, not, both, Bool, true, false, ◌&&◌, Option, none,
  some, List, [], ◌∷◌, ◌++◌, eqb, ◌==◌, same_iff, if_elim, Option-cases, inl, inr, arith,
}
use pgvisor.Prelude.Texts.{Text, text, chars_key}
use pgvisor.Proxy.Cluster.{
  NodeTarget, NodeStatusResponse, Post, Answer, unreachable, refused, accepted, Sidecars, Result,
  ok, err, ClusterState, endpoint, Inspection, inspect, inspect_all, log_post, command, demote,
}
use pgvisor.Proxy.Cluster.Finding.{Among}

-- A target that answers as a running leader.
abbrev pub Leads : Sidecars → NodeTarget → Type 0
Leads sc t =
    (st : NodeStatusResponse) × (sc.status (endpoint t.control_url (text "/control/status"))
      ≡ some st)
    × (st.role ≡ text "leader")
    × (st.status ≡ text "running")

abbrev pub IsLeader : Sidecars → List NodeTarget → Option (Text × ℕ) → Type 0
IsLeader sc targets none = Unit
IsLeader sc targets (some (url, id)) =
    (t : NodeTarget) × Among t targets × Leads sc t × (t.control_url ≡ url)

abbrev pub Has : Option (Text × ℕ) → Type 0
Has none = ⊥
Has (some x) = Unit

answer_tests :
    (sc : Sidecars) (t : NodeTarget) (st : NodeStatusResponse)
    → sc.status (endpoint t.control_url (text "/control/status")) ≡ some st
    → Leads sc t
    → st.role == text "leader" && (st.status == text "running") ≡ true
answer_tests sc t st e (answer, said, role, status) = ground (
  arith,
  subst (λ (a : NodeStatusResponse). a.role == text "leader" ≡ true) (same_answer)
      ((same_iff answer.role (text "leader")).1 role),
  subst (λ (a : NodeStatusResponse). a.status == text "running" ≡ true) (same_answer)
      ((same_iff answer.status (text "running")).1 status),
)
  where
    same_answer : answer ≡ st
    same_answer = cc (sym said ∙ e)

-- What one target's answer does to the leader that was found before.
abbrev Notes : Sidecars → List NodeTarget → NodeTarget → Inspection → Result Inspection → Type 0
Notes sc targets t i (err e) = Unit
Notes sc targets t i (ok j) =
    IsLeader sc targets j.current_leader
    × (Leads sc t → Has j.current_leader)
    × (Has i.current_leader → Has j.current_leader)

inspect-Notes :
    (sc : Sidecars) (id : ℕ) (targets : List NodeTarget) (t : NodeTarget) (st : NodeStatusResponse)
    (i : Inspection)
    → Among t targets
    → sc.status (endpoint t.control_url (text "/control/status")) ≡ some st
    → IsLeader sc targets i.current_leader
    → Notes sc targets t i (inspect id t st i)
unfolding inspect
inspect-Notes sc id targets t st i a e h =
    if_elim (Notes sc targets t i) (eqb st.node_id id)
      (λ is_target.
        if_elim (Notes sc targets t i) (st.role == text "leader") (λ leads. tt)
          (λ follows.
            if_elim (Notes sc targets t i) (not (st.status == text "running")) (λ stopped. tt)
              (λ running.
                (h, λ l. absurd (ground (arith, answer_tests sc t st e l, follows)), λ x. x))))
      (λ other.
        if_elim (Notes sc targets t i) (st.role == text "leader" && (st.status == text "running"))
          (λ leads.
            let parts = both (st.role == text "leader") (st.status == text "running") leads in
            (
              (
                t,
                a,
                (
                  st,
                  e,
                  (same_iff st.role (text "leader")).0 parts.0,
                  (same_iff st.status (text "running")).0 parts.1,
                ),
                refl,
              ),
              λ l. tt,
              λ x. tt,
            ))
          (λ follows.
            if_elim (Notes sc targets t i) (st.role == text "standby")
              (λ s. (h, λ l. absurd (ground (arith, answer_tests sc t st e l, follows)), λ x. x))
              (λ s. (h, λ l. absurd (ground (arith, answer_tests sc t st e l, follows)), λ x. x))))

-- A target that leads is found where there is one among `ts`, or one was found before.
abbrev FindsAny :
    Sidecars → List NodeTarget → List NodeTarget → Inspection → Result Inspection → Type 0
FindsAny sc targets ts i (err e) = Unit
FindsAny sc targets ts i (ok j) =
    IsLeader sc targets j.current_leader
    × ((t : NodeTarget) → Among t ts → Leads sc t → Has j.current_leader)
    × (Has i.current_leader → Has j.current_leader)

inspect_all-FindsAny :
    (sc : Sidecars) (id : ℕ) (targets ts : List NodeTarget) (i : Inspection)
    → ((t : NodeTarget) → Among t ts → Among t targets)
    → IsLeader sc targets i.current_leader
    → FindsAny sc targets ts i (inspect_all sc id ts i)
unfolding inspect_all
inspect_all-FindsAny sc id targets [] i sub h = (h, λ t a. absurd a, λ x. x)
inspect_all-FindsAny sc id targets (t ∷ ts) i sub h =
    elim (Option-cases (sc.status (endpoint t.control_url (text "/control/status")))) [
      | inl e ↦
          subst (λ o. FindsAny sc targets (t ∷ ts) i (on_status o)) (sym e)
            (silent e (inspect_all sc id ts i)
              (inspect_all-FindsAny sc id targets ts i (λ u a. sub u (inr a)) h))
      | inr (st, e) ↦
          subst (λ o. FindsAny sc targets (t ∷ ts) i (on_status o)) (sym e)
            (go_on (inspect id t st i)
              (λ j g. inspect_all-FindsAny sc id targets ts j (λ u a. sub u (inr a)) g)
              (inspect-Notes sc id targets t st i (sub t (inl refl)) e h))
    ]
  where
    on_status : Option NodeStatusResponse → Result Inspection
    on_status o = elim o [
      | none ↦ inspect_all sc id ts i
      | some st ↦ elim (inspect id t st i) [ err e ↦ err e | ok j ↦ inspect_all sc id ts j ]
    ]

    silent :
        sc.status (endpoint t.control_url (text "/control/status")) ≡ none
        → (r : Result Inspection) → FindsAny sc targets ts i r
        → FindsAny sc targets (t ∷ ts) i r
    silent e (err x) f = tt
    silent e (ok j) f = (f.0, found, f.2)
      where
        found : (u : NodeTarget) → Among u (t ∷ ts) → Leads sc u → Has j.current_leader
        found u (inl here) l =
            let there = subst (Leads sc) (sym here) l in absurd (ground (arith, sym e ∙ there.1))
        found u (inr there) l = f.1 u there l

    later :
        (j : Inspection)
        → Notes sc targets t i (ok j)
        → (r : Result Inspection) → FindsAny sc targets ts j r
        → FindsAny sc targets (t ∷ ts) i r
    later j n (err x) f = tt
    later j n (ok k) f = (f.0, found, λ x. f.2 (n.2 x))
      where
        found : (u : NodeTarget) → Among u (t ∷ ts) → Leads sc u → Has k.current_leader
        found u (inl here) l = f.2 (n.1 (subst (Leads sc) (sym here) l))
        found u (inr there) l = f.1 u there l

    go_on :
        (r : Result Inspection)
        → ((j : Inspection)
            → IsLeader sc targets j.current_leader
            → FindsAny sc targets ts j (inspect_all sc id ts j))
        → Notes sc targets t i r
        → FindsAny sc targets (t ∷ ts) i (elim r [ err e ↦ err e | ok j ↦ inspect_all sc id ts j ])
    go_on (err e) k n = tt
    go_on (ok j) k n = later j n (inspect_all sc id ts j) (k j n.0)

abbrev pub FindsLeader : Sidecars → List NodeTarget → Result Inspection → Type 0
FindsLeader sc targets (err e) = Unit
FindsLeader sc targets (ok j) =
    IsLeader sc targets j.current_leader
    × ((t : NodeTarget) → Among t targets → Leads sc t → Has j.current_leader)

pub inspect_all-FindsLeader :
    (sc : Sidecars) (id : ℕ) (targets : List NodeTarget)
    → FindsLeader sc targets
        (inspect_all sc id targets (record { target = none; current_leader = none; standbys = [] }))
inspect_all-FindsLeader sc id targets =
    parts (inspect_all sc id targets start)
      (inspect_all-FindsAny sc id targets targets start (λ t a. a) tt)
  where
    start : Inspection
    start = record { target = none; current_leader = none; standbys = [] }

    parts : (r : Result Inspection) → FindsAny sc targets targets start r → FindsLeader sc targets r
    parts (err e) f = tt
    parts (ok j) f = (f.0, f.1)

-- The posts before the promotion: none where no target leads, else the one that asks a leading target to
-- step down, which answered it.
abbrev pub StepsDown : Sidecars → List NodeTarget → List Post → List Post → Type 0
StepsDown sc targets before earlier =
    (((t : NodeTarget) → Among t targets → Leads sc t → ⊥) × (earlier ≡ before))
    ⊎ ((t : NodeTarget) × Among t targets
        × Leads sc t
        × (earlier ≡ before ++ command t.control_url (text "/control/demote") ∷ [])
        × (sc.post before (command t.control_url (text "/control/demote")) ≢ unreachable))

pub demote-StepsDown :
    (sc : Sidecars) (targets : List NodeTarget) (c : ClusterState) (o : Option (Text × ℕ))
    → IsLeader sc targets o
    → ((t : NodeTarget) → Among t targets → Leads sc t → Has o)
    → (demote sc c o).1 ≡ true
    → StepsDown sc targets c.posts (demote sc c o).0.posts
unfolding demote log_post
demote-StepsDown sc targets c none h k e = inl (k, refl)
demote-StepsDown sc targets c (some (url, id)) (t, a, l, same) k e =
    subst
      (λ u.
        answers (sc.post c.posts (command u (text "/control/demote"))) ≡ true
        → StepsDown sc targets c.posts (c.posts ++ command u (text "/control/demote") ∷ []))
      same
      (λ answered.
        inr (t, a, l, refl, λ silent. absurd (ground (arith, sym (ap answers silent) ∙ answered))))
      e
  where
    answers : Answer → Bool
    answers x = elim x [ unreachable ↦ false | refused ↦ true | accepted ↦ true ]
