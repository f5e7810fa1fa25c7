-- ===== src/Proxy/Cluster/Finding.antt =====
-- The target that a switchover of proxy/src/cluster.rs finds.
use pgvisor.Prelude.{
  ℕ, ◌≡◌, ◌≢◌, ◌⊎◌, refl, sym, subst, not, ◌&&◌, Option, none, some, List, [], ◌∷◌, eqb, eqb_iff,
  ◌==◌, same_iff, differs, if_elim, Option-cases, inl, inr, arith,
}
use pgvisor.Prelude.Tests.{text_key}
use pgvisor.Prelude.Texts.{text, chars_key}
use pgvisor.Proxy.Cluster.{
  NodeTarget, NodeStatusResponse, Sidecars, Result, ok, err, endpoint, Candidate, Inspection,
  inspect, inspect_all,
}

abbrev pub Among : NodeTarget → List NodeTarget → Type 0
Among t [] = ⊥
Among t (u ∷ us) = (u ≡ t) ⊎ Among t us

-- A target that answered as a running standby with this id.
pub record IsCandidate (sc : Sidecars) (id : ℕ) (targets : List NodeTarget) (c : Candidate)
    : Type 0 where
  pub node : NodeTarget
  pub answer : NodeStatusResponse
  pub among : Among node targets
  pub same_url : c.url ≡ node.control_url
  pub same_addr : c.addr ≡ node.pg_addr
  pub answered : sc.status (endpoint node.control_url (text "/control/status")) ≡ some answer
  pub has_id : answer.node_id ≡ id
  pub not_leader : answer.role ≢ text "leader"
  pub running : answer.status ≡ text "running"

abbrev pub HasCandidate : Sidecars → ℕ → List NodeTarget → Option Candidate → Type 0
HasCandidate sc id targets none = Unit
HasCandidate sc id targets (some c) = IsCandidate sc id targets c

abbrev pub Finds : Sidecars → ℕ → List NodeTarget → Result Inspection → Type 0
Finds sc id targets (err e) = Unit
Finds sc id targets (ok i) = HasCandidate sc id targets i.target

inspect-Finds :
    (sc : Sidecars) (id : ℕ) (targets : List NodeTarget) (t : NodeTarget) (st : NodeStatusResponse)
    (i : Inspection)
    → Among t targets
    → sc.status (endpoint t.control_url (text "/control/status")) ≡ some st
    → HasCandidate sc id targets i.target
    → Finds sc id targets (inspect id t st i)
unfolding inspect
inspect-Finds sc id targets t st i a e h =
    if_elim (Finds sc id targets) (eqb st.node_id id)
      (λ is_target.
        if_elim (Finds sc id targets) (st.role == text "leader") (λ leads. tt)
          (λ follows.
            if_elim (Finds sc id targets) (not (st.status == text "running")) (λ stopped. tt)
              (λ running. record {
                node = t;
                answer = st;
                among = a;
                same_url = refl;
                same_addr = refl;
                answered = e;
                has_id = (eqb_iff st.node_id id).0 is_target;
                not_leader = differs st.role (text "leader") follows;
                running = (same_iff st.status (text "running")).0 (ground (arith, running));
              })))
      (λ other.
        if_elim (Finds sc id targets) (st.role == text "leader" && (st.status == text "running"))
          (λ leads. h)
          (λ follows. if_elim (Finds sc id targets) (st.role == text "standby") (λ s. h) (λ s. h)))

pub inspect_all-Finds :
    (sc : Sidecars) (id : ℕ) (targets ts : List NodeTarget) (i : Inspection)
    → ((t : NodeTarget) → Among t ts → Among t targets)
    → HasCandidate sc id targets i.target
    → Finds sc id targets (inspect_all sc id ts i)
unfolding inspect_all
inspect_all-Finds sc id targets [] i sub h = h
inspect_all-Finds sc id targets (t ∷ ts) i sub h =
    elim (Option-cases (sc.status (endpoint t.control_url (text "/control/status")))) [
      | inl e ↦
          subst (λ o. Finds sc id targets (on_status o)) (sym e)
            (inspect_all-Finds sc id targets ts i (λ u a. sub u (inr a)) h)
      | inr (st, e) ↦
          subst (λ o. Finds sc id targets (on_status o)) (sym e)
            (go_on (inspect id t st i)
              (λ j g. inspect_all-Finds sc id targets ts j (λ u a. sub u (inr a)) g)
              (inspect-Finds sc id targets t st i (sub t (inl refl)) e h))
    ]
  where
    on_status : Option NodeStatusResponse → Result Inspection
    on_status o = elim o [
      | none ↦ inspect_all sc id ts i
      | some st ↦ elim (inspect id t st i) [ err e ↦ err e | ok j ↦ inspect_all sc id ts j ]
    ]

    go_on :
        (r : Result Inspection)
        → ((j : Inspection)
            → HasCandidate sc id targets j.target
            → Finds sc id targets (inspect_all sc id ts j))
        → Finds sc id targets r
        → Finds sc id targets (elim r [ err e ↦ err e | ok j ↦ inspect_all sc id ts j ])
    go_on (err e) k f = tt
    go_on (ok j) k f = k j f
