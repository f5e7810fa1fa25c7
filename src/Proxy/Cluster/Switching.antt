-- ===== src/Proxy/Cluster/Switching.antt =====
-- What a switchover of proxy/src/cluster.rs comes to.
use pgvisor.Prelude.{
  sym, ◌++◌, ℕ, ◌≡◌, refl, ap, ◌∙◌, Bool, true, false, not, String, Option, none, some, List, [],
  ◌∷◌, eqb, ◌==◌, same_iff, contains, if◌then◌else◌, if_elim, arith,
}
use pgvisor.Prelude.Tests.{text_key}
use pgvisor.Prelude.Texts.{Text, text, chars_key}
use mathlib.Core.List.{append_assoc, append-nil}
use pgvisor.Proxy.Cluster.Leaders.{
  StepsDown, demote-StepsDown, FindsLeader, inspect_all-FindsLeader,
}
use pgvisor.Proxy.Cluster.Finding.{IsCandidate, HasCandidate, Finds, inspect_all-Finds}
use pgvisor.Prelude.Maps.Assoc
use pgvisor.Proxy.Pool.{
  PoolInner, PooledConnection, update_topology, drain_all, set_leader, announce, same_addr,
}
use pgvisor.Proxy.Cluster.{
  NodeTarget, Post, Answer, unreachable, refused, accepted, Sidecars, Result, ok, err, ClusterState,
  endpoint, Candidate, Inspection, inspect_all, log_post, command, demote, conninfo, repoint_all,
  other_addrs, adopt, previous_id, promote_unsent, promote_failed, leader_unreachable, not_found,
  SwitchoverResponse, promote, switch_to, switchover,
}

other_addrs-contains :
    (addr : String) (ts : List NodeTarget) → contains (other_addrs addr ts) addr ≡ false
unfolding other_addrs
other_addrs-contains addr [] = refl
other_addrs-contains addr (t ∷ ts) =
    if_elim (λ (l : List String). contains l addr ≡ false) (not (t.pg_addr == addr))
      (λ e. ground (arith, e, other_addrs-contains addr ts)) (λ e. other_addrs-contains addr ts)

-- What the proxy routes by is as before.
pub record IsUnmoved (c d : ClusterState) : Type 0 where
  pub leader_addr : d.leader_addr ≡ c.leader_addr
  pub standby_addrs : d.standby_addrs ≡ c.standby_addrs
  pub pool : d.pool ≡ c.pool

-- The old leader was asked to step down, then the candidate accepted its promotion, and the proxy routes to
-- it over new connections only.
pub record IsSwitched (sc : Sidecars) (id : ℕ) (targets : List NodeTarget) (c d : ClusterState)
    : Type 0 where
  pub candidate : Candidate
  pub is_candidate : IsCandidate sc id targets candidate
  pub earlier : List Post
  pub stepped_down : StepsDown sc targets c.posts earlier
  pub sent :
      (later : List Post) × (d.posts
        ≡ (earlier ++ command candidate.url (text "/control/promote") ∷ []) ++ later)
  pub promoted : sc.post earlier (command candidate.url (text "/control/promote")) ≡ accepted
  pub leader_addr : d.leader_addr ≡ some candidate.addr
  pub pool_leader : d.pool.leader_addr ≡ some candidate.addr
  pub no_idle_leader : d.pool.idle_leaders ≡ []
  pub no_idle_standby : d.pool.idle_standbys ≡ []
  pub not_standby : contains d.standby_addrs candidate.addr ≡ false
  pub same_standbys : d.pool.standby_addrs ≡ d.standby_addrs

abbrev pub Switches :
    Sidecars
    → ℕ
    → List NodeTarget
    → ClusterState
    → ClusterState × Result SwitchoverResponse
    → Type 0
Switches sc id targets c (d, ok r) = IsSwitched sc id targets c d
Switches sc id targets c (d, err e) = IsUnmoved c d

-- The pool after draining and the new topology.
set_leader-leader :
    (p : PoolInner) (addr : String) → (set_leader p (some addr)).leader_addr ≡ some addr
unfolding set_leader same_addr
set_leader-leader p addr =
    if_elim (λ (q : PoolInner). q.leader_addr ≡ some addr)
      (not (same_addr p.leader_addr (some addr))) (λ e. refl)
      (λ e. same p.leader_addr addr (ground (arith, e)))
  where
    same : (o : Option String) (addr : String) → same_addr o (some addr) ≡ true → o ≡ some addr
    same none addr e = absurd (ground (arith, e))
    same (some a) addr e = ap some ((same_iff a addr).0 e)

set_leader-idle :
    (p : PoolInner) (addr : Option String)
    → p.idle_leaders ≡ []
    → p.idle_standbys ≡ []
    → ((set_leader p addr).idle_leaders ≡ []) × ((set_leader p addr).idle_standbys ≡ [])
unfolding set_leader
set_leader-idle p addr a b =
    if_elim (λ (q : PoolInner). (q.idle_leaders ≡ []) × (q.idle_standbys ≡ []))
      (not (same_addr p.leader_addr addr)) (λ e. (refl, b)) (λ e. (a, b))

repoint_all-IsUnmoved :
    (id : ℕ) (info : Text) (c : ClusterState) (urls : List (ℕ × Text))
    → IsUnmoved c (repoint_all id info c urls)
unfolding repoint_all log_post
repoint_all-IsUnmoved id info c [] = record {
  leader_addr = refl;
  standby_addrs = refl;
  pool = refl;
}
repoint_all-IsUnmoved id info c ((sid, url) ∷ urls) =
    if_elim (λ (d : ClusterState). IsUnmoved c (repoint_all id info d urls)) (eqb sid id)
      (λ e. repoint_all-IsUnmoved id info c urls)
      (λ e.
        let p : Post = record { url = endpoint url (text "/control/repoint"); body = some info } in
        let rest : IsUnmoved (log_post c p) (repoint_all id info (log_post c p) urls) =
          repoint_all-IsUnmoved id info (log_post c p) urls in
        record {
          leader_addr = rest.leader_addr;
          standby_addrs = rest.standby_addrs;
          pool = rest.pool;
        })

repoint_all-posts :
    (id : ℕ) (info : Text) (c : ClusterState) (urls : List (ℕ × Text))
    → (later : List Post) × ((repoint_all id info c urls).posts ≡ c.posts ++ later)
unfolding repoint_all log_post
repoint_all-posts id info c [] = ([], sym (append-nil c.posts))
repoint_all-posts id info c ((sid, url) ∷ urls) =
    if_elim
      (λ (d : ClusterState).
        (later : List Post) × ((repoint_all id info d urls).posts ≡ c.posts ++ later))
      (eqb sid id) (λ e. repoint_all-posts id info c urls)
      (λ e.
        let p : Post = record { url = endpoint url (text "/control/repoint"); body = some info } in
        let rest = repoint_all-posts id info (log_post c p) urls in
        (p ∷ rest.0, rest.1 ∙ append_assoc c.posts (p ∷ []) rest.0))

adopt-IsSwitched :
    (sc : Sidecars) (id : ℕ) (targets : List NodeTarget) (b c : ClusterState) (t : Candidate)
    (earlier : List Post)
    → StepsDown sc targets b.posts earlier
    → ((later : List Post) × (c.posts
          ≡ (earlier ++ command t.url (text "/control/promote") ∷ []) ++ later))
    → IsCandidate sc id targets t
    → sc.post earlier (command t.url (text "/control/promote")) ≡ accepted
    → IsSwitched sc id targets b (adopt c t.addr (other_addrs t.addr targets))
unfolding adopt update_topology drain_all announce Assoc.retain
adopt-IsSwitched sc id targets b c t earlier down posted k a =
    let p : PoolInner = drain_all c.pool in
    let idle : ((set_leader p (some t.addr)).idle_leaders ≡ [])
        × ((set_leader p (some t.addr)).idle_standbys ≡ []) =
      set_leader-idle p (some t.addr) refl refl in
    record {
      candidate = t;
      is_candidate = k;
      earlier = earlier;
      stepped_down = down;
      sent = posted;
      promoted = a;
      leader_addr = refl;
      pool_leader = set_leader-leader p t.addr;
      no_idle_leader = idle.0;
      no_idle_standby =
          ap (λ m. Assoc.retain m (contains (other_addrs t.addr targets))) idle.1
          ∙ retain_nil (contains (other_addrs t.addr targets));
      not_standby = other_addrs-contains t.addr targets;
      same_standbys = refl;
    }
  where
    retain_nil : (test : String → Bool) → Assoc.retain {V = List PooledConnection} [] test ≡ []
    retain_nil test = refl

demote-IsUnmoved :
    (sc : Sidecars) (c : ClusterState) (o : Option (Text × ℕ)) → IsUnmoved c (demote sc c o).0
unfolding demote log_post
demote-IsUnmoved sc c none = record { leader_addr = refl; standby_addrs = refl; pool = refl }
demote-IsUnmoved sc c (some (url, id)) = record {
  leader_addr = refl;
  standby_addrs = refl;
  pool = refl;
}

promote-Switches :
    (sc : Sidecars) (id : ℕ) (targets : List NodeTarget) (t : Candidate) (i : Inspection)
    (b c : ClusterState)
    → IsUnmoved b c
    → StepsDown sc targets b.posts c.posts
    → IsCandidate sc id targets t
    → Switches sc id targets b (promote sc id targets t i c)
unfolding promote log_post
promote-Switches sc id targets t i b c u down k =
    by_answer (sc.post c.posts (command t.url (text "/control/promote"))) refl
  where
    by_answer :
        (a : Answer)
        → sc.post c.posts (command t.url (text "/control/promote")) ≡ a
        → Switches sc id targets b (elim a [
          | unreachable ↦ (log_post c (command t.url (text "/control/promote")), err promote_unsent)
          | refused ↦ (log_post c (command t.url (text "/control/promote")), err promote_failed)
          | accepted ↦ (
            adopt
                (repoint_all id
                  (conninfo t.addr)
                  (log_post c (command t.url (text "/control/promote")))
                  i.standbys)
                t.addr
                (other_addrs t.addr targets),
            ok (record { previous_leader_id = previous_id i.current_leader; new_leader_id = id }),
          )
        ])
    by_answer unreachable e = record {
      leader_addr = u.leader_addr;
      standby_addrs = u.standby_addrs;
      pool = u.pool;
    }
    by_answer refused e = record {
      leader_addr = u.leader_addr;
      standby_addrs = u.standby_addrs;
      pool = u.pool;
    }
    by_answer accepted e =
        adopt-IsSwitched sc id targets b
          (repoint_all id (conninfo t.addr) (log_post c (command t.url (text "/control/promote")))
            i.standbys)
          t c.posts down
          (repoint_all-posts id (conninfo t.addr)
            (log_post c (command t.url (text "/control/promote"))) i.standbys)
          k e

switch_to-Switches :
    (sc : Sidecars) (id : ℕ) (targets : List NodeTarget) (c : ClusterState) (r : Result Inspection)
    → Finds sc id targets r
    → FindsLeader sc targets r
    → Switches sc id targets c (switch_to sc id targets c r)
unfolding switch_to
switch_to-Switches sc id targets c (err e) f g = record {
  leader_addr = refl;
  standby_addrs = refl;
  pool = refl;
}
switch_to-Switches sc id targets c (ok i) f g = by_target i.target f
  where
    by_target :
        (o : Option Candidate)
        → HasCandidate sc id targets o
        → Switches sc id targets c (elim o [
          | none ↦ (c, err not_found)
          | some t ↦
              let asked = demote sc c i.current_leader in
              if asked.1
              then promote sc id targets t i asked.0
              else (asked.0, err leader_unreachable)
        ])
    by_target none k = record { leader_addr = refl; standby_addrs = refl; pool = refl }
    by_target (some t) k =
        if_elim (Switches sc id targets c) (demote sc c i.current_leader).1
          (λ e.
            promote-Switches sc id targets t i c (demote sc c i.current_leader).0
              (demote-IsUnmoved sc c i.current_leader)
              (demote-StepsDown sc targets c i.current_leader g.0 g.1 e) k)
          (λ e. demote-IsUnmoved sc c i.current_leader)

-- Whatever the sidecars answer, a switchover that succeeds has promoted a target with the wanted id that
-- answered that it runs and is not the leader. Before that, if any target answered as a running leader, one
-- that did was asked to step down and answered, be it by a refusal; if none did, nothing was posted. Then
-- the promotion was accepted, and the proxy and its pool take the target for the leader and for no standby,
-- and no connection is idle. A switchover that fails leaves the leader, the standbys and the pool that the
-- proxy has recorded; an old leader may have stepped down all the same.
pub switchover-Switches :
    (sc : Sidecars) (id : ℕ) (targets : List NodeTarget) (c : ClusterState)
    → Switches sc id targets c (switchover sc id targets c)
unfolding switchover
switchover-Switches sc id targets c =
    switch_to-Switches sc id targets c
      (inspect_all sc id targets (record { target = none; current_leader = none; standbys = [] }))
      (inspect_all-Finds sc id targets targets
        (record { target = none; current_leader = none; standbys = [] }) (λ t a. a) tt)
      (inspect_all-FindsLeader sc id targets)
