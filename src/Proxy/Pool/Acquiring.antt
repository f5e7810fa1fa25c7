-- ===== src/Proxy/Pool/Acquiring.antt =====
-- Which node an acquired connection of proxy/src/pool.rs leads to, and what becomes of one that is
-- given back after a failover.
use native.Mathlib.Nat.{mod-lt}
use pgvisor.Prelude.{
  ℕ, suc, zero, ◌+◌, ◌<◌, ◌%◌, ◌^◌, ◌≡◌, ◌≢◌, refl, sym, ap, ◌∙◌, subst, inl, inr, true, not,
  String, Option, none, some, List, [], ◌∷◌, length, is_empty, get_elem?, same_iff, Bool-cases,
  if◌then◌else◌, arith,
}
use pgvisor.Prelude.Tests.{text_key}
use pgvisor.Prelude.Maps.Assoc
use pgvisor.Prelude.Maps.Assoc.{Assoc}
use pgvisor.Proxy.Pool.{
  PoolInner, PooledConnection, BackendRole, leader, standby, Connect, Result, ok, err,
  backend_unavailable, same_addr, announce, set_leader, update_topology, pop_leader, pop_standby,
  next_standby, select_leader, select, connect_with_tls, reuse_or_connect, acquire_selected,
  acquire_for, release_as, release,
}
use pgvisor.Proxy.Pool.Filing.{Filed, FiledLeaders, IsQueue, FiledStandbys-get}
use pgvisor.Proxy.Pool.Soundness.{IsSound}

-- The node that a request for a role is for: the leader, or the standby whose turn it is, or the
-- leader where there is no standby.
unfoldable pub target : PoolInner → BackendRole → Option String
target p leader = p.leader_addr
target p standby =
    if not (is_empty p.standby_addrs)
    then get_elem? p.standby_addrs (p.standby_rr_index % length p.standby_addrs)
    else p.leader_addr

-- A selection that leads to an address, or fails for want of one.
abbrev Leads : Option String → Result ((Option PooledConnection × String) × PoolInner) → Type 0
Leads o (err e) = (o ≡ none) × (e ≡ backend_unavailable)
Leads o (ok ((none, addr), q)) = o ≡ some addr
Leads o (ok ((some conn, addr), q)) = (o ≡ some addr) × (conn.addr ≡ addr)

pop_leader-Leads :
    (p : PoolInner) (addr : String) (queue : List PooledConnection)
    → Filed leader addr queue
    → Leads (some addr) (ok (pop_leader p queue addr))
unfolding pop_leader
pop_leader-Leads p addr [] f = refl
pop_leader-Leads p addr (conn ∷ rest) f = (refl, f.1)

select_leader-Leads :
    (p : PoolInner) (o : Option String)
    → FiledLeaders o p.idle_leaders
    → Leads o (select_leader p o)
unfolding select_leader
select_leader-Leads p none f = (refl, refl)
select_leader-Leads p (some addr) f = pop_leader-Leads p addr p.idle_leaders f

pop_standby-Leads :
    (addrs : List String) (most : ℕ) (p : PoolInner) (o : Option (List PooledConnection))
    (addr : String)
    → IsQueue addrs most addr o
    → Leads (some addr) (ok (pop_standby p o addr))
unfolding pop_standby
pop_standby-Leads addrs most p none addr q = refl
pop_standby-Leads addrs most p (some []) addr q = refl
pop_standby-Leads addrs most p (some (conn ∷ rest)) addr q = (refl, q.1.1)

next_standby-Leads :
    (p : PoolInner) (o : Option String) → IsSound p → o ≢ none → Leads o (ok (next_standby p o))
unfolding next_standby
next_standby-Leads p none s h = absurd (h refl)
next_standby-Leads p (some addr) s h =
    pop_standby-Leads p.standby_addrs p.max_idle_per_node p (Assoc.get p.idle_standbys addr) addr
      (FiledStandbys-get p.standby_addrs p.max_idle_per_node p.idle_standbys addr s.standbys)

get_elem?-in_bounds : {A : Type 0} (xs : List A) (i : ℕ) → i < length xs → get_elem? xs i ≢ none
get_elem?-in_bounds [] i h e = absurd (omega arith)
get_elem?-in_bounds (x ∷ xs) zero h e = ground (arith, e)
get_elem?-in_bounds (x ∷ xs) (suc i) h e = get_elem?-in_bounds xs i (omega arith) e

turn-in_bounds :
    (xs : List String) (i : ℕ) → not (is_empty xs) ≡ true → get_elem? xs (i % length xs) ≢ none
turn-in_bounds [] i h = absurd (ground (arith, h))
turn-in_bounds (x ∷ xs) i h =
    get_elem?-in_bounds (x ∷ xs) (i % length (x ∷ xs)) (mod-lt i (omega arith))

select-Leads :
    (p : PoolInner) (role : BackendRole) → IsSound p → Leads (target p role) (select p role)
unfolding select target
select-Leads p leader s = select_leader-Leads p p.leader_addr s.leaders
select-Leads p standby s = elim (Bool-cases (not (is_empty p.standby_addrs))) [
  | inl some_standby ↦ rw some_standby (
      next_standby-Leads (record p { standby_rr_index = (p.standby_rr_index + 1) % 2 ^ 64 })
        (get_elem? p.standby_addrs (p.standby_rr_index % length p.standby_addrs))
        (record { leaders = s.leaders; leaders_bound = s.leaders_bound; standbys = s.standbys })
        (turn-in_bounds p.standby_addrs p.standby_rr_index some_standby))
  | inr no_standby ↦ rw no_standby (select_leader-Leads p p.leader_addr s.leaders)
]

-- What a request gets, told from the node that it is for.
abbrev pub Answers :
    Connect
    → BackendRole
    → Option String
    → Option String
    → Option String
    → Result PooledConnection
    → Type 0
Answers connect role user database none (ok conn) = ⊥
Answers connect role user database none (err e) = e ≡ backend_unavailable
Answers connect role user database (some addr) (ok conn) = conn.addr ≡ addr
Answers connect role user database (some addr) (err e) = connect addr role user database ≡ err e

connect_with_tls-Answers :
    (connect : Connect) (role : BackendRole) (user database : Option String) (addr : String)
    → Answers connect role user database
        (some addr)
        (connect_with_tls connect addr role user database)
unfolding connect_with_tls
connect_with_tls-Answers connect role user database addr =
    opened (connect addr role user database) refl
  where
    opened :
        (r : Result ℕ)
        → connect addr role user database ≡ r
        → Answers connect role user database (some addr) (elim r [
          | err e ↦ err e
          | ok stream ↦ ok (record { stream = stream; role = role; addr = addr })
        ])
    opened (err e) h = h
    opened (ok stream) h = refl

acquire_selected-Answers :
    (connect : Connect) (p : PoolInner) (role : BackendRole) (user database o : Option String)
    (r : Result ((Option PooledConnection × String) × PoolInner))
    → Leads o r
    → Answers connect role user database o ((acquire_selected connect p role user database r).1)
unfolding acquire_selected reuse_or_connect
acquire_selected-Answers connect p role user database o (err e) l =
    subst (λ a. Answers connect role user database a (err e)) (sym l.0) l.1
acquire_selected-Answers connect p role user database o (ok ((none, addr), q)) l =
    subst
      (λ a. Answers connect role user database a (connect_with_tls connect addr role user database))
      (sym l) (connect_with_tls-Answers connect role user database addr)
acquire_selected-Answers connect p role user database o (ok ((some conn, addr), q)) l =
    subst (λ a. Answers connect role user database a (ok conn)) (sym l.0) l.1

-- In a sound pool a request gets a connection that leads to the node it is for (the leader, or the
-- standby whose turn it is, or the leader where there is no standby). Where there is such a node it fails
-- only with the failure of connecting to it; where there is none, it fails with `backend_unavailable`.
pub acquire_for-Answers :
    (connect : Connect) (p : PoolInner) (role : BackendRole) (user database : Option String)
    → IsSound p
    → Answers connect role user database
        (target p role)
        ((acquire_for connect p role user database).1)
unfolding acquire_for
acquire_for-Answers connect p role user database s =
    acquire_selected-Answers connect p role user database (target p role) (select p role)
      (select-Leads p role s)

same_addr_iff : (a b : Option String) → same_addr a b ≡ true → a ≡ b
unfolding same_addr
same_addr_iff none none e = refl
same_addr_iff none (some b) e = absurd (ground (arith, e))
same_addr_iff (some a) none e = absurd (ground (arith, e))
same_addr_iff (some a) (some b) e = ap some ((same_iff a b).0 e)

set_leader-leader_addr : (p : PoolInner) (to : Option String) → (set_leader p to).leader_addr ≡ to
unfolding set_leader
set_leader-leader_addr p to = elim (Bool-cases (same_addr p.leader_addr to)) [
  | inl same ↦ rw same (same_addr_iff p.leader_addr to same)
  | inr other ↦ rw other refl
]

release_leader-elsewhere :
    (p : PoolInner) (conn : PooledConnection)
    → p.leader_addr ≢ some conn.addr
    → release_as p conn leader ≡ p
unfolding release_as
release_leader-elsewhere p conn h = elim (Bool-cases (same_addr (some conn.addr) p.leader_addr)) [
  | inl same ↦ absurd (h (sym (same_addr_iff (some conn.addr) p.leader_addr same)))
  | inr other ↦ rw other refl
]

-- After a failover a connection that was opened as the leader's is not filed again, unless it leads
-- to the new leader: giving it back changes nothing.
pub release-update_topology :
    (p : PoolInner) (to : Option String) (standbys : List String) (conn : PooledConnection)
    → conn.role ≡ leader
    → to ≢ some conn.addr
    → release (update_topology p to standbys) conn ≡ update_topology p to standbys
unfolding release update_topology announce
release-update_topology p to standbys conn r h =
    ap (release_as (update_topology p to standbys) conn) r
    ∙ release_leader-elsewhere (update_topology p to standbys) conn
        (λ e. h (sym (set_leader-leader_addr p to) ∙ e))
