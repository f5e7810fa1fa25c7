-- ===== src/Proxy/Pool/Soundness.antt =====
-- The invariant of the pool of proxy/src/pool.rs: idle connections lead where they are filed, and
-- only to members of the current topology.
use pgvisor.Prelude.{
  both, is_empty, get_elem?, ◌%◌, ◌^◌, ◌&&◌, subst, not, ℕ, ◌+◌, ◌≤◌, ◌≡◌, refl, ap, true, String,
  Option, none, some, List, [], ◌∷◌, ◌++◌, length, length-append, contains, ltb, if_elim,
  if◌then◌else◌, arith,
}
use pgvisor.Prelude.Tests.{text_key}
use pgvisor.Prelude.Maps.Assoc
use pgvisor.Prelude.Maps.Assoc.{Assoc}
use pgvisor.Proxy.Pool.{
  PoolInner, PooledConnection, BackendRole, leader, standby, Connect, Result, ok, err, same_addr,
  announce, set_leader, update_topology, drain_all, pop_leader, pop_standby, next_standby,
  select_leader, select, acquire_selected, acquire_for, release_standby, or_default, release_as,
  release, new,
}
use pgvisor.Proxy.Pool.Filing.{
  Filed, FiledLeaders, FiledStandbys, Filed-append, FiledStandbys-insert, FiledStandbys-retain,
  IsQueue, FiledStandbys-get, no_leaders-Filed, FiledLeaders-pop, FiledLeaders-append,
  or_default-IsQueue,
}

pub record IsSound (p : PoolInner) : Type 0 where
  pub leaders : FiledLeaders p.leader_addr p.idle_leaders
  pub leaders_bound : length p.idle_leaders ≤ p.max_idle_per_node
  pub standbys : FiledStandbys p.standby_addrs p.max_idle_per_node p.idle_standbys

set_leader-IsSound : (p : PoolInner) (to : Option String) → IsSound p → IsSound (set_leader p to)
unfolding set_leader
set_leader-IsSound p to s =
    if_elim IsSound (not (same_addr p.leader_addr to))
      (λ e. record {
        leaders = no_leaders-Filed to;
        leaders_bound = omega arith;
        standbys = s.standbys;
      })
      (λ e. s)

pub new-IsSound : (n : ℕ) → IsSound (new n)
unfolding new
new-IsSound n = record { leaders = refl; leaders_bound = omega arith; standbys = tt }

pub update_topology-IsSound :
    (p : PoolInner) (to : Option String) (standbys : List String)
    → IsSound p
    → IsSound (update_topology p to standbys)
unfolding update_topology announce
update_topology-IsSound p to standbys s =
    let q = set_leader-IsSound p to s in
    record {
      leaders = q.leaders;
      leaders_bound = q.leaders_bound;
      standbys =
          FiledStandbys-retain (set_leader p to).standby_addrs standbys
            (set_leader p to).max_idle_per_node (set_leader p to).idle_standbys q.standbys;
    }

pub drain_all-IsSound : (p : PoolInner) → IsSound p → IsSound (drain_all p)
unfolding drain_all announce
drain_all-IsSound p s = record {
  leaders = no_leaders-Filed p.leader_addr;
  leaders_bound = omega arith;
  standbys = tt;
}

-- What a selection leaves in the pool is sound.
abbrev IsSelected : Result ((Option PooledConnection × String) × PoolInner) → Type 0
IsSelected (err e) = Unit
IsSelected (ok ((idle, addr), q)) = IsSound q

pop_leader-IsSound :
    (p : PoolInner) (queue : List PooledConnection) (addr : String)
    → p.idle_leaders ≡ queue
    → IsSound p
    → IsSound ((pop_leader p queue addr).1)
unfolding pop_leader
pop_leader-IsSound p [] addr e s = s
pop_leader-IsSound p (conn ∷ rest) addr e s = record {
  leaders =
      FiledLeaders-pop p.leader_addr conn rest (subst (FiledLeaders p.leader_addr) e s.leaders);
  leaders_bound = omega (arith, s.leaders_bound, ap length e);
  standbys = s.standbys;
}

select_leader-IsSelected :
    (p : PoolInner) (o : Option String) → IsSound p → IsSelected (select_leader p o)
unfolding select_leader
select_leader-IsSelected p none s = tt
select_leader-IsSelected p (some addr) s = pop_leader-IsSound p p.idle_leaders addr refl s

pop_standby-IsSound :
    (p : PoolInner) (o : Option (List PooledConnection)) (addr : String)
    → IsQueue p.standby_addrs p.max_idle_per_node addr o
    → IsSound p
    → IsSound ((pop_standby p o addr).1)
unfolding pop_standby
pop_standby-IsSound p none addr q s = s
pop_standby-IsSound p (some []) addr q s = s
pop_standby-IsSound p (some (conn ∷ rest)) addr q s = record {
  leaders = s.leaders;
  leaders_bound = s.leaders_bound;
  standbys =
      FiledStandbys-insert p.standby_addrs p.max_idle_per_node p.idle_standbys addr rest q.0 q.1.2
        (omega (arith, q.2)) s.standbys;
}

next_standby-IsSound :
    (p : PoolInner) (o : Option String) → IsSound p → IsSound ((next_standby p o).1)
unfolding next_standby
next_standby-IsSound p none s = s
next_standby-IsSound p (some addr) s =
    pop_standby-IsSound p (Assoc.get p.idle_standbys addr) addr
      (FiledStandbys-get p.standby_addrs p.max_idle_per_node p.idle_standbys addr s.standbys) s

select-IsSelected : (p : PoolInner) (role : BackendRole) → IsSound p → IsSelected (select p role)
unfolding select
select-IsSelected p leader s = select_leader-IsSelected p p.leader_addr s
select-IsSelected p standby s =
    if_elim IsSelected (not (is_empty p.standby_addrs))
      (λ e.
        next_standby-IsSound (record p { standby_rr_index = (p.standby_rr_index + 1) % 2 ^ 64 })
          (get_elem? p.standby_addrs (p.standby_rr_index % length p.standby_addrs))
          (record { leaders = s.leaders; leaders_bound = s.leaders_bound; standbys = s.standbys }))
      (λ e. select_leader-IsSelected p p.leader_addr s)

acquire_selected-IsSound :
    (connect : Connect) (p : PoolInner) (role : BackendRole) (user database : Option String)
    (r : Result ((Option PooledConnection × String) × PoolInner))
    → IsSelected r
    → IsSound p
    → IsSound ((acquire_selected connect p role user database r).0)
unfolding acquire_selected
acquire_selected-IsSound connect p role user database (err e) i s = s
acquire_selected-IsSound connect p role user database (ok ((idle, addr), q)) i s = i

pub acquire_for-IsSound :
    (connect : Connect) (p : PoolInner) (role : BackendRole) (user database : Option String)
    → IsSound p
    → IsSound ((acquire_for connect p role user database).0)
unfolding acquire_for
acquire_for-IsSound connect p role user database s =
    acquire_selected-IsSound connect p role user database (select p role)
      (select-IsSelected p role s) s

release_standby-IsSound :
    (p : PoolInner) (conn : PooledConnection) (queue : List PooledConnection)
    → conn.role ≡ standby
    → contains p.standby_addrs conn.addr ≡ true
    → Filed standby conn.addr queue
    → length queue ≤ p.max_idle_per_node
    → IsSound p
    → IsSound (release_standby p conn queue)
unfolding release_standby
release_standby-IsSound p conn queue r c f l s = record {
  leaders = s.leaders;
  leaders_bound = s.leaders_bound;
  standbys =
      FiledStandbys-insert p.standby_addrs p.max_idle_per_node p.idle_standbys conn.addr
        (if ltb (length queue) p.max_idle_per_node then queue ++ conn ∷ [] else queue) c
        (if_elim (Filed standby conn.addr) (ltb (length queue) p.max_idle_per_node)
          (λ e. Filed-append standby conn.addr queue conn f r refl) (λ e. f))
        (if_elim (λ q. length q ≤ p.max_idle_per_node) (ltb (length queue) p.max_idle_per_node)
          {x = queue ++ conn ∷ []} {y = queue}
          (λ e. ground (arith, e, length-append queue (conn ∷ []))) (λ e. l))
        s.standbys;
}

release_as-IsSound :
    (p : PoolInner) (conn : PooledConnection) (role : BackendRole)
    → conn.role ≡ role
    → IsSound p
    → IsSound (release_as p conn role)
unfolding release_as
release_as-IsSound p conn leader r s =
    if_elim IsSound
      (same_addr (some conn.addr) p.leader_addr && ltb (length p.idle_leaders) p.max_idle_per_node)
      (λ e.
        let tests =
          both (same_addr (some conn.addr) p.leader_addr)
            (ltb (length p.idle_leaders) p.max_idle_per_node) e in
        record {
          leaders = FiledLeaders-append p.leader_addr p.idle_leaders conn r tests.0 s.leaders;
          leaders_bound = ground (arith, tests.1, length-append p.idle_leaders (conn ∷ []));
          standbys = s.standbys;
        })
      (λ e. s)
release_as-IsSound p conn standby r s =
    let queue =
      or_default-IsQueue p.standby_addrs p.max_idle_per_node conn.addr
        (Assoc.get p.idle_standbys conn.addr)
        (FiledStandbys-get p.standby_addrs p.max_idle_per_node p.idle_standbys conn.addr
          s.standbys) in
    if_elim IsSound (contains p.standby_addrs conn.addr)
      (λ e.
        release_standby-IsSound p conn (or_default (Assoc.get p.idle_standbys conn.addr)) r e
          queue.0 queue.1 s)
      (λ e. s)

-- The calls of the proxy on the pool, as they get the lock one after the other.
pub data Call : Type 0 where
  topology : Option String → List String → Call
  drain : Call
  acquire : Connect → BackendRole → Option String → Option String → Call
  give_back : PooledConnection → Call

unfoldable pub step : PoolInner → Call → PoolInner
step p (topology to standbys) = update_topology p to standbys
step p drain = drain_all p
step p (acquire connect role user database) = (acquire_for connect p role user database).0
step p (give_back conn) = release p conn

unfoldable pub run : PoolInner → List Call → PoolInner
run p [] = p
run p (call ∷ calls) = run (step p call) calls

step-IsSound : (p : PoolInner) (call : Call) → IsSound p → IsSound (step p call)
unfolding step release
step-IsSound p (topology to standbys) s = update_topology-IsSound p to standbys s
step-IsSound p drain s = drain_all-IsSound p s
step-IsSound p (acquire connect role user database) s =
    acquire_for-IsSound connect p role user database s
step-IsSound p (give_back conn) s = release_as-IsSound p conn conn.role refl s

run-from-IsSound : (p : PoolInner) (calls : List Call) → IsSound p → IsSound (run p calls)
unfolding run
run-from-IsSound p [] s = s
run-from-IsSound p (call ∷ calls) s = run-from-IsSound (step p call) calls (step-IsSound p call s)

-- After any calls on a new pool, in any order and whatever the connections that are given back, the
-- idle leader connections all lead to the current leader, the idle standby connections are filed
-- under the address they lead to, only for current standbys, and no queue is over its bound.
pub run-IsSound : (n : ℕ) (calls : List Call) → IsSound (run (new n) calls)
run-IsSound n calls = run-from-IsSound (new n) calls (new-IsSound n)
