-- ===== src/Proxy/Pool.antt =====
-- crates/pgvisor-proxy/src/pool.rs. Opening a connection is a parameter: it yields a stream (here a
-- number) or an error. The mutex makes each call one step on the pool's inner state.
pub mod Filing
pub mod Soundness
pub mod Acquiring
pub mod Retry
mod Examples
use pgvisor.Prelude.{
  ℕ, ◌+◌, ◌%◌, ◌^◌, Bool, true, false, not, ◌&&◌, String, Option, none, some, List, [], ◌∷◌, ◌++◌,
  ltb, ◌==◌, if◌then◌else◌, length, is_empty, contains, get_elem?,
}
use pgvisor.Prelude.Tests.{text_key}
use pgvisor.Prelude.Maps.Assoc
use pgvisor.Prelude.Maps.Assoc.{Assoc}

pub data PoolError : Type 0 where
  io backend_unavailable failover_timeout : PoolError

pub data Result {ℓ} (A : Type ℓ) : Type ℓ where
  ok : A → Result A
  err : PoolError → Result A

pub data BackendRole : Type 0 where
  leader standby : BackendRole

pub record PooledConnection : Type 0 where
  pub stream : ℕ
  pub role : BackendRole
  pub addr : String

pub record PoolInner : Type 0 where
  pub leader_addr : Option String
  pub standby_addrs : List String
  pub standby_rr_index : ℕ
  pub idle_leaders : List PooledConnection
  pub idle_standbys : Assoc String (List PooledConnection)
  pub max_idle_per_node : ℕ
  pub version : ℕ
  -- The last version that `topology_notifier` sent.
  pub notified : ℕ

unfoldable pub new : ℕ → PoolInner
new max_idle_per_node = record {
  leader_addr = none;
  standby_addrs = [];
  standby_rr_index = 0;
  idle_leaders = [];
  idle_standbys = [];
  max_idle_per_node = max_idle_per_node;
  version = 0;
  notified = 0;
}

unfoldable pub same_addr : Option String → Option String → Bool
same_addr none none = true
same_addr none (some b) = false
same_addr (some a) none = false
same_addr (some a) (some b) = a == b

-- `inner.version = inner.version.wrapping_add(1)`, and its announcement, as to a pool with a subscriber:
-- with none, `watch` keeps the value that it had.
unfoldable pub announce : PoolInner → PoolInner
announce p =
    let version = (p.version + 1) % 2 ^ 64 in record p { version = version; notified = version }

unfoldable pub set_leader : PoolInner → Option String → PoolInner
set_leader p new_leader =
    if not (same_addr p.leader_addr new_leader)
    then record p { idle_leaders = []; leader_addr = new_leader }
    else p

unfoldable pub update_topology : PoolInner → Option String → List String → PoolInner
update_topology p new_leader standbys =
    let q = set_leader p new_leader in
    announce (record q {
      idle_standbys = Assoc.retain q.idle_standbys (contains standbys);
      standby_addrs = standbys;
      standby_rr_index = 0;
    })

unfoldable pub drain_all : PoolInner → PoolInner
drain_all p = announce (record p { idle_leaders = []; idle_standbys = [] })

-- `pop_front` of the idle leaders, with the address to connect to if there is none.
unfoldable pub pop_leader :
    PoolInner → List PooledConnection → String → (Option PooledConnection × String) × PoolInner
pop_leader p [] addr = ((none, addr), p)
pop_leader p (conn ∷ rest) addr = ((some conn, addr), record p { idle_leaders = rest })

unfoldable pub pop_standby :
    PoolInner
    → Option (List PooledConnection)
    → String
    → (Option PooledConnection × String) × PoolInner
pop_standby p none addr = ((none, addr), p)
pop_standby p (some []) addr = ((none, addr), p)
pop_standby p (some (conn ∷ rest)) addr =
    ((some conn, addr), record p { idle_standbys = Assoc.insert p.idle_standbys addr rest })

-- `inner.standby_addrs[target_idx]`, whose index is in bounds.
unfoldable pub next_standby :
    PoolInner → Option String → (Option PooledConnection × String) × PoolInner
next_standby p none = ((none, ""), p)
next_standby p (some addr) = pop_standby p (Assoc.get p.idle_standbys addr) addr

unfoldable pub select_leader :
    PoolInner → Option String → Result ((Option PooledConnection × String) × PoolInner)
select_leader p none = err backend_unavailable
select_leader p (some addr) = ok (pop_leader p p.idle_leaders addr)

-- The part of `acquire_for` under the lock.
unfoldable pub select :
    PoolInner → BackendRole → Result ((Option PooledConnection × String) × PoolInner)
select p leader = select_leader p p.leader_addr
select p standby =
    let target = get_elem? p.standby_addrs (p.standby_rr_index % length p.standby_addrs) in
    let q = record p { standby_rr_index = (p.standby_rr_index + 1) % 2 ^ 64 } in
    if not (is_empty p.standby_addrs)
    then ok (next_standby q target)
    else select_leader p p.leader_addr

-- `PooledConnection::connect_with_tls`, without its address and role.
abbrev pub Connect : Type 0
Connect = String → BackendRole → Option String → Option String → Result ℕ

unfoldable pub connect_with_tls :
    Connect → String → BackendRole → Option String → Option String → Result PooledConnection
connect_with_tls connect addr role user database = elim (connect addr role user database) [
  | err e ↦ err e
  | ok stream ↦ ok (record { stream = stream; role = role; addr = addr })
]

-- Outside the lock: an idle connection, or a new one.
unfoldable pub reuse_or_connect :
    Connect
    → BackendRole
    → Option String
    → Option String
    → Option PooledConnection
    → String
    → Result PooledConnection
reuse_or_connect connect role user database (some conn) addr = ok conn
reuse_or_connect connect role user database none addr =
    connect_with_tls connect addr role user database

unfoldable pub acquire_selected :
    Connect
    → PoolInner
    → BackendRole
    → Option String
    → Option String
    → Result ((Option PooledConnection × String) × PoolInner)
    → PoolInner × Result PooledConnection
acquire_selected connect p role user database (err e) = (p, err e)
acquire_selected connect p role user database (ok ((idle, addr), q)) =
    (q, reuse_or_connect connect role user database idle addr)

unfoldable pub acquire_for :
    Connect
    → PoolInner
    → BackendRole
    → Option String
    → Option String
    → PoolInner × Result PooledConnection
acquire_for connect p role user database =
    acquire_selected connect p role user database (select p role)

unfoldable pub release_standby : PoolInner → PooledConnection → List PooledConnection → PoolInner
release_standby p conn queue = record p {
  idle_standbys =
      Assoc.insert p.idle_standbys conn.addr
        (if ltb (length queue) p.max_idle_per_node then queue ++ conn ∷ [] else queue);
}

unfoldable pub or_default : Option (List PooledConnection) → List PooledConnection
or_default none = []
or_default (some queue) = queue

unfoldable pub release_as : PoolInner → PooledConnection → BackendRole → PoolInner
release_as p conn leader =
    if same_addr (some conn.addr) p.leader_addr && ltb (length p.idle_leaders) p.max_idle_per_node
    then record p { idle_leaders = p.idle_leaders ++ conn ∷ [] }
    else p
release_as p conn standby =
    if contains p.standby_addrs conn.addr
    then release_standby p conn (or_default (Assoc.get p.idle_standbys conn.addr))
    else p

unfoldable pub release : PoolInner → PooledConnection → PoolInner
release p conn = release_as p conn conn.role

unfoldable pub standby_count : Assoc String (List PooledConnection) → ℕ
standby_count [] = 0
standby_count ((addr, queue) ∷ m) = length queue + standby_count m

unfoldable pub idle_count : PoolInner → ℕ × ℕ
idle_count p = (length p.idle_leaders, standby_count p.idle_standbys)
