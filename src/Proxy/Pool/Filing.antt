-- ===== src/Proxy/Pool/Filing.antt =====
-- The idle queues of proxy/src/pool.rs: what is filed under a node's address.
use pgvisor.Prelude.{
  subst, ℕ, ◌≤◌, ◌≡◌, refl, sym, true, String, Option, none, some, List, [], ◌∷◌, ◌++◌, length,
  contains, ◌==◌, same_iff, if_elim, arith,
}
use pgvisor.Prelude.Tests.{text_key}
use pgvisor.Prelude.Maps.Assoc
use pgvisor.Prelude.Maps.Assoc.{Assoc}
use pgvisor.Proxy.Pool.{PooledConnection, BackendRole, leader, standby, same_addr, or_default}

-- The idle connections of one node.
abbrev pub Filed : BackendRole → String → List PooledConnection → Type 0
Filed role addr [] = Unit
Filed role addr (conn ∷ queue) = (conn.role ≡ role) × (conn.addr ≡ addr) × Filed role addr queue

abbrev pub FiledLeaders : Option String → List PooledConnection → Type 0
FiledLeaders none queue = queue ≡ []
FiledLeaders (some addr) queue = Filed leader addr queue

abbrev pub FiledStandbys : List String → ℕ → Assoc String (List PooledConnection) → Type 0
FiledStandbys addrs most [] = Unit
FiledStandbys addrs most ((addr, queue) ∷ m) =
    (contains addrs addr ≡ true)
    × Filed standby addr queue
    × (length queue ≤ most)
    × FiledStandbys addrs most m

pub Filed-append :
    (role : BackendRole) (addr : String) (queue : List PooledConnection) (conn : PooledConnection)
    → Filed role addr queue
    → conn.role ≡ role
    → conn.addr ≡ addr
    → Filed role addr (queue ++ conn ∷ [])
Filed-append role addr [] conn f r a = (r, a, tt)
Filed-append role addr (x ∷ queue) conn f r a =
    (f.0, f.1, Filed-append role addr queue conn f.2 r a)

-- A queue that replaces a member's, or is filed for the first time.
pub FiledStandbys-insert :
    (addrs : List String) (most : ℕ) (m : Assoc String (List PooledConnection)) (addr : String)
    (queue : List PooledConnection)
    → contains addrs addr ≡ true
    → Filed standby addr queue
    → length queue ≤ most
    → FiledStandbys addrs most m
    → FiledStandbys addrs most (Assoc.insert m addr queue)
unfolding Assoc.insert
FiledStandbys-insert addrs most [] addr queue c f l s = (c, f, l, tt)
FiledStandbys-insert addrs most ((j, w) ∷ m) addr queue c f l s =
    if_elim (FiledStandbys addrs most) (j == addr)
      (λ e. (s.0, subst (λ a. Filed standby a queue) (sym ((same_iff j addr).0 e)) f, l, s.3))
      (λ e. (s.0, s.1, s.2, FiledStandbys-insert addrs most m addr queue c f l s.3))

pub FiledStandbys-retain :
    (before after : List String) (most : ℕ) (m : Assoc String (List PooledConnection))
    → FiledStandbys before most m
    → FiledStandbys after most (Assoc.retain m (contains after))
unfolding Assoc.retain
FiledStandbys-retain before after most [] s = tt
FiledStandbys-retain before after most ((j, w) ∷ m) s =
    let kept = FiledStandbys-retain before after most m s.3 in
    if_elim (FiledStandbys after most) (contains after j) (λ e. (e, s.1, s.2, kept)) (λ e. kept)

-- What the map holds of one node.
abbrev pub IsQueue : List String → ℕ → String → Option (List PooledConnection) → Type 0
IsQueue addrs most addr none = Unit
IsQueue addrs most addr (some queue) =
    (contains addrs addr ≡ true) × Filed standby addr queue × (length queue ≤ most)

pub FiledStandbys-get :
    (addrs : List String) (most : ℕ) (m : Assoc String (List PooledConnection)) (addr : String)
    → FiledStandbys addrs most m
    → IsQueue addrs most addr (Assoc.get m addr)
unfolding Assoc.get
FiledStandbys-get addrs most [] addr s = tt
FiledStandbys-get addrs most ((j, w) ∷ m) addr s =
    if_elim (IsQueue addrs most addr) (j == addr)
      (λ e. subst (λ a. IsQueue addrs most a (some w)) ((same_iff j addr).0 e) (s.0, s.1, s.2))
      (λ e. FiledStandbys-get addrs most m addr s.3)

pub no_leaders-Filed : (o : Option String) → FiledLeaders o []
no_leaders-Filed none = refl
no_leaders-Filed (some a) = tt

pub FiledLeaders-pop :
    (o : Option String) (conn : PooledConnection) (queue : List PooledConnection)
    → FiledLeaders o (conn ∷ queue)
    → FiledLeaders o queue
FiledLeaders-pop none conn queue f = absurd (ground (arith, f))
FiledLeaders-pop (some a) conn queue f = f.2

pub FiledLeaders-append :
    (o : Option String) (queue : List PooledConnection) (conn : PooledConnection)
    → conn.role ≡ leader
    → same_addr (some conn.addr) o ≡ true
    → FiledLeaders o queue
    → FiledLeaders o (queue ++ conn ∷ [])
unfolding same_addr
FiledLeaders-append none queue conn r e f = absurd (ground (arith, e))
FiledLeaders-append (some a) queue conn r e f =
    Filed-append leader a queue conn f r ((same_iff conn.addr a).0 e)

pub or_default-IsQueue :
    (addrs : List String) (most : ℕ) (addr : String) (o : Option (List PooledConnection))
    → IsQueue addrs most addr o
    → Filed standby addr (or_default o) × (length (or_default o) ≤ most)
unfolding or_default
or_default-IsQueue addrs most addr none q = (tt, omega arith)
or_default-IsQueue addrs most addr (some queue) q = (q.1, q.2)
