-- ===== src/Sidecar/Election.antt =====
-- crates/pgvisor-sidecar/src/election.rs: one round of the heartbeat and election monitor. What the
-- others answer and whether the supervisor succeeds are parameters of a round; texts are characters.
pub mod Promotion
pub mod Fencing
mod Examples
use pgvisor.Prelude.{
  ℕ, ◌+◌, ◌/◌, ◌%◌, ◌^◌, Bool, true, false, not, ◌||◌, ◌&&◌, Option, none, some, List, [], ◌∷◌,
  ◌++◌, eqb, ltb, leb, length, if◌then◌else◌, ◌==◌,
}
use pgvisor.Prelude.Texts.{Text, text, chars_key, contains_text}

pub data ProcessStatus : Type 0 where
  stopped running fenced restoring : ProcessStatus

-- `StatusResponse`: what a peer says of itself.
pub record StatusResponse : Type 0 where
  pub node_id : ℕ
  pub role : Text
  pub status : Text

pub data Event : Type 0 where
  node_joined split_brain_fenced auto_promoted : Event

-- The sidecar's state as the monitor uses it.
pub record SidecarState : Type 0 where
  pub node_id : ℕ
  pub role : Text
  pub primary_conninfo : Option Text
  pub missed_heartbeats : ℕ
  pub events : List Event

-- The outcome of a round: calls of the supervisor, and the peers that are told of the new leader.
pub data Action : Type 0 where
  resync_from_primary : Text → Action
  fence promote : Action
  repoint : Text → Action

-- What a round meets; `decimal` prints a number.
pub record Surroundings : Type 0 where
  pub peers : List Text
  pub probe : Text → Option StatusResponse
  pub resync_ok : Bool
  pub promote_ok : Bool
  pub decimal : ℕ → Text

unfoldable pub is_active_leader : StatusResponse → Bool
is_active_leader st = st.role == text "leader" && st.status == text "running"

-- `format!("node{}", node_id)`
unfoldable pub self_tag : Surroundings → ℕ → Text
self_tag w node_id = text "node" ++ w.decimal node_id

unfoldable pub active_in : Option StatusResponse → Option ℕ → Option ℕ
active_in none rest = rest
active_in (some st) rest = if is_active_leader st then some st.node_id else rest

-- The first other peer that says it leads and runs.
unfoldable pub find_active_leader : Surroundings → ℕ → List Text → Option ℕ
find_active_leader w node_id [] = none
find_active_leader w node_id (peer ∷ peers) =
    let rest = find_active_leader w node_id peers in
    if contains_text peer (self_tag w node_id) then rest else active_in (w.probe peer) rest

unfoldable pub rejoin_conninfo : Surroundings → ℕ → ℕ → Text
rejoin_conninfo w leader_id node_id =
    text "host=pgvisor-node"
    ++ w.decimal leader_id
    ++ text " port=5432 user=postgres application_name=pgvisor-node"
    ++ w.decimal node_id

unfoldable pub rejoin : Surroundings → SidecarState → Option ℕ → SidecarState × List Action
rejoin w s none = (s, [])
rejoin w s (some leader_id) =
    let conninfo = rejoin_conninfo w leader_id s.node_id in
    if w.resync_ok
    then (
      record s {
        role = text "standby";
        primary_conninfo = some conninfo;
        events = node_joined ∷ s.events;
        missed_heartbeats = 0;
      },
      resync_from_primary conninfo ∷ [],
    )
    else (s, resync_from_primary conninfo ∷ [])

unfoldable pub guard_leader : SidecarState → Option ℕ → SidecarState × List Action
guard_leader s none = (s, [])
guard_leader s (some leader_id) =
    (record s { role = text "fenced"; events = split_brain_fenced ∷ s.events }, fence ∷ [])

-- The answers of the peers that run or restore.
unfoldable pub is_alive : StatusResponse → Bool
is_alive st = st.status == text "running" || st.status == text "restoring"

unfoldable pub alive_with : Option StatusResponse → List ℕ → List ℕ
alive_with none rest = rest
alive_with (some st) rest = if is_alive st then st.node_id ∷ rest else rest

unfoldable pub alive_peers : Surroundings → List Text → List ℕ
alive_peers w [] = []
alive_peers w (peer ∷ peers) = alive_with (w.probe peer) (alive_peers w peers)

unfoldable pub leads : Option StatusResponse → Bool
leads none = false
leads (some st) = is_alive st && st.role == text "leader"

unfoldable pub leader_found : Surroundings → List Text → Bool
leader_found w [] = false
leader_found w (peer ∷ peers) = leads (w.probe peer) || leader_found w peers

-- `sort_unstable` and `dedup`: ascending, each number once.
unfoldable pub add_sorted : ℕ → List ℕ → List ℕ
add_sorted n [] = n ∷ []
add_sorted n (m ∷ ms) =
    let rest = add_sorted n ms in
    if ltb n m then n ∷ m ∷ ms else if eqb n m then m ∷ ms else m ∷ rest

unfoldable pub sort_dedup : List ℕ → List ℕ
sort_dedup [] = []
sort_dedup (n ∷ ns) = add_sorted n (sort_dedup ns)

-- `alive_nodes` after sorting; it begins with this node itself.
unfoldable pub alive_nodes : Surroundings → ℕ → List ℕ
alive_nodes w node_id = sort_dedup (node_id ∷ alive_peers w w.peers)

unfoldable pub first_is : List ℕ → ℕ → Bool
first_is [] n = false
first_is (m ∷ ms) n = eqb m n

-- `peer.ends_with(tag)`
unfoldable pub ends_with : Text → Text → Bool
ends_with [] tag = [] == tag
ends_with (c ∷ s) tag = (c ∷ s == tag) || ends_with s tag

unfoldable pub repoints : Surroundings → ℕ → List Text → List Action
repoints w node_id [] = []
repoints w node_id (peer ∷ peers) =
    let rest = repoints w node_id peers in
    if contains_text peer (self_tag w node_id ++ text ":") || ends_with peer (self_tag w node_id)
    then rest
    else repoint peer ∷ rest

unfoldable pub try_promote : Surroundings → SidecarState → SidecarState × List Action
try_promote w s =
    if w.promote_ok
    then (
      record s {
        role = text "leader";
        primary_conninfo = none;
        events = auto_promoted ∷ s.events;
        missed_heartbeats = 0;
      },
      promote ∷ repoints w s.node_id w.peers,
    )
    else (s, promote ∷ [])

unfoldable pub elect : Surroundings → SidecarState → SidecarState × List Action
elect w s =
    let alive = alive_nodes w s.node_id in
    let quorum = length w.peers / 2 + 1 in
    if leb 5 s.missed_heartbeats && leb quorum (length alive) && first_is alive s.node_id
    then try_promote w s
    else (s, [])

unfoldable pub standby_round : Surroundings → SidecarState → SidecarState × List Action
standby_round w s =
    if leader_found w w.peers
    then (record s { missed_heartbeats = 0 }, [])
    else elect w (record s { missed_heartbeats = (s.missed_heartbeats + 1) % 2 ^ 32 })

unfoldable pub role_round : Surroundings → SidecarState → SidecarState × List Action
role_round w s =
    if s.role == text "fenced"
    then rejoin w s (find_active_leader w s.node_id w.peers)
    else if s.role == text "leader"
    then guard_leader s (find_active_leader w s.node_id w.peers)
    else standby_round w s

-- One turn of the monitor's loop.
unfoldable pub tick : Surroundings → ProcessStatus → SidecarState → SidecarState × List Action
tick w restoring s = (record s { missed_heartbeats = 0 }, [])
tick w stopped s =
    if not (s.role == text "fenced")
    then (record s { missed_heartbeats = 0 }, [])
    else role_round w s
tick w running s = role_round w s
tick w fenced s = role_round w s
