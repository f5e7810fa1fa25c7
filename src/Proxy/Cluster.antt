-- ===== src/Proxy/Cluster.antt =====
-- crates/pgvisor-proxy/src/cluster.rs: the switchover, and starting, stopping and restarting a node. The
-- sidecars are a parameter; logging and the audit are left out.
pub mod Finding
pub mod Leaders
pub mod Switching
mod Examples
use pgvisor.Prelude.{
  ℕ, Bool, true, false, not, ◌&&◌, String, Option, none, some, List, [], ◌∷◌, ◌++◌, eqb, ◌==◌,
  if◌then◌else◌,
}
use pgvisor.Prelude.Tests.{text_key}
use pgvisor.Prelude.Texts.{Text, text, chars_key, trim_end_by}
use pgvisor.Proxy.Pool.{PoolInner, update_topology, drain_all}

pub record NodeTarget : Type 0 where
  pub pg_addr : String
  pub control_url : Text
  pub is_dynamic : Bool
  pub consecutive_failures : ℕ

pub record NodeStatusResponse : Type 0 where
  pub node_id : ℕ
  pub role : Text
  pub status : Text

pub record Post : Type 0 where
  pub url : Text
  pub body : Option Text

pub data Answer : Type 0 where
  unreachable refused accepted : Answer

-- The answers to a request for the status, none where there is none that can be read, and to a post
-- after the earlier ones.
pub record Sidecars : Type 0 where
  pub status : Text → Option NodeStatusResponse
  pub post : List Post → Post → Answer

-- The errors, whose texts are left out.
pub data ClusterError : Type 0 where
  already_leader not_running not_found leader_unreachable promote_unsent promote_failed :
      ClusterError
  already_running already_stopped request_unsent request_failed : ClusterError

pub data Result (A : Type 0) : Type 0 where
  ok : A → Result A
  err : ClusterError → Result A

-- What the service shares with the proxy, and the posts so far, first to last.
pub record ClusterState : Type 0 where
  pub leader_addr : Option String
  pub standby_addrs : List String
  pub pool : PoolInner
  pub posts : List Post

unfoldable pub endpoint : Text → Text → Text
endpoint control_url path = trim_end_by (eqb 47) control_url ++ path

pub record Candidate : Type 0 where
  pub url : Text
  pub addr : String

pub record Inspection : Type 0 where
  pub target : Option Candidate
  pub current_leader : Option (Text × ℕ)
  pub standbys : List (ℕ × Text)

-- One reachable target.
unfoldable pub inspect : ℕ → NodeTarget → NodeStatusResponse → Inspection → Result Inspection
inspect id t st i =
    if eqb st.node_id id
    then if st.role == text "leader"
      then err already_leader
      else if not (st.status == text "running")
      then err not_running
      else ok (record i { target = some (record { url = t.control_url; addr = t.pg_addr }) })
    else if st.role == text "leader" && (st.status == text "running")
    then ok (record i { current_leader = some (t.control_url, st.node_id) })
    else if st.role == text "standby"
    then ok (record i { standbys = i.standbys ++ (st.node_id, t.control_url) ∷ [] })
    else ok i

unfoldable pub inspect_all : Sidecars → ℕ → List NodeTarget → Inspection → Result Inspection
inspect_all sc id [] i = ok i
inspect_all sc id (t ∷ ts) i = elim (sc.status (endpoint t.control_url (text "/control/status"))) [
  | none ↦ inspect_all sc id ts i
  | some st ↦ elim (inspect id t st i) [ err e ↦ err e | ok j ↦ inspect_all sc id ts j ]
]

unfoldable pub log_post : ClusterState → Post → ClusterState
log_post c p = record c { posts = c.posts ++ p ∷ [] }

abbrev pub command : Text → Text → Post
command control_url path = record { url = endpoint control_url path; body = none }

-- A refusal of the leader to step down is only warned of.
unfoldable pub demote : Sidecars → ClusterState → Option (Text × ℕ) → ClusterState × Bool
demote sc c none = (c, true)
demote sc c (some (url, id)) =
    let p = command url (text "/control/demote") in
    (
      log_post c p,
      elim (sc.post c.posts p) [ unreachable ↦ false | refused ↦ true | accepted ↦ true ],
    )

-- `addr.split(':').next()`
unfoldable pub host_of : Text → Text
host_of [] = []
host_of (c ∷ s) = let rest = host_of s in if eqb c 58 then [] else c ∷ rest

unfoldable pub conninfo : String → Text
conninfo addr = text "host=" ++ host_of (text addr) ++ text " port=5432 user=postgres"

unfoldable pub repoint_all : ℕ → Text → ClusterState → List (ℕ × Text) → ClusterState
repoint_all id info c [] = c
repoint_all id info c ((sid, url) ∷ rest) =
    repoint_all id info
      (if eqb sid id
        then c
        else log_post c (record { url = endpoint url (text "/control/repoint"); body = some info }))
      rest

unfoldable pub other_addrs : String → List NodeTarget → List String
other_addrs addr [] = []
other_addrs addr (t ∷ ts) =
    let rest = other_addrs addr ts in if not (t.pg_addr == addr) then t.pg_addr ∷ rest else rest

unfoldable pub adopt : ClusterState → String → List String → ClusterState
adopt c addr standbys = record c {
  leader_addr = some addr;
  standby_addrs = standbys;
  pool = update_topology (drain_all c.pool) (some addr) standbys;
}

pub record SwitchoverResponse : Type 0 where
  pub previous_leader_id : Option ℕ
  pub new_leader_id : ℕ

unfoldable pub previous_id : Option (Text × ℕ) → Option ℕ
previous_id none = none
previous_id (some (url, id)) = some id

-- After the current leader was asked to step down.
unfoldable pub promote :
    Sidecars
    → ℕ
    → List NodeTarget
    → Candidate
    → Inspection
    → ClusterState
    → ClusterState × Result SwitchoverResponse
promote sc id targets t i c =
    let p = command t.url (text "/control/promote") in
    elim (sc.post c.posts p) [
      | unreachable ↦ (log_post c p, err promote_unsent)
      | refused ↦ (log_post c p, err promote_failed)
      | accepted ↦ (
        adopt (repoint_all id (conninfo t.addr) (log_post c p) i.standbys) t.addr
            (other_addrs t.addr targets),
        ok (record { previous_leader_id = previous_id i.current_leader; new_leader_id = id }),
      )
    ]

unfoldable pub switch_to :
    Sidecars
    → ℕ
    → List NodeTarget
    → ClusterState
    → Result Inspection
    → ClusterState × Result SwitchoverResponse
switch_to sc id targets c (err e) = (c, err e)
switch_to sc id targets c (ok i) = elim i.target [
  | none ↦ (c, err not_found)
  | some t ↦
      let asked = demote sc c i.current_leader in
      if asked.1 then promote sc id targets t i asked.0 else (asked.0, err leader_unreachable)
]

unfoldable pub switchover :
    Sidecars → ℕ → List NodeTarget → ClusterState → ClusterState × Result SwitchoverResponse
switchover sc id targets c =
    switch_to sc id targets c
      (inspect_all sc id targets (record { target = none; current_leader = none; standbys = [] }))

unfoldable pub find_target :
    Sidecars → ℕ → List NodeTarget → Result (NodeTarget × NodeStatusResponse)
find_target sc id [] = err not_found
find_target sc id (t ∷ ts) =
    let rest = find_target sc id ts in
    elim (sc.status (endpoint t.control_url (text "/control/status"))) [
      | none ↦ rest
      | some st ↦ if eqb st.node_id id then ok (t, st) else rest
    ]

pub data Action : Type 0 where
  start stop restart : Action

unfoldable pub path_of : Action → Text
path_of start = text "/control/start"
path_of stop = text "/control/stop"
path_of restart = text "/control/restart"

unfoldable pub precondition : Action → NodeStatusResponse → Option ClusterError
precondition start st = if st.status == text "running" then some already_running else none
precondition stop st = if st.status == text "stopped" then some already_stopped else none
precondition restart st = none

-- Stopping and restarting drain the pool.
unfoldable pub settle : Action → ClusterState → ClusterState
settle start c = c
settle stop c = record c { pool = drain_all c.pool }
settle restart c = record c { pool = drain_all c.pool }

unfoldable pub act_on :
    Sidecars
    → Action
    → ClusterState
    → Result (NodeTarget × NodeStatusResponse)
    → ClusterState × Result ℕ
act_on sc a c (err e) = (c, err e)
act_on sc a c (ok (t, st)) = elim (precondition a st) [
  | some e ↦ (c, err e)
  | none ↦
      let p = command t.control_url (path_of a) in
      elim (sc.post c.posts p) [
        | unreachable ↦ (log_post c p, err request_unsent)
        | refused ↦ (log_post c p, err request_failed)
        | accepted ↦ (settle a (log_post c p), ok st.node_id)
      ]
]

-- `start_node`, `stop_node` and `restart_node`.
unfoldable pub act :
    Sidecars → Action → ℕ → List NodeTarget → ClusterState → ClusterState × Result ℕ
act sc a id targets c = act_on sc a c (find_target sc id targets)
