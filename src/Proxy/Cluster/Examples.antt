-- ===== src/Proxy/Cluster/Examples.antt =====
-- A switchover from the first of three nodes to the second.
use pgvisor.Prelude.{ℕ, String, none, some, List, [], ◌∷◌, ◌==◌, if◌then◌else◌, false}
use pgvisor.Prelude.Texts.{Text, text, chars_key}
use pgvisor.Proxy.Pool
use pgvisor.Proxy.Cluster.{
  NodeTarget, NodeStatusResponse, Sidecars, accepted, ClusterState, switchover,
}
use pgvisor.Proxy.Cluster.Switching.{Switches, switchover-Switches}

abbrev node : String → Text → NodeTarget
node addr url = record {
  pg_addr = addr;
  control_url = url;
  is_dynamic = false;
  consecutive_failures = 0;
}

abbrev answer : ℕ → Text → NodeStatusResponse
answer id role = record { node_id = id; role = role; status = text "running" }

abbrev sidecars : Sidecars
sidecars = record {
  status = λ url.
      if url == text "a/control/status"
      then some (answer 1 (text "leader"))
      else if url == text "b/control/status"
      then some (answer 2 (text "standby"))
      else none;
  post = λ earlier p. accepted;
}

abbrev nodes : List NodeTarget
nodes =
    node "10.0.0.1:5432" (text "a/")
    ∷ node "10.0.0.2:5432" (text "b")
    ∷ node "10.0.0.3:5432" (text "c")
    ∷ []

abbrev before : ClusterState
before = record {
  leader_addr = some "10.0.0.1:5432";
  standby_addrs = "10.0.0.2:5432" ∷ "10.0.0.3:5432" ∷ [];
  pool = Pool.new 2;
  posts = [];
}

switchover-Switches_example : Switches sidecars 2 nodes before (switchover sidecars 2 nodes before)
switchover-Switches_example = switchover-Switches sidecars 2 nodes before
