-- ===== src/Sidecar/Election/Examples.antt =====
-- Rounds of the monitor in a cluster of three nodes.
use pgvisor.Prelude.{
  ℕ, ◌+◌, ◌≡◌, refl, true, false, ◌&&◌, arith, Option, none, some, [], ◌∷◌, eqb, contains,
  if◌then◌else◌,
}
use pgvisor.Prelude.Tests.{number_key}
use pgvisor.Prelude.Texts.{Text, text, chars_key, contains_text, starts_with}
use pgvisor.Sidecar.Election.{
  running, StatusResponse, SidecarState, Surroundings, is_active_leader, self_tag, active_in,
  find_active_leader, guard_leader, is_alive, alive_with, alive_peers, leads, leader_found,
  add_sorted, sort_dedup, alive_nodes, first_is, ends_with, repoints, try_promote, elect,
  standby_round, role_round, tick,
}
use pgvisor.Sidecar.Election.Promotion.{promotes, tick-one_winner}
use pgvisor.Sidecar.Election.Fencing.{IsFenced, tick-split_brain}

-- The numbers below twelve.
abbrev decimal : ℕ → Text
decimal n = if eqb n 10 then text "10" else (48 + n) ∷ []

abbrev peer2 : Text
peer2 = text "http://pgvisor-node2:8081"

abbrev peer10 : Text
peer10 = text "http://pgvisor-node10:8081"

abbrev answer : ℕ → Text → Option StatusResponse
answer n role = some (record { node_id = n; role = role; status = text "running" })

-- Node 2 is a standby that runs.
abbrev quiet : Surroundings
quiet = record {
  peers = peer2 ∷ [];
  probe = λ peer. answer 2 (text "standby");
  resync_ok = true;
  promote_ok = true;
  decimal = decimal;
}

-- The only peer, node 10, says that it leads.
abbrev rival : ℕ → Surroundings
rival n = record {
  peers = (if eqb n 10 then peer10 else peer2) ∷ [];
  probe = λ peer. answer n (text "leader");
  resync_ok = true;
  promote_ok = true;
  decimal = decimal;
}

-- Node 1 is a standby that runs.
abbrev mirror : Surroundings
mirror = record {
  peers = text "http://pgvisor-node1:8081" ∷ [];
  probe = λ peer. answer 1 (text "standby");
  resync_ok = true;
  promote_ok = true;
  decimal = decimal;
}

abbrev node : ℕ → Text → ℕ → SidecarState
node n role missed = record {
  node_id = n;
  role = role;
  primary_conninfo = none;
  missed_heartbeats = missed;
  events = [];
}

abbrev waiting : SidecarState
waiting = node 1 (text "standby") 4

sees_two : contains (alive_peers quiet quiet.peers) 2 ≡ true
unfolding alive_peers alive_with is_alive
sees_two = refl

sees_one : contains (alive_peers mirror mirror.peers) 1 ≡ true
unfolding alive_peers alive_with is_alive
sees_one = refl

tick-one_winner_example :
    promotes (tick quiet running waiting).1
      && promotes (tick mirror running (node 2 (text "standby") 4)).1
    ≡ false
tick-one_winner_example =
    tick-one_winner quiet mirror running running waiting (node 2 (text "standby") 4)
      (λ e. omega (arith, e)) sees_two sees_one

other_name : contains_text peer2 (self_tag (rival 2) 1) ≡ false
unfolding contains_text starts_with self_tag
other_name = refl

says_it_leads :
    is_active_leader (record { node_id = 2; role = text "leader"; status = text "running" }) ≡ true
unfolding is_active_leader
says_it_leads = refl

tick-split_brain_example : IsFenced (tick (rival 2) running (node 1 (text "leader") 0))
tick-split_brain_example =
    tick-split_brain (rival 2) (node 1 (text "leader") 0) peer2
      (record { node_id = 2; role = text "leader"; status = text "running" }) refl refl other_name
      refl says_it_leads

-- The name of node 1 is part of the name of node 10, which is therefore never asked.
node10_overlooked : (tick (rival 10) running (node 1 (text "leader") 0)).0.role ≡ text "leader"
unfolding tick role_round standby_round elect try_promote repoints alive_nodes sort_dedup add_sorted
    alive_peers alive_with is_alive leader_found leads first_is promotes contains_text starts_with
    self_tag ends_with find_active_leader active_in is_active_leader guard_leader
node10_overlooked = refl
