-- ===== src/Proxy/Pool/Examples.antt =====
-- Runs of the pool.
use pgvisor.Prelude.{◌≡◌, ◌≢◌, refl, String, none, some, List, [], ◌∷◌, arith, ap, same_iff}
use pgvisor.Prelude.Tests.{text_key}
use pgvisor.Prelude.Maps.Assoc
use pgvisor.Proxy.Pool.{
  PooledConnection, leader, standby, Connect, ok, err, io, new, same_addr, announce, set_leader,
  update_topology, select, select_leader, pop_leader, next_standby, pop_standby, connect_with_tls,
  reuse_or_connect, acquire_selected, acquire_for, release_as, release_standby, or_default, release,
  idle_count, standby_count,
}
use pgvisor.Proxy.Pool.Soundness.{
  IsSound, Call, topology, acquire, give_back, step, run, run-IsSound,
}
use pgvisor.Proxy.Pool.Acquiring.{target, Answers, acquire_for-Answers}
use pgvisor.Proxy.Pool.Retry.{Rounds, Answered, acquire_with_retry, acquire_with_retry-Answered}

-- Every node answers.
abbrev connect_up : Connect
connect_up addr role user database = ok 7

abbrev conn_a : PooledConnection
conn_a = record { stream = 1; role = leader; addr = "a:5432" }

abbrev conn_b : PooledConnection
conn_b = record { stream = 2; role = standby; addr = "b:5432" }

abbrev calls : List Call
calls =
    topology (some "a:5432") ("b:5432" ∷ "c:5432" ∷ [])
    ∷ give_back conn_a
    ∷ give_back conn_b
    ∷ acquire connect_up standby none none
    ∷ give_back conn_b
    ∷ []

run_counts : idle_count (run (new 4) calls) ≡ (1, 1)
unfolding acquire_for acquire_selected select select_leader run step release release_as same_addr
    update_topology announce set_leader new release_standby next_standby pop_standby Assoc.get
    Assoc.insert Assoc.retain connect_with_tls or_default pop_leader reuse_or_connect idle_count
    standby_count
run_counts = refl

run-IsSound_example : IsSound (run (new 4) calls)
run-IsSound_example = run-IsSound 4 calls

acquire_for-Answers_example :
    Answers connect_up leader none none
      (target (run (new 4) calls) leader)
      ((acquire_for connect_up (run (new 4) calls) leader none none).1)
acquire_for-Answers_example =
    acquire_for-Answers connect_up (run (new 4) calls) leader none none (run-IsSound 4 calls)

acquire_for_reuses : (acquire_for connect_up (run (new 4) calls) leader none none).1 ≡ ok conn_a
unfolding acquire_for acquire_selected select select_leader run step release release_as same_addr
    update_topology announce set_leader new release_standby next_standby pop_standby Assoc.get
    Assoc.insert Assoc.retain connect_with_tls or_default pop_leader reuse_or_connect idle_count
    standby_count
acquire_for_reuses = refl

moved : some "b:5432" ≢ some conn_a.addr
moved e = ground (
  arith,
  (same_iff {K = String} "b:5432" "a:5432").1 (ap (λ o. elim o [ none ↦ "" | some a ↦ a ]) e),
)

abbrev refused : Rounds
refused = record {
  connect = λ n addr role user database. err io;
  elapsed = λ n. n;
  meanwhile = λ n p. p;
}

acquire_with_retry-Answered_example :
    Answered (acquire_with_retry refused 3 leader none none 4 0 (run (new 4) calls))
acquire_with_retry-Answered_example =
    acquire_with_retry-Answered refused 3 leader none none 3 0 (run (new 4) calls) (omega arith)
