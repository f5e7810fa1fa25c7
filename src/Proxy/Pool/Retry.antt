-- ===== src/Proxy/Pool/Retry.antt =====
-- `acquire_with_retry` of proxy/src/pool.rs. What happens while it runs is a parameter: in each round,
-- how connecting goes, the time since the start, and what the others do to the pool meanwhile.
use pgvisor.Prelude.{
  ℕ, zero, suc, ◌+◌, ◌≤◌, ◌≡◌, refl, subst, String, Option, none, some, leb, Bool, true, false,
  if◌then◌else◌, arith,
}
use pgvisor.Proxy.Pool.{
  PoolInner, PooledConnection, BackendRole, Connect, Result, ok, err, failover_timeout, acquire_for,
}

pub record Rounds : Type 0 where
  pub connect : ℕ → Connect
  pub elapsed : ℕ → ℕ
  pub meanwhile : ℕ → PoolInner → PoolInner

-- What is done after an attempt: `rest` is the next rounds.
unfoldable pub retry_after :
    Bool
    → PoolInner
    → Option (PoolInner × Result PooledConnection)
    → Result PooledConnection
    → Option (PoolInner × Result PooledConnection)
retry_after late p rest (ok conn) = some (p, ok conn)
retry_after late p rest (err e) = if late then some (p, err failover_timeout) else rest

unfoldable pub acquire_with_retry :
    Rounds
    → ℕ
    → BackendRole
    → Option String
    → Option String
    → ℕ
    → ℕ
    → PoolInner
    → Option (PoolInner × Result PooledConnection)
acquire_with_retry w timeout role user database zero round p = none
acquire_with_retry w timeout role user database (suc fuel) round p =
    let attempt = acquire_for (w.connect round) p role user database in
    let rest =
      acquire_with_retry w timeout role user database fuel (round + 1)
        (w.meanwhile round attempt.0) in
    retry_after (leb timeout (w.elapsed round)) attempt.0 rest attempt.1

-- The request is answered: by a connection, or by the timeout and no other error.
abbrev pub Answered : Option (PoolInner × Result PooledConnection) → Type 0
Answered none = ⊥
Answered (some (p, ok conn)) = Unit
Answered (some (p, err e)) = e ≡ failover_timeout

retry_after-late :
    (late : Bool) (p : PoolInner) (rest : Option (PoolInner × Result PooledConnection))
    (r : Result PooledConnection)
    → (late ≡ false → Answered rest)
    → Answered (retry_after late p rest r)
unfolding retry_after
retry_after-late late p rest (ok conn) h = tt
retry_after-late true p rest (err e) h = refl
retry_after-late false p rest (err e) h = h refl

-- However connecting goes and whatever happens to the pool meanwhile, once the timeout is over after
-- some number of rounds, the request has been answered by then: by a connection or by the timeout.
pub acquire_with_retry-Answered :
    (w : Rounds) (timeout : ℕ) (role : BackendRole) (user database : Option String) (fuel round : ℕ)
    (p : PoolInner)
    → timeout ≤ w.elapsed (round + fuel)
    → Answered (acquire_with_retry w timeout role user database (suc fuel) round p)
unfolding acquire_with_retry
acquire_with_retry-Answered w timeout role user database zero round p h =
    retry_after-late (leb timeout (w.elapsed round))
      (acquire_for (w.connect round) p role user database).0 none
      (acquire_for (w.connect round) p role user database).1
      (λ e.
        absurd (ground (arith, e, subst (λ n. timeout ≤ w.elapsed n) {y = round} (omega arith) h)))
acquire_with_retry-Answered w timeout role user database (suc fuel) round p h =
    let q = (acquire_for (w.connect round) p role user database).0 in
    retry_after-late (leb timeout (w.elapsed round)) q
      (acquire_with_retry w timeout role user database (suc fuel) (round + 1) (w.meanwhile round q))
      (acquire_for (w.connect round) p role user database).1
      (λ e.
        acquire_with_retry-Answered w timeout role user database fuel (round + 1)
          (w.meanwhile round q) (subst (λ n. timeout ≤ w.elapsed n) (omega arith) h))
