-- ===== src/Proxy/Executor/Examples.antt =====
-- A query of the dashboard that a standby answers.
use pgvisor.Prelude.{true, Option, some, List, [], ◌∷◌, ◌++◌}
use pgvisor.Prelude.Texts.{text, to_ascii_uppercase}
use pgvisor.Storage.Bytes.{Bytes, put_u32}
use pgvisor.Protocol.Tracker.{idle}
use pgvisor.Protocol.Message.Wire.{Pgwire, PgBackend, decoded, partial}
use pgvisor.Proxy.Pool.{ok}
use pgvisor.Proxy.Pool
use pgvisor.Proxy.Pool.Retry.{Rounds}
use pgvisor.Proxy.Executor.{execute}
use pgvisor.Proxy.Executor.Limits.{IsBounded, execute-IsBounded}

abbrev toy : Pgwire
toy = record {
  encode_backend = λ m. [];
  decode_backend = λ src. (decoded (PgBackend.ready_for_query idle), []);
  encode_frontend = λ m. [];
  decode_frontend = λ src. (partial, src);
  decode_startup = λ src. (partial, src);
}

abbrev rounds : Rounds
rounds = record {
  connect = λ r addr role user database. ok r;
  elapsed = λ r. r;
  meanwhile = λ r p. p;
}

abbrev reads : List (Option Bytes)
reads = some (90 ∷ (put_u32 5 ++ 73 ∷ [])) ∷ []

execute-IsBounded_example :
    IsBounded toy
      (λ b. b)
      10
      reads
      (execute toy
        (λ b. b)
        10
        to_ascii_uppercase
        rounds
        3
        1
        true
        reads
        (Pool.update_topology (Pool.new 2) (some "10.0.0.1:5432") [])
        (text "SELECT 1")).1
execute-IsBounded_example =
    execute-IsBounded toy (λ b. b) 10 to_ascii_uppercase rounds 3 1 true reads
      (Pool.update_topology (Pool.new 2) (some "10.0.0.1:5432") []) (text "SELECT 1")
