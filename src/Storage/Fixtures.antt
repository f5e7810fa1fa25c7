-- ===== src/Storage/Fixtures.antt =====
-- Small codecs and values at which the theorems of storage/ are instantiated: a log entry without
-- payload is stored as three numbers, and a state that only has applied an index as one.
use pgvisor.Prelude.{ℕ, ◌+◌, ◌%◌, refl, Option, none, some, [], ◌∷◌, arith}
use pgvisor.Raft.Types.{LogId, Entry, blank}
use pgvisor.Storage.Bytes.{Bytes}
use pgvisor.Storage.Codec.{Codec, IsStorable}
use pgvisor.Storage.Wal.{Wal}
use pgvisor.Storage.StateMachine
use pgvisor.Storage.StateMachine.{StateMachineData, StateCodec}

abbrev pub entry : ℕ → Entry (Unit {0})
entry i = record { log_id = record { term = 1; node_id = 1; index = i }; payload = blank }

abbrev pub sum : Bytes → ℕ
sum [] = 0
sum (b ∷ r) = b + sum r

abbrev pub decode : Bytes → Option (Entry (Unit {0}))
decode (t ∷ n ∷ i ∷ []) =
    some (record { log_id = record { term = t; node_id = n; index = i }; payload = blank })
decode _ = none

abbrev pub toy : Codec (Unit {0})
toy = record {
  crc32 = λ b. sum b % 4294967296;
  serialize = λ e. e.log_id.term ∷ e.log_id.node_id ∷ e.log_id.index ∷ [];
  deserialize = decode;
}

pub entry-IsStorable : (i : ℕ) → IsStorable toy (entry i)
entry-IsStorable i = record { crc32_bound = omega arith; decodes = refl; fits = omega arith }

abbrev pub empty : Wal
empty = record { file = []; index = []; last_log_id = none }

abbrev pub with_index : ℕ → StateMachineData (Unit {0})
with_index i = record {
  last_applied = some (record { term = 1; node_id = 1; index = i });
  last_membership = tt;
  kvs = [];
  nodes = [];
  roles = [];
}

abbrev pub applied_index : Option LogId → ℕ
applied_index none = 0
applied_index (some id) = id.index

abbrev pub decode_state : Bytes → Option (StateMachineData (Unit {0}))
decode_state (i ∷ []) = some (with_index i)
decode_state _ = none

abbrev pub toy_state : StateCodec (Unit {0})
toy_state = record {
  crc32 = λ b. 7;
  serialize = λ d. applied_index d.last_applied ∷ [];
  deserialize = decode_state;
  no_membership = tt;
}

pub with_index-IsStorable : (i : ℕ) → StateMachine.IsStorable toy_state (with_index i)
with_index-IsStorable i = record { crc32_bound = omega arith; decodes = refl }
