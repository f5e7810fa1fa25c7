-- ===== src/Storage/Engine/Examples.antt =====
-- Runs and instances for storage/engine.rs.
use pgvisor.Prelude.{ℕ, ◌≡◌, refl, Option, none, some, [], ◌∷◌, ◌++◌, length, take, arith}
use pgvisor.Prelude.Maps.Ordered.{insert}
use pgvisor.Raft.Types.{LogId}
use pgvisor.Storage.Bytes.{Bytes, put_u32}
use pgvisor.Storage.Wal
use pgvisor.Storage.Wal.{
  Wal, ok, frame, open_wal, scan, append_entry, add_entry, read_entry, read_meta, decode_entry,
}
use pgvisor.Storage.StateMachine.{Disk, open_state}
use pgvisor.Storage.StateMachine
use pgvisor.Storage.Fixtures.{
  entry, toy, entry-IsStorable, empty, with_index, toy_state, with_index-IsStorable,
}
use pgvisor.Storage.Engine.LogStore.{
  LogStore, LogMetadata, Json, default_meta, open_store, save_vote, append, persist_meta,
}
use pgvisor.Storage.Engine.StateStore.{
  StateStore, apply, apply_entries, apply_entry, apply_payload, get_current_snapshot,
  install_snapshot,
}
use pgvisor.Storage.Engine.Purging.{open_store-append_torn}
use pgvisor.Storage.Engine.Snapshots.{apply_lem, install_snapshot-get_current_snapshot}

-- The vote is a number, and the metadata file holds it alone.
abbrev voted : Option ℕ → Bytes
voted none = []
voted (some v) = v ∷ []

abbrev parse_vote : Bytes → Option (LogMetadata ℕ)
parse_vote [] = some default_meta
parse_vote (v ∷ r) = some (record { vote = some v; last_purged_log_id = none })

abbrev json : Json ℕ
json = record { to_vec = λ m. voted m.vote; from_str = parse_vote }

store : LogStore ℕ
unfolding Wal.append append_entry frame put_u32 add_entry insert
store = record {
  meta = default_meta;
  wal = Wal.append toy empty (entry 1 ∷ entry 2 ∷ entry 3 ∷ []);
  meta_file = none;
}

abbrev fresh : LogStore ℕ
fresh = record { meta = default_meta; wal = empty; meta_file = none }

open_store-append_torn_example :
    open_store toy json
      ((append toy json (save_vote toy json fresh 9) (entry 1 ∷ [])).wal.file
        ++ take 5 (frame toy (entry 2)))
      (append toy json (save_vote toy json fresh 9) (entry 1 ∷ [])).meta_file
    ≡ ok (append toy json (save_vote toy json fresh 9) (entry 1 ∷ []))
unfolding frame put_u32 save_vote persist_meta open_wal scan
open_store-append_torn_example =
    open_store-append_torn toy json fresh 9 [] (entry 1 ∷ []) (entry 2) 5 refl refl
      (entry-IsStorable 1, tt) (entry-IsStorable 2) (omega arith)

abbrev follower : StateStore (Unit {0})
follower = record { state = with_index 2; disk = record { file = none; temp = none } }

abbrev leader_store : StateStore (Unit {0})
leader_store = record { state = with_index 5; disk = record { file = none; temp = none } }

abbrev stored : Option LogId → Unit {0} → Unit {0}
stored id m = m

apply_lem_example : length (apply stored toy_state follower (entry 3 ∷ entry 4 ∷ [])).1 ≡ 2
unfolding apply apply_entries apply_entry apply_payload
apply_lem_example =
    (apply_lem stored toy_state follower (entry 3 ∷ entry 4 ∷ []) (entry 5 ∷ [])
      (with_index-IsStorable 4)).0

install_snapshot-get_current_snapshot_example :
    (t' : StateStore (Unit {0})) × (install_snapshot toy_state
        (record {
          last_log_id = some (record { term = 1; node_id = 1; index = 5 });
          last_membership = tt;
          payload = 5 ∷ [];
        })
        follower
      ≡ StateMachine.ok t')
    × (t'.state ≡ with_index 5)
    × (open_state toy_state t'.disk ≡ StateMachine.ok (with_index 5, t'.disk))
unfolding get_current_snapshot StateMachine.build_snapshot_payload
install_snapshot-get_current_snapshot_example =
    install_snapshot-get_current_snapshot toy_state leader_store follower _ refl
      (with_index-IsStorable 5)
