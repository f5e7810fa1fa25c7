-- ===== src/Storage/Wal/Examples.antt =====
-- Runs and instances for storage/wal.rs, with a codec of three numbers for entries without payload.
use pgvisor.Prelude.{◌≡◌, refl, ◌⊎◌, [], ◌∷◌, ◌++◌, take, arith}
use pgvisor.Prelude.Maps.Ordered.{insert}
use pgvisor.Storage.Bytes.{Bytes, put_u32, read_u32, bytes_eq, read_exact}
use pgvisor.Storage.Wal.{
  Wal, ok, err, serialization, open_wal, scan, parse_record, parse_header, parse_payload,
  decode_payload, add_entry, frame, append_entry, append, read_entry,
}
use pgvisor.Storage.Fixtures.{entry, toy, entry-IsStorable, empty}
use pgvisor.Storage.Wal.Durability.{open_wal-prefix, open_wal-append_torn}
use pgvisor.Storage.Wal.Appending.{read_entry-append}

-- Three entries, at the indices 1, 2 and 3.
three : Wal
unfolding append append_entry frame put_u32 add_entry insert
three = append toy empty (entry 1 ∷ entry 2 ∷ entry 3 ∷ [])

reopened : open_wal toy three.file ≡ ok three
unfolding three open_wal scan parse_record parse_header parse_payload decode_payload read_exact
    read_u32 bytes_eq
reopened = refl

-- A byte of the second record is damaged: the first record is kept.
damaged_second :
    open_wal toy (take 20 three.file ++ 9 ∷ 9 ∷ []) ≡ ok (append toy empty (entry 1 ∷ []))
unfolding three open_wal scan parse_record parse_header parse_payload decode_payload read_exact
    read_u32 bytes_eq append append_entry frame put_u32 add_entry insert
damaged_second = refl

open_wal-prefix_example :
    (open_wal toy (1 ∷ 2 ∷ []) ≡ err serialization)
    ⊎ ((w : Wal) × (tail : Bytes) × (open_wal toy (1 ∷ 2 ∷ []) ≡ ok w)
        × (1 ∷ 2 ∷ [] ≡ w.file ++ tail)
        × (open_wal toy w.file ≡ ok w))
open_wal-prefix_example = open_wal-prefix toy (1 ∷ 2 ∷ [])

open_wal-append_torn_example :
    open_wal toy ((append toy three (entry 4 ∷ [])).file ++ take 13 (frame toy (entry 5)))
    ≡ ok (append toy three (entry 4 ∷ []))
unfolding frame put_u32
open_wal-append_torn_example =
    open_wal-append_torn toy three.file three (entry 4 ∷ []) (entry 5) 13 reopened
      (entry-IsStorable 4, tt) (entry-IsStorable 5) (omega arith)

read_entry-append_example :
    read_entry toy (append_entry toy (append toy three (entry 4 ∷ [])) (entry 5)) 2
    ≡ read_entry toy (append toy three (entry 4 ∷ [])) 2
read_entry-append_example =
    read_entry-append toy three.file three (entry 4 ∷ []) (entry 5) 2 reopened
      (entry-IsStorable 4, tt) (entry-IsStorable 5)
