-- ===== src/Storage/StateMachine/Persistence.antt =====
-- Persistence of the state machine of storage/state_machine.rs across restarts and crashes.
use pgvisor.Prelude.{◌≡◌, refl, ap, ◌∙◌, ◌⊎◌, inl, inr, ◌++◌, All, arith}
use pgvisor.Storage.Bytes.{
  put_u32, bytes_eq_refl, read_exact, read_exact-append, read_u32-put_u32, read_exact-put_u32,
}
use pgvisor.Storage.StateMachine.{
  StateMachineData, StateCodec, IsStorable, Disk, ok, state_magic, encode, persist_steps,
  persist_to_disk, open_payload, open_checksum, open_magic, open_state, build_snapshot_payload,
  restore_from_snapshot,
}

module _ {S : Type 0} (c : StateCodec S) where
  module _ (d : StateMachineData S) (storable : IsStorable c d) where
    open_payload-serialize : open_payload c (c.crc32 (c.serialize d)) (c.serialize d) ≡ ok d
    unfolding open_payload
    open_payload-serialize = ground (arith, storable.decodes)

    open_checksum-encode :
        open_checksum c (read_exact 4 (put_u32 (c.crc32 (c.serialize d)) ++ c.serialize d)) ≡ ok d
    unfolding open_checksum
    open_checksum-encode =
        ap (open_checksum c) (read_exact-put_u32 (c.crc32 (c.serialize d)) (c.serialize d))
        ∙ ap (λ n. open_payload c n (c.serialize d))
            (read_u32-put_u32 (c.crc32 (c.serialize d)) storable.crc32_bound)
        ∙ open_payload-serialize

    open_magic-encode : (disk : Disk) → open_magic c disk (read_exact 4 (encode c d)) ≡ ok (d, disk)
    unfolding open_magic encode
    open_magic-encode disk =
        ap (open_magic c disk)
          (read_exact-append state_magic (put_u32 (c.crc32 (c.serialize d)) ++ c.serialize d))
        ∙ rw (bytes_eq_refl state_magic, open_checksum-encode)

  -- A state is written to disk and the process stops at any of the write's system calls. The state
  -- file then is as it was, or it opens as the new state; and after the last call it does.
  pub open_state-persist_to_disk :
      (d : StateMachineData S) (disk : Disk)
      → IsStorable c d
      → All
          (λ (crashed : Disk).
            (crashed.file ≡ disk.file) ⊎ (open_state c crashed ≡ ok (d, crashed)))
          (persist_steps c d disk)
        × (open_state c (persist_to_disk c d disk) ≡ ok (d, persist_to_disk c d disk))
  unfolding open_state persist_to_disk persist_steps
  open_state-persist_to_disk d disk st = (
    (inl refl, (inl refl, (inl refl, (inl refl, (inr (open_magic-encode d st _), tt))))),
    open_magic-encode d st _,
  )

  -- A snapshot that one node builds is restored on another, whatever its state was: the other then
  -- has the first one's state, in memory and when it is opened again from its disk.
  pub restore_from_snapshot-build :
      (d old : StateMachineData S) (disk : Disk)
      → IsStorable c d
      → (disk' : Disk) × (restore_from_snapshot c (build_snapshot_payload c d) (old, disk)
          ≡ ok (d, disk'))
        × (open_state c disk' ≡ ok (d, disk'))
  unfolding restore_from_snapshot build_snapshot_payload
  restore_from_snapshot-build d old disk st = (
    persist_to_disk c d disk,
    rw (st.decodes, restore_from_snapshot),
    (open_state-persist_to_disk d disk st).1,
  )
