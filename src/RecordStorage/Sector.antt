-- ===== src/RecordStorage/Sector.antt =====
-- update_handoff_storage.c and download_checkpoint_storage.c of node-stm32f103/common/storage: the
-- steps of replacing a sector.
use mathlib.Core.Option.{some-injective}
use secure_delta_ota_bootloa.Base.{
  ℕ, ◌+◌, ◌≡◌, inl, inr, refl, ap, ◌∙◌, subst, Bool, true, Option, none, some, List, arith, take,
  drop, replicate, length-take, length-drop, Bool-cases,
}
use secure_delta_ota_bootloa.Base.Range.{read_range, read_range-eq, bytes_equal}
use secure_delta_ota_bootloa.Slots.{Slot}
use secure_delta_ota_bootloa.NorFlash.{NorFlash, NorLaws, IsReadable, SameMemory}
use secure_delta_ota_bootloa.ExternalStorage.{Partition, read, write}
use secure_delta_ota_bootloa.ExternalStorage.Frame.{
  start_of, read-SameMemory, write-frame, write-value, resolve_range-inside,
}
use secure_delta_ota_bootloa.RecordStorage.{
  RecordKind, KindLaws, AreApart, ok, partition_for_slot, preserved, write_records, verify_written,
  verdict, map_first, if_valid, write_preserved,
}
use secure_delta_ota_bootloa.RecordStorage.Steps.{
  bytes_in, stored_at, raw_read, body_and_crc, decoded_lem, size_of_slot, slot_fits,
}

module _ (own other : RecordKind) (nor : NorFlash) (laws : NorLaws nor) (own_laws : KindLaws own)
    (other_laws : KindLaws other) (apart : AreApart own other) where
  open nor use {Device, memory}

  -- What was preserved is in the other kind's place, which is erased where nothing was.
  abbrev pub Holds : Partition → Option other.Rec → Device → Type 0
  Holds p none d = bytes_in other nor p d ≡ replicate other.size 0xFF
  Holds p (some r) d = bytes_in other nor p d ≡ other.encode r

  pub write_records-lem :
      (p : Partition) (r : own.Rec) (kept : Option other.Rec) (d : Device)
      → bytes_in other nor p d ≡ replicate other.size 0xFF
      → (write_records own nor other p r kept d).0 ≡ true
      → (bytes_in own nor p (write_records own nor other p r kept d).1 ≡ own.encode r)
        × Holds p kept (write_records own nor other p r kept d).1
  write_records-lem p r kept d blank done = elim (Bool-cases body.0) [
    | inr b ↦ absurd (unfold write_records in ground (arith, done, b))
    | inl b ↦ elim (Bool-cases crc.0) [
      | inr c ↦ absurd (unfold write_records in ground (arith, done, b, c))
      | inl c ↦
          unfold write_records in
          rw (b, c)
            (finish kept (body_and_crc own other nor laws own_laws other_laws apart p r d b c)
              (rw (b, c) at done))
    ]
  ]
    where
      body : Bool × Device
      body = write nor p own.offset (take own.crc_offset (own.encode r)) d

      crc : Bool × Device
      crc = write nor p (own.offset + own.crc_offset) (drop own.crc_offset (own.encode r)) body.1

      finish :
          (kept : Option other.Rec)
          → bytes_in own nor p crc.1 ≡ own.encode r
          → (write_preserved own nor other p kept crc.1).0 ≡ true
          → (bytes_in own nor p (write_preserved own nor other p kept crc.1).1 ≡ own.encode r)
            × Holds p kept (write_preserved own nor other p kept crc.1).1
      finish none written ok' =
          let bs = own.encode r in
          let n = own.crc_offset in
          let short = length-take n bs in
          let long = length-drop n bs in
          let len = own_laws.length_encode r in
          (
            written,
            read_range-eq (memory crc.1) (memory d) (start_of p + other.offset) other.size
                  (λ a lo hi.
                    write-frame nor laws p (own.offset + n) (drop n bs) body.1 a
                      (ground (arith, len, long, apart, own_laws.crc_inside))
                    ∙ write-frame nor laws p own.offset (take n bs) d a
                        (ground (arith, len, short, apart, own_laws.crc_inside)))
                ∙ blank,
          )
      finish (some q) written ok' =
          let len = other_laws.length_encode q in
          (
            read_range-eq (memory (write nor p other.offset (other.encode q) crc.1).1)
                  (memory crc.1) (start_of p + own.offset) own.size
                  (λ a lo hi.
                    write-frame nor laws p other.offset (other.encode q) crc.1 a
                      (ground (arith, len, apart)))
                ∙ written,
            subst
                (λ m.
                  read_range (memory (write nor p other.offset (other.encode q) crc.1).1)
                    (start_of p + other.offset) m
                  ≡ other.encode q)
                len (write-value nor laws p other.offset (other.encode q) crc.1 ok').0,
          )

  pub preserved-SameMemory :
      (p : Partition) (d : Device) → SameMemory nor d (preserved own nor other p d).1
  preserved-SameMemory p d =
      unfold preserved in
      through (read nor p other.offset other.size d)
        (read-SameMemory nor laws p other.offset other.size d)
    where
      through :
          (result : Option (List ℕ) × Device)
          → SameMemory nor d result.1
          → SameMemory nor d (if_valid own nor other (map_first other.decode result)).1
      through (none, f) same = same
      through (some bs, f) same = same

  pub preserved-valid :
      (s : Slot) (d : Device)
      → IsReadable nor
      → other.is_valid (stored_at other nor s d) ≡ true
      → (preserved own nor other (partition_for_slot s) d).0 ≡ some (stored_at other nor s d)
  preserved-valid s d readable good =
      let p = partition_for_slot s in
      unfold preserved in
      through (read nor p other.offset other.size d) (
        unfold read in
        rw
          (resolve_range-inside p other.offset other.size (rw (size_of_slot s) other_laws.fits)
            other_laws.nonempty)
          (readable.reads _ _ d (slot_fits other other_laws s)))
    where
      through :
          (result : Option (List ℕ) × Device)
          → result.0 ≡ some (bytes_in other nor (partition_for_slot s) d)
          → (if_valid own nor other (map_first other.decode result)).0
            ≡ some (stored_at other nor s d)
      through (none, f) e = absurd (cc)
      through (some bs, f) e = let same = some-injective _ _ e in rw (same, good)

  pub verify_written-ok :
      (p : Partition) (t : Slot) (r : own.Rec) (d : Device)
      → (verify_written own nor p t r d).status ≡ ok
      → SameMemory nor d (verify_written own nor p t r d).device
        × ((verify_written own nor p t r d).found ≡ some (own.decode (bytes_in own nor p d)))
        × ((verify_written own nor p t r d).slot ≡ t)
  unfolding verify_written
  verify_written-ok p t r d done =
      through (map_first own.decode (read nor p own.offset own.size d)) refl done
    where
      through :
          (result : Option own.Rec × Device)
          → map_first own.decode (read nor p own.offset own.size d) ≡ result
          → (verdict own nor t r result).status ≡ ok
          → SameMemory nor d (verdict own nor t r result).device
            × ((verdict own nor t r result).found ≡ some (own.decode (bytes_in own nor p d)))
            × ((verdict own nor t r result).slot ≡ t)
      through (none, e) q done' = absurd (cc)
      through (some v, e) q done' =
          let value = decoded_lem own nor laws p d (raw_read own nor laws p d) refl v e q in
          elim (Bool-cases (own.is_valid v)) [
            | inr bad ↦ absurd (ground (arith, done', bad))
            | inl good ↦ elim (Bool-cases (bytes_equal (own.encode r) (own.encode v))) [
              | inr differ ↦ absurd (ground (arith, done', good, differ))
              | inl equal ↦ rw (good, equal) (value.1, ap some value.0, refl)
            ]
          ]
