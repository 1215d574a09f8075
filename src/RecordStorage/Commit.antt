-- ===== src/RecordStorage/Commit.antt =====
-- update_handoff_storage.c and download_checkpoint_storage.c of node-stm32f103/common/storage: the
-- sectors after a commit that reports success.
use secure_delta_ota_bootloa.Base.{
  ℕ, ◌+◌, ◌≡◌, inl, inr, refl, ap, ◌∙◌, Bool, true, Option, none, some, arith, take, drop,
  replicate, Bool-cases,
}
use secure_delta_ota_bootloa.Base.Range.{read_range-replicate}
use secure_delta_ota_bootloa.Slots.{Slot}
use secure_delta_ota_bootloa.NorFlash.{NorFlash, NorLaws, OutsideRange, SameMemory}
use secure_delta_ota_bootloa.ExternalStorage.{Partition, write, erase_partition}
use secure_delta_ota_bootloa.ExternalStorage.Frame.{start_of, size_of, write-partition}
use secure_delta_ota_bootloa.ExternalStorage.Erase.{erase_partition-frame, erase_partition-value}
use secure_delta_ota_bootloa.RecordStorage.{
  RecordKind, KindLaws, AreApart, ok, partition_for_slot, preserved, write_records, verify_written,
  replace_sector, write_preserved,
}
use secure_delta_ota_bootloa.RecordStorage.Steps.{bytes_in, bytes_in-SameMemory, size_of_slot}
use secure_delta_ota_bootloa.RecordStorage.Sector.{
  Holds, write_records-lem, preserved-SameMemory, verify_written-ok,
}

module _ (own other : RecordKind) (nor : NorFlash) (laws : NorLaws nor) (own_laws : KindLaws own)
    (other_laws : KindLaws other) (apart : AreApart own other) where
  open nor use {Device, memory}

  write_preserved-frame :
      (p : Partition) (kept : Option other.Rec) (d : Device) (a : ℕ)
      → OutsideRange (start_of p) (size_of p) a
      → memory (write_preserved own nor other p kept d).1 a ≡ memory d a
  write_preserved-frame p none d a out = refl
  write_preserved-frame p (some r) d a out =
      write-partition nor laws p other.offset (other.encode r) d a out

  write_records-frame :
      (p : Partition) (r : own.Rec) (kept : Option other.Rec) (d : Device) (a : ℕ)
      → OutsideRange (start_of p) (size_of p) a
      → memory (write_records own nor other p r kept d).1 a ≡ memory d a
  write_records-frame p r kept d a out =
      let body = write nor p own.offset (take own.crc_offset (own.encode r)) d in
      let crc =
        write nor p (own.offset + own.crc_offset) (drop own.crc_offset (own.encode r)) body.1 in
      let first =
        write-partition nor laws p own.offset (take own.crc_offset (own.encode r)) d a out in
      let second =
        write-partition nor laws p (own.offset + own.crc_offset)
          (drop own.crc_offset (own.encode r)) body.1 a out in
      let third = write_preserved-frame p kept crc.1 a out in
      elim (Bool-cases body.0) [
        | inr b ↦ unfold write_records in rw b first
        | inl b ↦ elim (Bool-cases crc.0) [
          | inr c ↦ unfold write_records in rw (b, c) (second ∙ first)
          | inl c ↦ unfold write_records in rw (b, c) (third ∙ second ∙ first)
        ]
      ]

  -- The sector of slot `t` after `r` was put into it, and all the rest of the flash.
  pub record Replaced (t : Slot) (r : own.Rec) (d e : Device) : Type 0 where
    pub own_bytes : bytes_in own nor (partition_for_slot t) e ≡ own.encode r
    pub other_kept :
        Holds own other nor laws own_laws other_laws apart
          (partition_for_slot t)
          (preserved own nor other (partition_for_slot t) d).0
          e
    pub frame :
        (a : ℕ)
        → OutsideRange (start_of (partition_for_slot t)) (size_of (partition_for_slot t)) a
        → memory e a ≡ memory d a

  Holds-SameMemory :
      (p : Partition) (kept : Option other.Rec) (d e : Device)
      → SameMemory nor d e
      → Holds own other nor laws own_laws other_laws apart p kept d
      → Holds own other nor laws own_laws other_laws apart p kept e
  Holds-SameMemory p none d e same h = bytes_in-SameMemory other nor p d e same ∙ h
  Holds-SameMemory p (some r) d e same h = bytes_in-SameMemory other nor p d e same ∙ h

  pub replace_sector-ok :
      (t : Slot) (r : own.Rec) (d : Device)
      → (replace_sector own nor other t r d).status ≡ ok
      → Replaced t r d (replace_sector own nor other t r d).device
        × ((replace_sector own nor other t r d).found ≡ some (own.decode (own.encode r)))
        × ((replace_sector own nor other t r d).slot ≡ t)
  replace_sector-ok t r d done = elim (Bool-cases erased.0) [
    | inr b ↦ absurd (unfold replace_sector in ground (arith, done, b))
    | inl b ↦ elim (Bool-cases written.0) [
      | inr c ↦ absurd (unfold replace_sector in ground (arith, done, b, c))
      | inl c ↦ unfold replace_sector in rw (b, c) (finish b c (rw (b, c) at done))
    ]
  ]
    where
      p : Partition
      p = partition_for_slot t

      kept : Option other.Rec × Device
      kept = preserved own nor other p d

      erased : Bool × Device
      erased = erase_partition nor p kept.1

      written : Bool × Device
      written = write_records own nor other p r kept.0 erased.1

      blank : erased.0 ≡ true → bytes_in other nor p erased.1 ≡ replicate other.size 0xFF
      blank b =
          read_range-replicate (memory erased.1) (start_of p + other.offset) other.size 0xFF
            (λ a lo hi.
              erase_partition-value nor laws p kept.1 a b (omega (arith, lo))
                (omega (arith, hi, size_of_slot t, other_laws.fits)))

      finish :
          erased.0 ≡ true
          → written.0 ≡ true
          → (verify_written own nor p t r written.1).status ≡ ok
          → Replaced t r d (verify_written own nor p t r written.1).device
            × ((verify_written own nor p t r written.1).found ≡ some (own.decode (own.encode r)))
            × ((verify_written own nor p t r written.1).slot ≡ t)
      finish b c verified =
          let (same, found, slot) =
            verify_written-ok own other nor laws own_laws other_laws apart p t r written.1
              verified in
          let (bytes, holds) =
            write_records-lem own other nor laws own_laws other_laws apart p r kept.0 erased.1
              (blank b) c in
          let last = (verify_written own nor p t r written.1).device in
          (
            record {
              own_bytes = bytes_in-SameMemory own nor p written.1 last same ∙ bytes;
              other_kept = Holds-SameMemory p kept.0 written.1 last same holds;
              frame = λ a out.
                  same a
                  ∙ write_records-frame p r kept.0 erased.1 a out
                  ∙ erase_partition-frame nor laws p kept.1 a out
                  ∙ preserved-SameMemory own other nor laws own_laws other_laws apart p d a;
            },
            found ∙ ap (λ bs. some (own.decode bs)) bytes,
            slot,
          )
