-- ===== src/ExternalStorage/Frame.antt =====
-- node-stm32f103/common/storage/external_flash_storage.c: which bytes each operation can change.
use secure_delta_ota_bootloa.Base.{
  ℕ, zero, suc, ◌+◌, ◌*◌, ◌≤◌, ◌<◌, ◌≡◌, ◌≢◌, inl, inr, refl, ◌∙◌, true, Option, none, some, List,
  arith, length, ltb, Bool-cases, Option-cases,
}
use secure_delta_ota_bootloa.Base.Range.{read_range}
use secure_delta_ota_bootloa.Memory.{ext_flash_sector_size}
use secure_delta_ota_bootloa.ExtFlash.{is_range_valid}
use secure_delta_ota_bootloa.NorFlash.{NorFlash, NorLaws, OutsideRange, SameMemory}
use secure_delta_ota_bootloa.ExternalStorage.{
  Partition, PartitionInfo, get_partition, resolve_range, read, write, verify, erase_sectors,
  metadata_a, metadata_b, incoming, reconstructed, backup, log, self_test, partition_count,
}

abbrev start_in : Option PartitionInfo → ℕ
start_in none = 0
start_in (some info) = info.address

abbrev size_in : Option PartitionInfo → ℕ
size_in none = 0
size_in (some info) = info.size

-- Where a partition lies; `partition_count` is empty.
unfoldable pub start_of : Partition → ℕ
unfolding get_partition
start_of p = start_in (get_partition p)

unfoldable pub size_of : Partition → ℕ
unfolding get_partition
size_of p = size_in (get_partition p)

-- A range that resolves lies inside the partition, without a wrap-around.
pub resolve_range_lem :
    (p : Partition) (offset length address : ℕ)
    → resolve_range p offset length ≡ some address
    → (address ≡ start_of p + offset) × (offset + length ≤ size_of p)
unfolding resolve_range get_partition is_range_valid start_of size_of
resolve_range_lem metadata_a offset length address h = ground arith
resolve_range_lem metadata_b offset length address h = ground arith
resolve_range_lem incoming offset length address h = ground arith
resolve_range_lem reconstructed offset length address h = ground arith
resolve_range_lem backup offset length address h = ground arith
resolve_range_lem log offset length address h = ground arith
resolve_range_lem self_test offset length address h = ground arith
resolve_range_lem partition_count offset length address h = ground arith

pub resolve_range-inside :
    (p : Partition) (offset length : ℕ)
    → offset + length ≤ size_of p
    → length ≢ 0
    → resolve_range p offset length ≡ some (start_of p + offset)
unfolding resolve_range get_partition is_range_valid start_of size_of
resolve_range-inside metadata_a offset length h ne = ground arith
resolve_range-inside metadata_b offset length h ne = ground arith
resolve_range-inside incoming offset length h ne = ground arith
resolve_range-inside reconstructed offset length h ne = ground arith
resolve_range-inside backup offset length h ne = ground arith
resolve_range-inside log offset length h ne = ground arith
resolve_range-inside self_test offset length h ne = ground arith
resolve_range-inside partition_count offset length h ne = ground arith

module _ (nor : NorFlash) (laws : NorLaws nor) where
  open nor use {Device, memory}
  open laws use {
    read_frame, read_value, verify_frame, verify_value, write_frame, write_value, erase_frame,
    erase_value,
  }

  pub read-SameMemory :
      (p : Partition) (offset length : ℕ) (d : Device)
      → SameMemory nor d (read nor p offset length d).1
  unfolding read
  read-SameMemory p offset length d = elim (Option-cases (resolve_range p offset length)) [
    | inl e ↦ rw e (λ a. refl)
    | inr (address, e) ↦ rw e (read_frame address length d)
  ]

  pub read-value :
      (p : Partition) (offset length : ℕ) (d : Device) (bs : List ℕ)
      → (read nor p offset length d).0 ≡ some bs
      → bs ≡ read_range (memory d) (start_of p + offset) length
  unfolding read
  read-value p offset length d bs h = elim (Option-cases (resolve_range p offset length)) [
    | inl e ↦ absurd (ground (arith, h, e))
    | inr (address, e) ↦
        rw (← (resolve_range_lem p offset length address e).0)
          (read_value address length d bs (rw e at h))
  ]

  pub write-frame :
      (p : Partition) (offset : ℕ) (bs : List ℕ) (d : Device) (a : ℕ)
      → OutsideRange (start_of p + offset) (length bs) a
      → memory (write nor p offset bs d).1 a ≡ memory d a
  unfolding write
  write-frame p offset bs d a out = elim (Option-cases (resolve_range p offset (length bs))) [
    | inl e ↦ rw e refl
    | inr (address, e) ↦
        rw e
          (write_frame address bs d a (rw (resolve_range_lem p offset (length bs) address e).0 out))
  ]

  pub write-value :
      (p : Partition) (offset : ℕ) (bs : List ℕ) (d : Device)
      → (write nor p offset bs d).0 ≡ true
      → (read_range (memory (write nor p offset bs d).1) (start_of p + offset) (length bs) ≡ bs)
        × (offset + length bs ≤ size_of p)
  unfolding write
  write-value p offset bs d h = elim (Option-cases (resolve_range p offset (length bs))) [
    | inl e ↦ absurd (ground (arith, h, e))
    | inr (address, e) ↦
        let (place, inside) = resolve_range_lem p offset (length bs) address e in
        (rw (e, ← place) (write_value address bs d (rw e at h)), inside)
  ]

  pub verify-SameMemory :
      (p : Partition) (offset : ℕ) (bs : List ℕ) (d : Device)
      → SameMemory nor d (verify nor p offset bs d).1
  unfolding verify
  verify-SameMemory p offset bs d = elim (Option-cases (resolve_range p offset (length bs))) [
    | inl e ↦ rw e (λ a. refl)
    | inr (address, e) ↦ rw e (verify_frame address bs d)
  ]

  pub verify-value :
      (p : Partition) (offset : ℕ) (bs : List ℕ) (d : Device)
      → (verify nor p offset bs d).0 ≡ true
      → read_range (memory d) (start_of p + offset) (length bs) ≡ bs
  unfolding verify
  verify-value p offset bs d h = elim (Option-cases (resolve_range p offset (length bs))) [
    | inl e ↦ absurd (ground (arith, h, e))
    | inr (address, e) ↦
        let (place, inside) = resolve_range_lem p offset (length bs) address e in
        rw (← place) (verify_value address bs d (rw e at h))
  ]

  pub erase_sectors-frame :
      (sectors address : ℕ) (d : Device) (a : ℕ)
      → OutsideRange address (ext_flash_sector_size * sectors) a
      → memory (erase_sectors nor sectors address d).1 a ≡ memory d a
  unfolding erase_sectors
  erase_sectors-frame zero address d a out = refl
  erase_sectors-frame (suc n) address d a out =
      let first = nor.erase_sector address d in
      let here = erase_frame address d a (ground arith) in
      elim (Bool-cases first.0) [
        | inl done ↦
            rw done (erase_sectors-frame n (address + 4096) first.1 a (ground arith) ∙ here)
        | inr stopped ↦ rw stopped here
      ]

  pub erase_sectors-value :
      (sectors address : ℕ) (d : Device) (a : ℕ)
      → (erase_sectors nor sectors address d).0 ≡ true
      → address ≤ a
      → a < address + ext_flash_sector_size * sectors
      → memory (erase_sectors nor sectors address d).1 a ≡ 0xFF
  unfolding erase_sectors
  erase_sectors-value zero address d a done lo hi = absurd (omega arith)
  erase_sectors-value (suc n) address d a done lo hi =
      let first = nor.erase_sector address d in
      elim (Bool-cases first.0) [
        | inr stopped ↦ absurd (ground (arith, done, stopped))
        | inl ok' ↦ elim (Bool-cases (ltb a (address + 4096))) [
          | inl here ↦ rw ok' (
              erase_sectors-frame n (address + 4096) first.1 a (inl (ground arith))
              ∙ erase_value address d a ok' lo (ground arith))
          | inr later ↦ rw ok' (
              erase_sectors-value n (address + 4096) first.1 a (rw ok' at done) (ground arith)
                (omega arith))
        ]
      ]

  -- A write reaches no byte outside its partition.
  pub write-partition :
      (p : Partition) (offset : ℕ) (bs : List ℕ) (d : Device) (a : ℕ)
      → OutsideRange (start_of p) (size_of p) a
      → memory (write nor p offset bs d).1 a ≡ memory d a
  unfolding write
  write-partition p offset bs d a out = elim (Option-cases (resolve_range p offset (length bs))) [
    | inl e ↦ rw e refl
    | inr (address, e) ↦
        let (place, inside) = resolve_range_lem p offset (length bs) address e in
        rw e (write_frame address bs d a (ground arith))
  ]
