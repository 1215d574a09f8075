-- ===== src/ExternalStorage/Erase.antt =====
-- node-stm32f103/common/storage/external_flash_storage.c: erased ranges, and the separation of the
-- partitions.
use secure_delta_ota_bootloa.Base.{
  ℕ, ◌+◌, ◌/◌, ◌%◌, ◌≤◌, ◌<◌, ◌≡◌, ◌⊎◌, inl, inr, refl, Bool, true, false, arith, length,
}
use secure_delta_ota_bootloa.Base.Bits.{bit_and_low}
use secure_delta_ota_bootloa.Memory.{ext_flash_sector_size}
use secure_delta_ota_bootloa.ExtFlash.{is_range_valid, is_sector_aligned}
use secure_delta_ota_bootloa.NorFlash.{NorFlash, NorLaws, OutsideRange}
use secure_delta_ota_bootloa.ExternalStorage.{
  Partition, get_partition, erase_sectors, erase_range, erase_partition, metadata_a, metadata_b,
  incoming, reconstructed, backup, log, self_test, partition_count,
}
use secure_delta_ota_bootloa.ExternalStorage.Frame.{
  start_of, size_of, erase_sectors-frame, erase_sectors-value,
}

module _ (nor : NorFlash) (laws : NorLaws nor) where
  open nor use {Device, memory}

  -- What an erase of `length` bytes from `offset` on amounts to: a run over whole sectors inside the
  -- partition, or nothing.
  ErasesWhole : Partition → ℕ → ℕ → Device → Bool × Device → Type 0
  ErasesWhole p offset length d result =
      (result ≡ (false, d))
      ⊎ ((offset + length ≤ size_of p)
          × (length % ext_flash_sector_size ≡ 0)
          × (result ≡ erase_sectors nor (length / ext_flash_sector_size) (start_of p + offset) d))

  erase_range_cases :
      (p : Partition) (offset length : ℕ) (d : Device)
      → ErasesWhole p offset length d (erase_range nor p offset length d)
  unfolding ErasesWhole erase_range get_partition is_range_valid start_of size_of
  erase_range_cases metadata_a o n d = ground (arith, bit_and_low 12 n)
  erase_range_cases metadata_b o n d = ground (arith, bit_and_low 12 n)
  erase_range_cases incoming o n d = ground (arith, bit_and_low 12 n)
  erase_range_cases reconstructed o n d = ground (arith, bit_and_low 12 n)
  erase_range_cases backup o n d = ground (arith, bit_and_low 12 n)
  erase_range_cases log o n d = ground (arith, bit_and_low 12 n)
  erase_range_cases self_test o n d = ground (arith, bit_and_low 12 n)
  erase_range_cases partition_count o n d = inl refl

  erase_partition_cases :
      (p : Partition) (d : Device) → ErasesWhole p 0 (size_of p) d (erase_partition nor p d)
  unfolding ErasesWhole erase_partition get_partition is_sector_aligned start_of size_of
  erase_partition_cases metadata_a d = inr (omega arith, omega arith, refl)
  erase_partition_cases metadata_b d = inr (omega arith, omega arith, refl)
  erase_partition_cases incoming d = inr (omega arith, omega arith, refl)
  erase_partition_cases reconstructed d = inr (omega arith, omega arith, refl)
  erase_partition_cases backup d = inr (omega arith, omega arith, refl)
  erase_partition_cases log d = inr (omega arith, omega arith, refl)
  erase_partition_cases self_test d = inr (omega arith, omega arith, refl)
  erase_partition_cases partition_count d = inl refl

  whole-frame :
      (p : Partition) (offset length : ℕ) (d : Device) (result : Bool × Device) (a : ℕ)
      → ErasesWhole p offset length d result
      → OutsideRange (start_of p + offset) length a
      → memory result.1 a ≡ memory d a
  unfolding ErasesWhole
  whole-frame p offset length d result a (inl e) out = rw e refl
  whole-frame p offset length d result a (inr (inside, whole, e)) out = rw e (
      erase_sectors-frame nor laws (length / ext_flash_sector_size) (start_of p + offset) d a
        (ground arith))

  whole-value :
      (p : Partition) (offset length : ℕ) (d : Device) (result : Bool × Device) (a : ℕ)
      → ErasesWhole p offset length d result
      → result.0 ≡ true
      → start_of p + offset ≤ a
      → a < start_of p + offset + length
      → memory result.1 a ≡ 0xFF
  unfolding ErasesWhole
  whole-value p offset length d result a (inl e) done lo hi = absurd (ground (arith, e, done))
  whole-value p offset length d result a (inr (inside, whole, e)) done lo hi = rw e (
      erase_sectors-value nor laws (length / ext_flash_sector_size) (start_of p + offset) d a
        (rw e at done) lo (omega arith))

  pub erase_range-frame :
      (p : Partition) (offset length : ℕ) (d : Device) (a : ℕ)
      → OutsideRange (start_of p + offset) length a
      → memory (erase_range nor p offset length d).1 a ≡ memory d a
  erase_range-frame p offset length d a =
      whole-frame p offset length d (erase_range nor p offset length d) a
        (erase_range_cases p offset length d)

  pub erase_range-value :
      (p : Partition) (offset length : ℕ) (d : Device) (a : ℕ)
      → (erase_range nor p offset length d).0 ≡ true
      → start_of p + offset ≤ a
      → a < start_of p + offset + length
      → memory (erase_range nor p offset length d).1 a ≡ 0xFF
  erase_range-value p offset length d a =
      whole-value p offset length d (erase_range nor p offset length d) a
        (erase_range_cases p offset length d)

  pub erase_partition-frame :
      (p : Partition) (d : Device) (a : ℕ)
      → OutsideRange (start_of p) (size_of p) a
      → memory (erase_partition nor p d).1 a ≡ memory d a
  erase_partition-frame p d a out =
      whole-frame p 0 (size_of p) d (erase_partition nor p d) a (erase_partition_cases p d)
        (ground arith)

  pub erase_partition-value :
      (p : Partition) (d : Device) (a : ℕ)
      → (erase_partition nor p d).0 ≡ true
      → start_of p ≤ a
      → a < start_of p + size_of p
      → memory (erase_partition nor p d).1 a ≡ 0xFF
  erase_partition-value p d a done lo hi =
      whole-value p 0 (size_of p) d (erase_partition nor p d) a (erase_partition_cases p d) done
        (omega arith) (omega arith)

  -- An erase reaches no byte outside its partition.
  pub erase_range-partition :
      (p : Partition) (offset length : ℕ) (d : Device) (a : ℕ)
      → OutsideRange (start_of p) (size_of p) a
      → memory (erase_range nor p offset length d).1 a ≡ memory d a
  unfolding ErasesWhole
  erase_range-partition p offset length d a out = elim (erase_range_cases p offset length d) [
    | inl e ↦ rw e refl
    | inr (inside, whole, e) ↦ erase_range-frame p offset length d a (ground arith)
  ]
