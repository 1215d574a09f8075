-- ===== src/ExternalStorage/Isolation.antt =====
-- node-stm32f103/common/storage/external_flash_storage.c and shared/include/memory_map.h: the
-- partitions share no byte.
use secure_delta_ota_bootloa.Base.{
  ℕ, ◌+◌, ◌≤◌, ◌<◌, ◌≡◌, ◌≢◌, inl, inr, sym, ◌∙◌, List, arith, length, ltb, leb, if◌then◌else◌,
  Bool-cases,
}
use secure_delta_ota_bootloa.NorFlash.{NorFlash, NorLaws, OutsideRange}
use secure_delta_ota_bootloa.ExternalStorage.{
  Partition, get_partition, write, erase_range, erase_partition, metadata_a, metadata_b, incoming,
  reconstructed, backup, log, self_test, partition_count,
}
use secure_delta_ota_bootloa.ExternalStorage.Frame.{start_of, size_of, write-partition}
use secure_delta_ota_bootloa.ExternalStorage.Erase.{erase_range-partition, erase_partition-frame}

abbrev pub InPartition : Partition → ℕ → Type 0
InPartition p a = (start_of p ≤ a) × (a < start_of p + size_of p)

-- The partition that an address lies in.
partition_of : ℕ → Partition
partition_of a =
    if ltb a 0x1000
    then metadata_a
    else if ltb a 0x2000
    then metadata_b
    else if ltb a 0x22000
    then incoming
    else if ltb a 0x42000
    then reconstructed
    else if ltb a 0x62000
    then backup
    else if ltb a 0x72000
    then log
    else if ltb a 0x3FF000
    then partition_count
    else if ltb a 0x400000
    then self_test
    else partition_count

partition_of_inside : (p : Partition) (a : ℕ) → InPartition p a → partition_of a ≡ p
unfolding partition_of start_of size_of get_partition
partition_of_inside metadata_a a h = ground arith
partition_of_inside metadata_b a h = ground arith
partition_of_inside incoming a h = ground arith
partition_of_inside reconstructed a h = ground arith
partition_of_inside backup a h = ground arith
partition_of_inside log a h = ground arith
partition_of_inside self_test a h = ground arith
partition_of_inside partition_count a h = absurd (omega (arith, h))

-- An address of one partition lies outside every other.
pub partitions_disjoint :
    (p q : Partition) (a : ℕ) → p ≢ q → InPartition q a → OutsideRange (start_of p) (size_of p) a
partitions_disjoint p q a ne inside = elim (Bool-cases (ltb a (start_of p))) [
  | inl below ↦ inl (ground arith)
  | inr above ↦ elim (Bool-cases (leb (start_of p + size_of p) a)) [
    | inl past ↦ inr (ground arith)
    | inr within ↦ absurd (
        ne (
          sym (partition_of_inside p a (ground arith, ground arith))
          ∙ partition_of_inside q a inside))
  ]
]

module _ (nor : NorFlash) (laws : NorLaws nor) where
  open nor use {Device, memory}

  -- Writing or erasing in one partition changes no byte of another, whatever the offset, the length
  -- and the data are, and whether the operation succeeds or not.
  pub partitions_isolated :
      (p q : Partition) (offset length : ℕ) (bs : List ℕ) (d : Device) (a : ℕ)
      → p ≢ q
      → InPartition q a
      → (memory (write nor p offset bs d).1 a ≡ memory d a)
        × (memory (erase_range nor p offset length d).1 a ≡ memory d a)
        × (memory (erase_partition nor p d).1 a ≡ memory d a)
  partitions_isolated p q offset length bs d a ne inside =
      let out = partitions_disjoint p q a ne inside in
      (
        write-partition nor laws p offset bs d a out,
        erase_range-partition nor laws p offset length d a out,
        erase_partition-frame nor laws p d a out,
      )
