-- ===== src/ExternalStorage/Tests.antt =====
-- A write and an erase in the incoming partition, seen from the backup.
use secure_delta_ota_bootloa.Base.{ℕ, ◌≡◌, ◌≢◌, [], ◌∷◌, arith}
use secure_delta_ota_bootloa.NorFlash.Ram.{nor_ram, nor_ram-NorLaws}
use secure_delta_ota_bootloa.ExternalStorage.{
  incoming, backup, write, erase_range, erase_partition, get_partition,
}
use secure_delta_ota_bootloa.ExternalStorage.Frame.{start_of, size_of}
use secure_delta_ota_bootloa.ExternalStorage.Isolation.{partitions_isolated, InPartition}

abbrev device : ℕ → ℕ
device a = 7

different : incoming ≢ backup
different e = cc

inside_backup : InPartition backup 0x42010
unfolding start_of size_of get_partition
inside_backup = omega arith

partitions_isolated_example :
    (nor_ram.memory (write nor_ram incoming 0x1F000 (1 ∷ 2 ∷ []) device).1 0x42010
      ≡ nor_ram.memory device 0x42010)
    × (nor_ram.memory (erase_range nor_ram incoming 0x1F000 0x1000 device).1 0x42010
        ≡ nor_ram.memory device 0x42010)
    × (nor_ram.memory (erase_partition nor_ram incoming device).1 0x42010
        ≡ nor_ram.memory device 0x42010)
partitions_isolated_example =
    partitions_isolated nor_ram nor_ram-NorLaws incoming backup 0x1F000 0x1000 (1 ∷ 2 ∷ []) device
      0x42010 different inside_backup
