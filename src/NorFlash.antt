-- ===== src/NorFlash.antt =====
-- The external flash as its clients see it: the operations that
-- node-stm32f103/common/include/spi_flash.h declares, over a memory array. A result that the caller
-- passes a buffer for is an `Option`; `false` is returned on every error.
pub mod Ram
use secure_delta_ota_bootloa.Base.{
  ℕ, ◌+◌, ◌≤◌, ◌<◌, ◌≡◌, ◌⊎◌, Bool, true, Option, some, List, length,
}
use secure_delta_ota_bootloa.Base.Bytes.{IsByte}
use secure_delta_ota_bootloa.Base.Range.{read_range}
use secure_delta_ota_bootloa.Memory.{ext_flash_size, ext_flash_sector_size}

pub record NorFlash : Type 1 where
  pub Device : Type 0
  pub memory : Device → ℕ → ℕ
  pub init : Device → Bool × Device
  pub read : ℕ → ℕ → Device → Option (List ℕ) × Device
  pub verify : ℕ → List ℕ → Device → Bool × Device
  pub write : ℕ → List ℕ → Device → Bool × Device
  pub erase_sector : ℕ → Device → Bool × Device
  pub is_erased : ℕ → ℕ → Device → Bool × Device

abbrev pub OutsideRange : ℕ → ℕ → ℕ → Type 0
OutsideRange address length a = (a < address) ⊎ (address + length ≤ a)

-- Two devices with the same bytes.
abbrev pub SameMemory : (nor : NorFlash) → nor.Device → nor.Device → Type 0
SameMemory nor d e = (a : ℕ) → nor.memory e a ≡ nor.memory d a

-- Reads do not change the memory and return what it holds; a write or an erase changes nothing
-- outside its range, whether it succeeds or not, and on success it has its effect.
pub record NorLaws (nor : NorFlash) : Type 0 where
  pub memory_byte : (d : nor.Device) (a : ℕ) → IsByte (nor.memory d a)
  pub init_frame : (d : nor.Device) → SameMemory nor d (nor.init d).1
  pub read_frame : (a n : ℕ) (d : nor.Device) → SameMemory nor d (nor.read a n d).1
  pub read_value :
      (a n : ℕ) (d : nor.Device) (bs : List ℕ)
      → (nor.read a n d).0 ≡ some bs
      → bs ≡ read_range (nor.memory d) a n
  pub verify_frame : (a : ℕ) (bs : List ℕ) (d : nor.Device) → SameMemory nor d (nor.verify a bs d).1
  pub verify_value :
      (a : ℕ) (bs : List ℕ) (d : nor.Device)
      → (nor.verify a bs d).0 ≡ true
      → read_range (nor.memory d) a (length bs) ≡ bs
  pub write_frame :
      (a : ℕ) (bs : List ℕ) (d : nor.Device) (x : ℕ)
      → OutsideRange a (length bs) x
      → nor.memory (nor.write a bs d).1 x ≡ nor.memory d x
  pub write_value :
      (a : ℕ) (bs : List ℕ) (d : nor.Device)
      → (nor.write a bs d).0 ≡ true
      → read_range (nor.memory (nor.write a bs d).1) a (length bs) ≡ bs
  pub erase_frame :
      (a : ℕ) (d : nor.Device) (x : ℕ)
      → OutsideRange a ext_flash_sector_size x
      → nor.memory (nor.erase_sector a d).1 x ≡ nor.memory d x
  pub erase_value :
      (a : ℕ) (d : nor.Device) (x : ℕ)
      → (nor.erase_sector a d).0 ≡ true
      → a ≤ x
      → x < a + ext_flash_sector_size
      → nor.memory (nor.erase_sector a d).1 x ≡ 0xFF

-- No read inside the flash times out.
pub record IsReadable (nor : NorFlash) : Type 0 where
  pub reads :
      (a n : ℕ) (d : nor.Device)
      → a + n ≤ ext_flash_size
      → (nor.read a n d).0 ≡ some (read_range (nor.memory d) a n)
