-- ===== src/Flash.antt =====
-- The internal flash as node-stm32f103/bootloader/storage/metadata_storage.c uses it: memory-mapped
-- reads, and the two programming calls of the vendor's stm32f10x_flash.c, whose code is not
-- modelled. `FlashLaws` is what the vendor documents of them: an erase clears one page, a half-word
-- is programmed where it was erased, and nothing else changes, whether the call completes or not.
use secure_delta_ota_bootloa.Base.{ℕ, ◌+◌, ◌/◌, ◌%◌, ◌≤◌, ◌<◌, ◌≡◌, ◌≢◌, ◌⊎◌, Bool, true, false}
use secure_delta_ota_bootloa.Base.Bytes.{IsByte, IsU16}

-- `FLASH_Status`.
pub data FlashStatus : Type 0 where
  busy error_program error_protected complete timeout : FlashStatus

abbrev pub is_complete : FlashStatus → Bool
is_complete complete = true
is_complete _ = false

pub record Flash : Type 1 where
  pub Device : Type 0
  pub read : Device → ℕ → ℕ
  pub erase_page : ℕ → Device → FlashStatus × Device
  pub program_half_word : ℕ → ℕ → Device → FlashStatus × Device

abbrev pub page_size : ℕ
page_size = 1024

abbrev pub Outside : ℕ → ℕ → Type 0
Outside page a = (a < page) ⊎ (page + page_size ≤ a)

pub record FlashLaws (flash : Flash) : Type 0 where
  pub read_byte : (d : flash.Device) (a : ℕ) → IsByte (flash.read d a)
  pub erase_frame :
      (page a : ℕ) (d : flash.Device)
      → Outside page a
      → flash.read (flash.erase_page page d).1 a ≡ flash.read d a
  pub erase_blank :
      (page a : ℕ) (d : flash.Device)
      → (flash.erase_page page d).0 ≡ complete
      → page ≤ a
      → a < page + page_size
      → flash.read (flash.erase_page page d).1 a ≡ 0xFF
  pub program_frame :
      (p v a : ℕ) (d : flash.Device)
      → a ≢ p
      → a ≢ p + 1
      → flash.read (flash.program_half_word p v d).1 a ≡ flash.read d a
  pub program_value :
      (p v : ℕ) (d : flash.Device)
      → (flash.program_half_word p v d).0 ≡ complete
      → flash.read d p ≡ 0xFF
      → flash.read d (p + 1) ≡ 0xFF
      → IsU16 v
      → (flash.read (flash.program_half_word p v d).1 p ≡ v % 256)
        × (flash.read (flash.program_half_word p v d).1 (p + 1) ≡ v / 256)
