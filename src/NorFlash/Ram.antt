-- ===== src/NorFlash/Ram.antt =====
-- An external flash in memory that meets the laws of `NorLaws`: reads and erases succeed, and a write
-- succeeds if it stores bytes.
use mathlib.Core.Option.{some-injective}
use secure_delta_ota_bootloa.Base.{
  ℕ, ◌+◌, ◌-◌, ◌%◌, ◌≡◌, refl, sym, true, ◌&&◌, some, List, arith, leb, ltb, if◌then◌else◌, length,
  replicate, get_or,
}
use secure_delta_ota_bootloa.Base.Range.{read_range, length-read_range, bytes_equal, bytes_equal-eq}
use secure_delta_ota_bootloa.Memory.{ext_flash_sector_size}
use secure_delta_ota_bootloa.NorFlash.{NorFlash, NorLaws, OutsideRange, IsReadable}

abbrev pub bytes_of : (ℕ → ℕ) → ℕ → ℕ
bytes_of d a = d a % 256

-- The bytes of a list over a memory, from an address on.
unfoldable pub store : ℕ → List ℕ → (ℕ → ℕ) → ℕ → ℕ
store address bs d a =
    if leb address a && ltb a (address + length bs) then get_or bs (a - address) 0 else d a

abbrev pub nor_ram : NorFlash
nor_ram = record {
  Device = ℕ → ℕ;
  memory = bytes_of;
  init = λ d. (true, d);
  read = λ a n d. (some (read_range (bytes_of d) a n), d);
  verify = λ a bs d. (bytes_equal (read_range (bytes_of d) a (length bs)) bs, d);
  write =
      λ a bs d. (bytes_equal (read_range (bytes_of (store a bs d)) a (length bs)) bs, store a bs d);
  erase_sector =
      λ a d. (true, λ x. if leb a x && ltb x (a + ext_flash_sector_size) then 0xFF else d x);
  is_erased = λ a n d. (bytes_equal (read_range (bytes_of d) a n) (replicate n 0xFF), d);
}

store-frame :
    (a : ℕ) (bs : List ℕ) (d : ℕ → ℕ) (x : ℕ) → OutsideRange a (length bs) x → store a bs d x ≡ d x
unfolding store
store-frame a bs d x out = ground arith

pub nor_ram-NorLaws : NorLaws nor_ram
nor_ram-NorLaws = record {
  memory_byte = λ d a. omega arith;
  init_frame = λ d a. refl;
  read_frame = λ a n d x. refl;
  read_value = λ a n d bs e. sym (some-injective _ _ e);
  verify_frame = λ a bs d x. refl;
  verify_value = λ a bs d e. bytes_equal-eq _ _ (length-read_range _ _ _) e;
  write_frame = λ a bs d x out. rw (store-frame a bs d x out) refl;
  write_value = λ a bs d e. bytes_equal-eq _ _ (length-read_range _ _ _) e;
  erase_frame = λ a d x out. ground arith;
  erase_value = λ a d x done lo hi. ground arith;
}

pub nor_ram-IsReadable : IsReadable nor_ram
nor_ram-IsReadable = record { reads = λ a n d inside. refl }
