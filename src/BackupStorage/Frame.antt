-- ===== src/BackupStorage/Frame.antt =====
-- node-stm32f103/common/storage/backup_image_storage.c: which bytes of the external flash the header
-- operations and the image operations reach.
use secure_delta_ota_bootloa.Base.{
  ℕ, ◌+◌, ◌≤◌, ◌<◌, ◌≡◌, inl, inr, refl, ◌∙◌, not, ◌||◌, Option, none, some, List, arith, length,
  take, drop, length-take, length-drop, Bool-cases,
}
use secure_delta_ota_bootloa.Base.Range.{bytes_equal}
use secure_delta_ota_bootloa.Memory.{ext_flash_sector_size, ext_backup_address}
use secure_delta_ota_bootloa.BackupImage.{
  BackupImage, encode, decode, finalize, validate, is_valid_status, crc_offset, data_offset,
}
use secure_delta_ota_bootloa.BackupImage.Image.{length-encode_backup}
use secure_delta_ota_bootloa.NorFlash.{NorFlash, NorLaws, OutsideRange, SameMemory}
use secure_delta_ota_bootloa.ExternalStorage.{backup, read, write, get_partition}
use secure_delta_ota_bootloa.ExternalStorage.Frame.{start_of, read-SameMemory, write-frame}
use secure_delta_ota_bootloa.ExternalStorage.Erase.{erase_range-frame}
use secure_delta_ota_bootloa.BackupStorage.{
  is_ok, image_range_valid, header_size, invalidate_header, write_header, verdict, commit_header,
  write_image, erase_image_sector,
}

-- Where the image of the backup begins.
abbrev pub image_start : ℕ
image_start = ext_backup_address + data_offset

abbrev pub IsHeaderAddress : ℕ → Type 0
IsHeaderAddress a = (ext_backup_address ≤ a) × (a < ext_backup_address + ext_flash_sector_size)

pub backup_start : start_of backup ≡ ext_backup_address
unfolding start_of get_partition
backup_start = refl

module _ (nor : NorFlash) (laws : NorLaws nor) where
  open nor use {Device, memory}

  -- No byte outside the header's sector changes.
  abbrev KeepsImage : Device → Device → Type 0
  KeepsImage d e =
      (a : ℕ) → OutsideRange ext_backup_address ext_flash_sector_size a → memory e a ≡ memory d a

  verdict-SameMemory :
      (candidate : BackupImage) (result : Option (List ℕ) × Device) (d : Device)
      → SameMemory nor d result.1
      → SameMemory nor d (verdict nor candidate result).device
  verdict-SameMemory candidate (none, e) d same = same
  verdict-SameMemory candidate (some bytes, e) d same =
      elim (Bool-cases (
        not (is_valid_status (validate (some (decode bytes))))
        || not (bytes_equal (encode candidate) (encode (decode bytes))))) [
          | inl p ↦ rw p same
          | inr p ↦ rw p same
        ]

  write_header-KeepsImage :
      (candidate : BackupImage) (d : Device) → KeepsImage d (write_header nor candidate d).device
  write_header-KeepsImage candidate d a out =
      let body = write nor backup 0 (take crc_offset (encode candidate)) d in
      let crc = write nor backup crc_offset (drop crc_offset (encode candidate)) body.1 in
      let first =
        write-frame nor laws backup 0 (take crc_offset (encode candidate)) d a
          (ground (arith, backup_start, out, length-take crc_offset (encode candidate))) in
      let second =
        write-frame nor laws backup crc_offset (drop crc_offset (encode candidate)) body.1 a (
          ground (
            arith,
            backup_start,
            out,
            length-drop crc_offset (encode candidate),
            length-encode_backup candidate,
          )) in
      let third =
        verdict-SameMemory candidate (read nor backup 0 header_size crc.1) crc.1
          (read-SameMemory nor laws backup 0 header_size crc.1) a in
      elim (Bool-cases body.0) [
        | inr b ↦ unfold write_header in rw b first
        | inl b ↦ elim (Bool-cases crc.0) [
          | inr c ↦ unfold write_header in rw (b, c) (second ∙ first)
          | inl c ↦ unfold write_header in rw (b, c) (third ∙ second ∙ first)
        ]
      ]

  invalidate_header-KeepsImage : (d : Device) → KeepsImage d (invalidate_header nor d).1
  unfolding invalidate_header
  invalidate_header-KeepsImage d a out =
      erase_range-frame nor laws backup 0 ext_flash_sector_size d a
        (ground (arith, backup_start, out))

  commit_header-KeepsImage :
      (requested : Option BackupImage) (d : Device)
      → KeepsImage d (commit_header nor requested d).device
  commit_header-KeepsImage none d a out = unfold commit_header in refl
  commit_header-KeepsImage (some r) d a out =
      let erased = invalidate_header nor d in
      let first = invalidate_header-KeepsImage d a out in
      let second = write_header-KeepsImage (finalize r) erased.1 a out in
      elim (Bool-cases (is_valid_status (validate (some (finalize r))))) [
        | inr v ↦ unfold commit_header in rw v refl
        | inl v ↦ elim (Bool-cases (is_ok erased.0)) [
          | inr b ↦ unfold commit_header in rw (v, b) first
          | inl b ↦ unfold commit_header in rw (v, b) (second ∙ first)
        ]
      ]

  write_image-frame :
      (offset : ℕ) (bs : List ℕ) (d : Device) (a : ℕ)
      → OutsideRange (image_start + offset) (length bs) a
      → memory (write_image nor offset bs d).1 a ≡ memory d a
  write_image-frame offset bs d a out =
      let kept =
        write-frame nor laws backup (data_offset + offset) bs d a
          (ground (arith, backup_start, out)) in
      elim (Bool-cases (image_range_valid offset (length bs))) [
        | inl v ↦ unfold write_image in rw v kept
        | inr v ↦ unfold write_image in rw v refl
      ]

  erase_image_sector-frame :
      (offset : ℕ) (d : Device) (a : ℕ)
      → OutsideRange (image_start + offset) ext_flash_sector_size a
      → memory (erase_image_sector nor offset d).1 a ≡ memory d a
  erase_image_sector-frame offset d a out =
      let kept =
        erase_range-frame nor laws backup (data_offset + offset) ext_flash_sector_size d a
          (ground (arith, backup_start, out)) in
      unfold erase_image_sector in ground (arith, kept)

  -- Neither half of the backup partition is reached from the other: committing or invalidating the
  -- header changes no byte outside the header's sector, and writing to the image or erasing a sector of
  -- it changes no byte of that sector, whether the operation succeeds or not.
  pub header_image_apart :
      (requested : Option BackupImage) (offset : ℕ) (bs : List ℕ) (d : Device) (a header : ℕ)
      → OutsideRange ext_backup_address ext_flash_sector_size a
      → IsHeaderAddress header
      → (memory (commit_header nor requested d).device a ≡ memory d a)
        × (memory (invalidate_header nor d).1 a ≡ memory d a)
        × (memory (write_image nor offset bs d).1 header ≡ memory d header)
        × (memory (erase_image_sector nor offset d).1 header ≡ memory d header)
  header_image_apart requested offset bs d a header out inside = (
    commit_header-KeepsImage requested d a out,
    invalidate_header-KeepsImage d a out,
    write_image-frame offset bs d header (inl (omega arith)),
    erase_image_sector-frame offset d header (inl (omega arith)),
  )
