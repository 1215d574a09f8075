-- ===== src/Rollback/Healthy.antt =====
-- node-stm32f103/bootloader/src/image_installer.c: the rollback copy when no flash call fails.
use secure_delta_ota_bootloa.Base.{
  ℕ, zero, suc, ◌+◌, ◌*◌, ◌≤◌, ◌<◌, ◌≡◌, ◌≢◌, refl, ap, sym, ◌∙◌, subst, true, Option, none, some,
  List, [], ◌∷◌, arith, length, All,
}
use secure_delta_ota_bootloa.Base.Bits.{bit_and_low}
use secure_delta_ota_bootloa.Base.Bytes.{IsByte, le16}
use secure_delta_ota_bootloa.Base.Range.{
  read_range, read_range-IsByte, length-read_range, bytes_equal_refl,
}
use secure_delta_ota_bootloa.Memory.{
  application_start_address, application_max_size, ext_incoming_size,
}
use secure_delta_ota_bootloa.BootMetadata.{
  BootMetadata, code, rollback, max_boot_attempts, finalize, state_fields_are_consistent,
}
use secure_delta_ota_bootloa.BootMetadata.Checks.{
  validate_iff, HasSoundFields, IsSealed, IsComplete,
}
use secure_delta_ota_bootloa.BootMetadata.Image.{calculate_crc-finalize}
use secure_delta_ota_bootloa.Slots.Order.{next_range}
use secure_delta_ota_bootloa.Flash.{Flash, FlashLaws}
use secure_delta_ota_bootloa.NorFlash.{NorFlash, NorLaws, IsReadable}
use secure_delta_ota_bootloa.MetadataStorage.{program_bytes, candidate}
use secure_delta_ota_bootloa.MetadataStorage.Frame.{program_bytes-value}
use secure_delta_ota_bootloa.MetadataStorage.Newest.{accepts}
use secure_delta_ota_bootloa.MetadataStorage.Healthy.{IsHealthy, program_bytes_ok}
use secure_delta_ota_bootloa.ExternalStorage.{backup, read, get_partition}
use secure_delta_ota_bootloa.ExternalStorage.Frame.{start_of, size_of, resolve_range-inside}
use secure_delta_ota_bootloa.BackupImage.{data_offset}
use secure_delta_ota_bootloa.BackupStorage.{read_image, image_range_valid}
use secure_delta_ota_bootloa.BackupStorage.Frame.{image_start, backup_start}
use secure_delta_ota_bootloa.Rollback.Page.{load_backup_page-lem}
use secure_delta_ota_bootloa.Rollback.Round.{next_checkpoint_lem}
use secure_delta_ota_bootloa.Rollback.{
  ok, Board, program_half_words, program_page, load_backup_page, page_of, program_backup_page,
}

-- What the rollback asks of the record: the fields of its state, but the checkpoint.
pub record IsRollingBack (m : BootMetadata) : Type 0 where
  pub rolling : m.state ≡ code rollback
  pub payload : IsComplete m
  pub bounded : m.expected_size ≤ ext_incoming_size
  pub pending : m.pending_version ≢ 0
  pub attempts : m.boot_attempts ≤ max_boot_attempts

module _ (flash : Flash) (laws : FlashLaws flash) (healthy : IsHealthy flash) where
  open healthy use {erase_completes, program_completes}

  -- On pages of whole half-words the loop is the one of the metadata storage.
  program_half_words-bytes :
      (n address : ℕ) (bs : List ℕ) (d : flash.Device)
      → length bs ≡ 2 * n
      → program_half_words flash address bs d ≡ (true, (program_bytes flash address bs d).1)
  unfolding program_half_words program_bytes
  program_half_words-bytes n address [] d e = refl
  program_half_words-bytes n address (x ∷ []) d e = absurd (omega arith)
  program_half_words-bytes zero address (x ∷ y ∷ rest) d e = absurd (omega arith)
  program_half_words-bytes (suc n) address (x ∷ y ∷ rest) d e =
      rw (program_completes address (le16 x y) d) (
        program_half_words-bytes n (address + 2) rest
          (flash.program_half_word address (le16 x y) d).1 (omega arith))

  program_page_ok :
      (page_offset : ℕ) (page : List ℕ) (d : flash.Device)
      → length page ≡ 1024
      → All IsByte page
      → (program_page flash page_offset page d).0 ≡ ok
  program_page_ok page_offset page d len bytes =
      let address = application_start_address + page_offset in
      let erased = flash.erase_page address d in
      let programmed = program_bytes flash address page erased.1 in
      let value =
        program_bytes-value flash laws 512 address page erased.1 (omega (arith, len)) bytes
          (λ a lo hi.
            laws.erase_blank address a d (erase_completes address d) lo (omega (arith, hi, len)))
          (program_bytes_ok flash laws healthy address page erased.1) in
      unfold program_page in
      rw
        (
          erase_completes address d,
          program_half_words-bytes 512 address page erased.1 (omega (arith, len)),
          value,
          bytes_equal_refl page,
        )
        refl

  consistent_at :
      (k : ℕ) (m : BootMetadata) (d : flash.Device)
      → k ≤ 38
      → IsRollingBack m
      → state_fields_are_consistent (candidate flash (record m { copy_offset = 1024 * k }) d) ≡ true
  unfolding state_fields_are_consistent candidate finalize
  consistent_at k m d inside rolling = rw (rolling.rolling) (
      ground (
        arith,
        bit_and_low 10 (1024 * k),
        inside,
        rolling.payload,
        rolling.pending,
        rolling.attempts,
      ))

  pub candidate_accepted :
      (k : ℕ) (m : BootMetadata) (d : flash.Device)
      → k ≤ 38
      → IsRollingBack m
      → accepts (candidate flash (record m { copy_offset = 1024 * k }) d) ≡ true
  candidate_accepted k m d inside rolling =
      let c = candidate flash (record m { copy_offset = 1024 * k }) d in
      let sealed : IsSealed c = record {
        magic_set = unfold candidate in unfold finalize in refl;
        version_set = unfold candidate in unfold finalize in refl;
        crc_matches = unfold candidate in calculate_crc-finalize _;
      } in
      let sound : HasSoundFields c = record {
        generation_set = unfold candidate in unfold finalize in (next_range _).1;
        state_known = unfold candidate in unfold finalize in omega (arith, rolling.rolling);
        received_bounded = unfold candidate in unfold finalize in omega (arith, rolling.payload);
        expected_bounded = unfold candidate in unfold finalize in rolling.bounded;
        offset_bounded = unfold candidate in unfold finalize in omega (arith, inside);
        consistent = consistent_at k m d inside rolling;
      } in
      let e = (validate_iff c).1 (sealed, sound) in rw e refl

backup_size : size_of backup ≡ 0x20000
unfolding size_of get_partition
backup_size = refl

module _ (flash : Flash) (laws : FlashLaws flash) (healthy : IsHealthy flash) (nor : NorFlash)
    (nor_laws : NorLaws nor) (readable : IsReadable nor) where
  read_image-readable :
      (offset n : ℕ) (d : nor.Device)
      → offset + n ≤ application_max_size
      → n ≢ 0
      → (read_image nor offset n d).0 ≡ some (read_range (nor.memory d) (image_start + offset) n)
  read_image-readable offset n d inside nonempty =
      let in_range : image_range_valid offset n ≡ true =
        unfold image_range_valid in ground (arith, inside) in
      let place : start_of backup + (data_offset + offset) ≡ image_start + offset =
        omega (arith, backup_start) in
      unfold read_image in
      unfold read in
      rw
        (
          in_range,
          resolve_range-inside backup (data_offset + offset) n (omega (arith, backup_size, inside))
              nonempty,
          place,
        )
        (readable.reads (image_start + offset) n d (omega (arith, inside)))

  page_of-some :
      (result : Option (List ℕ) × nor.Device) (bs : List ℕ)
      → result.0 ≡ some bs
      → (page_of flash nor result).0 ≡ ok
  page_of-some (none, e) bs q = absurd (cc)
  page_of-some (some page, e) bs q = refl

  load_backup_page_ok :
      (k : ℕ) (d : nor.Device) → k < 38 → (load_backup_page flash nor (1024 * k) d).0 ≡ ok
  load_backup_page_ok k d short =
      let len = (next_checkpoint_lem k short).0 in
      unfold load_backup_page in
      rw len (
        page_of-some (read_image nor (1024 * k) 1024 d) _
          (read_image-readable (1024 * k) 1024 d (omega (arith, short)) (omega arith)))

  pub program_backup_page_ok :
      (k : ℕ) (b : Board flash nor) → k < 38 → (program_backup_page flash nor (1024 * k) b).0 ≡ ok
  program_backup_page_ok k b short =
      let good = load_backup_page_ok k b.external short in
      let page = load_backup_page flash nor (1024 * k) b.external in
      let (bytes, nonempty) =
        (load_backup_page-lem flash laws nor nor_laws (1024 * k) b.external).1 good in
      let len = (next_checkpoint_lem k short).0 in
      unfold program_backup_page in
      rw good (
        program_page_ok flash laws healthy (1024 * k) page.1 b.internal
          (ap length bytes ∙ length-read_range _ _ _ ∙ len)
          (subst (All IsByte) (sym bytes)
            (read_range-IsByte _ _ _ (nor_laws.memory_byte b.external))))
