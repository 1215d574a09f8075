-- ===== src/Rollback.antt =====
-- node-stm32f103/bootloader/src/image_installer.c, the copy of the backup into the application region
-- during a rollback: programming and verifying one page, and the loop with a checkpoint after each
-- page. The interrupt mask and the fault-injection builds are not modelled.
pub mod Page
pub mod Round
pub mod Copy
pub mod Restore
pub mod Healthy
pub mod Complete
mod Tests
use secure_delta_ota_bootloa.Base.{
  ℕ, zero, suc, ◌+◌, Bool, true, false, not, Option, none, some, List, [], ◌∷◌, length, ltb, ◌==◌,
  if◌then◌else◌,
}
use secure_delta_ota_bootloa.Base.Bytes.{le16}
use secure_delta_ota_bootloa.Base.Range.{read_range, bytes_equal}
use secure_delta_ota_bootloa.Memory.{application_start_address, application_max_size}
use secure_delta_ota_bootloa.BootMetadata.{BootMetadata}
use secure_delta_ota_bootloa.Flash.{Flash, is_complete}
use secure_delta_ota_bootloa.NorFlash.{NorFlash}
use secure_delta_ota_bootloa.Progress.{
  install_validate, is_install_valid, install_page_length, install_next_checkpoint,
}
use secure_delta_ota_bootloa.MetadataStorage
use secure_delta_ota_bootloa.MetadataStorage.{CommitResult}
use secure_delta_ota_bootloa.BackupStorage.{read_image}

-- The statuses of `ImageInstallerStatus_t` that a rollback returns.
pub data InstallerStatus : Type 0 where
  ok metadata_commit_failed progress_invalid flash_erase_failed flash_program_failed :
      InstallerStatus
  page_verify_failed rollback_read_failed external_flash_init_failed : InstallerStatus
  finalize_failed rollback_source_invalid rollback_verify_failed : InstallerStatus

abbrev pub is_ok : InstallerStatus → Bool
is_ok ok = true
is_ok _ = false

module _ (flash : Flash) where
  -- The half-words of a page, the last byte padded; the first call that does not complete ends it.
  unfoldable pub program_half_words : ℕ → List ℕ → flash.Device → Bool × flash.Device
  program_half_words address [] d = (true, d)
  program_half_words address (low ∷ []) d =
      let step = flash.program_half_word address (le16 low 0xFF) d in (is_complete step.0, step.1)
  program_half_words address (low ∷ high ∷ rest) d =
      let step = flash.program_half_word address (le16 low high) d in
      let continued = program_half_words (address + 2) rest step.1 in
      if is_complete step.0 then continued else (false, step.1)

  -- `ProgramBufferedApplicationPage`, for the bytes that the page buffer holds.
  unfoldable pub program_page : ℕ → List ℕ → flash.Device → InstallerStatus × flash.Device
  unfolding program_half_words
  program_page page_offset page d =
      let address = application_start_address + page_offset in
      let erased = flash.erase_page address d in
      let programmed = program_half_words address page erased.1 in
      if not (is_complete erased.0)
      then (flash_erase_failed, erased.1)
      else if not programmed.0
      then (flash_program_failed, programmed.1)
      else if not (bytes_equal (read_range (flash.read programmed.1) address (length page)) page)
      then (page_verify_failed, programmed.1)
      else (ok, programmed.1)

abbrev pub application_pages : ℕ
application_pages = 38

-- The internal and the external flash.
pub record Board (flash : Flash) (nor : NorFlash) : Type 0 where
  pub internal : flash.Device
  pub external : nor.Device

pub record CopyResult (flash : Flash) (nor : NorFlash) : Type 0 where
  pub status : InstallerStatus
  pub metadata : BootMetadata
  pub board : Board flash nor

module _ (flash : Flash) (nor : NorFlash) where
  abbrev pub page_of : Option (List ℕ) × nor.Device → InstallerStatus × List ℕ × nor.Device
  page_of (none, e) = (rollback_read_failed, [], e)
  page_of (some page, e) = (ok, page, e)

  -- `LoadBackupPage`
  unfoldable pub load_backup_page : ℕ → nor.Device → InstallerStatus × List ℕ × nor.Device
  load_backup_page page_offset d =
      let page_length = install_page_length application_max_size page_offset in
      let found = read_image nor page_offset page_length d in
      if page_length == 0 then (progress_invalid, [], d) else page_of found

  -- `ProgramAndVerifyBackupPage`
  unfoldable pub program_backup_page : ℕ → Board flash nor → InstallerStatus × Board flash nor
  unfolding load_backup_page program_page
  program_backup_page page_offset b =
      let page = load_backup_page page_offset b.external in
      let programmed = program_page flash page_offset page.1 b.internal in
      if not (is_ok page.0)
      then (page.0, record { internal = b.internal; external = page.2 })
      else (programmed.0, record { internal = programmed.1; external = page.2 })

  -- `CommitMetadata` keeps the caller's record unless the commit succeeds.
  abbrev pub committed_or : BootMetadata → Option BootMetadata → BootMetadata
  committed_or requested none = requested
  committed_or requested (some committed) = committed

  -- The body of the loop of `ResumeRollbackCopy`: a page, then its checkpoint.
  unfoldable pub copy_page : ℕ → BootMetadata → Board flash nor → CopyResult flash nor
  unfolding program_backup_page
  copy_page page_offset m b =
      let programmed = program_backup_page page_offset b in
      let moved : BootMetadata = record m {
        copy_offset = install_next_checkpoint application_max_size page_offset;
      } in
      let done = MetadataStorage.commit flash (some moved) programmed.1.internal in
      let after : Board flash nor = record {
        internal = done.device;
        external = programmed.1.external;
      } in
      if not (is_ok programmed.0)
      then record { status = programmed.0; metadata = m; board = programmed.1 }
      else if not (MetadataStorage.is_ok done.status)
      then record { status = metadata_commit_failed; metadata = moved; board = after }
      else record { status = ok; metadata = committed_or moved done.committed; board = after }

  -- The loop, for at most so many pages.
  unfoldable pub copy_pages : ℕ → BootMetadata → Board flash nor → CopyResult flash nor
  unfolding copy_page
  copy_pages zero m b = record { status = ok; metadata = m; board = b }
  copy_pages (suc pages) m b =
      let round = copy_page m.copy_offset m b in
      let rest = copy_pages pages round.metadata round.board in
      if not (ltb m.copy_offset application_max_size)
      then record { status = ok; metadata = m; board = b }
      else if not (is_ok round.status)
      then round
      else rest

  unfoldable pub resume_rollback_copy : BootMetadata → Board flash nor → CopyResult flash nor
  unfolding copy_pages
  resume_rollback_copy m b =
      let copied = copy_pages application_pages m b in
      if not (is_install_valid (install_validate application_max_size m.copy_offset))
      then record { status = progress_invalid; metadata = m; board = b }
      else copied
