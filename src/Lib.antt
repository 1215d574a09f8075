-- ===== src/Lib.antt =====
-- Verification library of the secure delta OTA bootloader: a bootloader and an application for
-- the STM32F103 that share their records, packets and checks, and a gateway that sends updates.
--
-- How the parts interact. The application receives packets over a serial line: the agent feeds
-- bytes to the parser, which decodes a COBS frame and deserializes a packet. A download leaves a
-- checkpoint, then a handoff record, in the external flash. The bootloader keeps one boot
-- metadata record in two pages of the internal flash; after reset it loads the newest valid copy,
-- decides what to do, and moves on by committing a changed record to the other page. A trial boot
-- is counted that way before it starts, and the application on trial confirms itself by one more
-- commit, which the next boot finalizes.
--
-- Files, and the code that each translates:
--   Base              helpers; Base/Bytes is PutU16Le ... GetU32Le of
--                     node-stm32f103/application/protocol/ota_packet.c, which delta_patch.c and
--                     firmware_container.c define alike; Base/Image is a structure of 32-bit words
--                     as its little-endian bytes
--   Memory            shared/include/memory_map.h
--   Crc32             shared/src/crc32.c (Crc32_Update, Crc32_Calculate)
--   Slots             generations and the A/B choice of shared/src/boot_metadata.c, which the two
--                     external records repeat
--   BootMetadata      shared/src/boot_metadata.c: init, finalize, validate, select_newest_slot,
--                     select_write_slot are BootMetadata_Init and so on
--   Flash             the peripheral library's flash calls: a parameter with laws
--   MetadataStorage   node-stm32f103/bootloader/storage/metadata_storage.c (load, read_slot, commit)
--   BootDecision      node-stm32f103/bootloader/src/boot_decision.c (evaluate)
--   TrialBoot         node-stm32f103/bootloader/src/trial_boot.c (prepare_attempt,
--                     finalize_confirmation)
--   TrialConfirmation node-stm32f103/application/src/trial_confirmation.c (init, confirm_now, and
--                     is_due for the condition of TrialConfirmation_Process)
--   Cobs, Packet, Parser
--                     cobs.c, ota_packet.c, ota_parser.c of node-stm32f103/application/protocol
--   Agent             SendPacket of node-stm32f103/application/src/ota_agent.c
--   Progress          shared/src/install_progress.c and shared/src/backup_progress.c
--   UpdateHandoff, DownloadCheckpoint, BackupImage
--                     the records of shared/src/update_handoff.c, download_checkpoint.c and
--                     backup_image.c
--   FullImage         shared/src/full_image_validation.c
--   ApplicationJump   ApplicationJump_Validate of node-stm32f103/bootloader/src/application_jump.c
--   ExtFlash          shared/src/ext_flash_layout.c
--   NorFlash          node-stm32f103/common/include/spi_flash.h: an interface with laws
--   ExternalStorage   node-stm32f103/common/storage/external_flash_storage.c
--   RecordStorage     update_handoff_storage.c and download_checkpoint_storage.c of
--                     node-stm32f103/common/storage, once for any kind of record;
--                     RecordStorage/Kinds, Handoff and Checkpoint are the two instances
--   BackupStorage     node-stm32f103/common/storage/backup_image_storage.c
--   Rollback          ResumeRollbackCopy of node-stm32f103/bootloader/src/image_installer.c and
--                     what it calls
--   InstallerCrc      CalculateInternalCrc, CalculateBackupCrc and ValidateBackupImage of the same
--                     file
--   RollbackProcess   ImageInstaller_ProcessRollback of the same file, around the copy
--   DeltaPatch        shared/src/delta_patch.c
--   FirmwareContainer shared/src/firmware_container.c
-- In each, the file itself holds the definitions, and the files below it the proofs; Tests holds
-- runs on concrete data.
--
-- State. A flash is an abstract device with read, erase and program, and the laws FlashLaws:
-- reading gives bytes, an erase or a programming that completes has its effect, and neither
-- changes anything outside its page or half-word. MetadataStorage/Ram is a device that meets
-- them. The external flash is an abstract device likewise, with the laws NorLaws and the device
-- NorFlash/Ram; a write reports success only if the bytes read back, as the driver's check for
-- programmable bytes ensures. An operation takes the device and returns the device that it leaves,
-- on its error paths too.
--
-- Numbers are natural numbers; where the source's arithmetic can wrap, the wrap is written out.
-- Bytes and words below their bound are hypotheses (IsByte, IsU16, IsU32, IsRecord, IsPacket). A
-- pointer that is tested against NULL is an Option where the test decides something about a
-- record; NULL buffers and NULL results are not modelled.
--
-- Loops are recursion on the list of bytes or on the rounds left. The decoder of COBS runs on one
-- unit of fuel for each byte of its input and one more, which is enough because each round
-- consumes a byte. The copy of a rollback runs for at most 38 rounds, the pages of the
-- application region, which is enough because each round copies a page. The CRC loops run for as
-- many rounds of 256 bytes as the length asks for.
--
-- Not modelled: the interrupt mask, lock and flags around flash programming, the watchdog's
-- registers, the reset after a confirmation, the jump to the application, the boot loop, the
-- installer but for the rollback, the fault-injection builds, the delta patcher, the container's
-- signature check, the download session, the external flash driver, and the gateway. Hash,
-- signature and patch algorithms are not modelled either.
pub mod Base
pub mod Crc32
pub mod Slots
pub mod Memory
pub mod BootMetadata
pub mod Flash
pub mod MetadataStorage
pub mod Cobs
pub mod Packet
pub mod Parser
pub mod Agent
pub mod Progress
pub mod UpdateHandoff
pub mod DownloadCheckpoint
pub mod BackupImage
pub mod FullImage
pub mod ExtFlash
pub mod BootDecision
pub mod DeltaPatch
pub mod FirmwareContainer
pub mod TrialBoot
pub mod TrialConfirmation
pub mod NorFlash
pub mod ExternalStorage
pub mod RecordStorage
pub mod BackupStorage
pub mod InstallerCrc
pub mod ApplicationJump
pub mod RollbackProcess
pub mod Rollback
