-- ===== src/InstallerCrc/Backup.antt =====
-- node-stm32f103/bootloader/src/image_installer.c: the CRC of the backup and its check.
use mathlib.Core.Option.{some-injective}
use secure_delta_ota_bootloa.Base.{
  ℕ, zero, suc, ◌+◌, ◌-◌, ◌*◌, ◌≤◌, ◌<◌, ◌≡◌, inl, inr, refl, ap, sym, ◌∙◌, bit_xor, Option, none,
  some, List, arith, ltb, ◌!=◌, Bool-cases, if◌then◌else◌,
}
use secure_delta_ota_bootloa.Base.Range.{read_range, read_range-eq}
use secure_delta_ota_bootloa.Memory.{application_max_size}
use secure_delta_ota_bootloa.Crc32.{update, calculate, initial_value, final_xor}
use secure_delta_ota_bootloa.NorFlash.{NorFlash, NorLaws, SameMemory}
use secure_delta_ota_bootloa.BackupImage.{BackupImage, decode, validate, is_valid_status}
use secure_delta_ota_bootloa.ExternalStorage.{backup, read}
use secure_delta_ota_bootloa.ExternalStorage.Frame.{read-SameMemory}
use secure_delta_ota_bootloa.BackupStorage.{read_image, load_header, loaded, header_size}
use secure_delta_ota_bootloa.BackupStorage.Header.{read_image-lem}
use secure_delta_ota_bootloa.BackupStorage.Frame.{image_start}
use secure_delta_ota_bootloa.InstallerCrc.{
  chunk_of, rounds_for, after_read, backup_crc_loop, finish, calculate_backup_crc, validate_backup,
  check_header, compare_crc, accepted,
}
use secure_delta_ota_bootloa.InstallerCrc.{backup_crc_mismatch}
use secure_delta_ota_bootloa.InstallerCrc.Chunks.{update-chunk, chunk_sum}

accepted_equal :
    (crc expected : ℕ)
    → (if crc != expected then backup_crc_mismatch else accepted) ≡ accepted
    → crc ≡ expected
accepted_equal crc expected h = ground (arith, h)

module _ (nor : NorFlash) (laws : NorLaws nor) where
  open nor use {Device, memory}

  -- What a loop that read every chunk returns.
  record Summed (offset running : ℕ) (d : Device) (result : Option ℕ × Device) : Type 0 where
    same : SameMemory nor d result.1
    value :
        (crc : ℕ)
        → result.0 ≡ some crc
        → crc
          ≡ update running
              (read_range (memory d) (image_start + offset) (application_max_size - offset))

  nothing_left :
      (offset running : ℕ) (d : Device)
      → application_max_size - offset ≡ 0
      → Summed offset running d (some running, d)
  nothing_left offset running d e = record {
    same = λ a. refl;
    value = λ crc q. sym (some-injective _ _ q) ∙ rw e (unfold read_range in unfold update in refl);
  }

  Summed-read :
      (offset running : ℕ) (d : Device) (found : Option (List ℕ) × Device)
      (continue : ℕ → Device → Option ℕ × Device)
      → offset < application_max_size
      → let chunk = chunk_of application_max_size offset in
        SameMemory nor d found.1
          × ((bs : List ℕ)
              → found.0 ≡ some bs
              → bs ≡ read_range (memory d) (image_start + offset) chunk)
        → ((crc : ℕ) (e : Device)
            → Summed (offset + chunk_of application_max_size offset) crc e (continue crc e))
        → Summed offset running d (after_read nor continue running found)
  Summed-read offset running d (none, e) continue more (same, value) rest = record {
    same = same;
    value = λ crc q. absurd (cc);
  }
  Summed-read offset running d (some buffer, e) continue more (same, value) rest =
      let chunk = chunk_of application_max_size offset in
      let left = application_max_size - (offset + chunk) in
      let next = rest (update running buffer) e in
      let sum = chunk_sum application_max_size offset more in
      record {
        same = λ a. next.same a ∙ same a;
        value = λ crc q.
            next.value crc q
            ∙ ap
                (λ bs.
                  update (update running bs)
                    (read_range (memory e) (image_start + (offset + chunk)) left))
                (value buffer refl)
            ∙ ap (update _) (
                read_range-eq (memory e) (memory d) (image_start + (offset + chunk)) left
                  (λ a lo hi. same a))
            ∙ ap
                (λ a.
                  update (update running (read_range (memory d) (image_start + offset) chunk))
                    (read_range (memory d) a left))
                (omega arith)
            ∙ update-chunk (memory d) running (image_start + offset) chunk left
            ∙ ap (λ n. update running (read_range (memory d) (image_start + offset) n)) sum.0;
      }

  backup_crc_loop-Summed :
      (rounds offset running : ℕ) (d : Device)
      → application_max_size - offset ≤ 256 * rounds
      → Summed offset running d (backup_crc_loop nor rounds offset running d)
  unfolding backup_crc_loop
  backup_crc_loop-Summed zero offset running d enough =
      nothing_left offset running d (omega (arith, enough))
  backup_crc_loop-Summed (suc rounds) offset running d enough =
      elim (Bool-cases (ltb offset application_max_size)) [
        | inr past ↦ rw past (nothing_left offset running d (ground (arith, past)))
        | inl more ↦
            let chunk = chunk_of application_max_size offset in
            rw more (
              Summed-read offset running d (read_image nor offset chunk d)
                (backup_crc_loop nor rounds (offset + chunk)) (ground (arith, more))
                (read_image-lem nor laws offset chunk d)
                (λ (crc : ℕ) (e : Device).
                  backup_crc_loop-Summed rounds (offset + chunk) crc e
                    (ground (arith, enough, more))))
      ]

  -- The CRC of the backup, where every chunk was read, is the CRC of its image.
  calculate_backup_crc-value :
      (d : Device) (crc : ℕ)
      → (calculate_backup_crc nor d).0 ≡ some crc
      → crc ≡ calculate (read_range (memory d) image_start application_max_size)
  unfolding calculate_backup_crc calculate
  calculate_backup_crc-value d crc q =
      through (backup_crc_loop nor (rounds_for application_max_size) 0 initial_value d)
        (backup_crc_loop-Summed (rounds_for application_max_size) 0 initial_value d (omega arith)) q
    where
      through :
          (result : Option ℕ × Device)
          → Summed 0 initial_value d result
          → (finish nor result).0 ≡ some crc
          → crc
            ≡ bit_xor
                (update initial_value (read_range (memory d) image_start application_max_size))
                final_xor
      through (none, e) summed h = absurd (cc)
      through (some running, e) summed h =
          sym (some-injective _ _ h) ∙ ap (λ c. bit_xor c final_xor) (summed.value running refl)

  loaded-device : (result : Option (List ℕ) × Device) → (loaded nor result).device ≡ result.1
  loaded-device (none, e) = refl
  loaded-device (some bytes, e) =
      elim (Bool-cases (is_valid_status (validate (some (decode bytes))))) [
        | inl v ↦ rw v refl
        | inr v ↦ rw v refl
      ]

  load_header-SameMemory : (d : Device) → SameMemory nor d (load_header nor d).device
  unfolding load_header
  load_header-SameMemory d a =
      let found = read nor backup 0 header_size d in
      ap (λ e. memory e a) (loaded-device found) ∙ read-SameMemory nor laws backup 0 header_size d a

  -- An accepted backup has a header, and the CRC in it is the CRC of the image.
  pub validate_backup-accepted :
      (d : Device) (header : BackupImage)
      → (validate_backup nor d).0 ≡ accepted
      → (validate_backup nor d).1 ≡ some header
      → calculate (read_range (memory d) image_start application_max_size) ≡ header.image_crc32
  unfolding validate_backup
  validate_backup-accepted d header good found =
      through (calculate_backup_crc nor e) refl (rw found at good)
    where
      e : Device
      e = (load_header nor d).device

      through :
          (result : Option ℕ × Device)
          → calculate_backup_crc nor e ≡ result
          → (compare_crc nor header result).0 ≡ accepted
          → calculate (read_range (memory d) image_start application_max_size) ≡ header.image_crc32
      through (none, f) q h = absurd (cc)
      through (some crc, f) q h =
          let equal = accepted_equal crc header.image_crc32 h in
          ap calculate (
            sym (
              read_range-eq (memory e) (memory d) image_start application_max_size
                (λ a lo hi. load_header-SameMemory d a)))
          ∙ sym (calculate_backup_crc-value e crc (ap (λ x. x.0) q))
          ∙ equal

  compare_crc-device :
      (header : BackupImage) (result : Option ℕ × Device)
      → (compare_crc nor header result).1 ≡ result.1
  compare_crc-device header (none, e) = refl
  compare_crc-device header (some crc, e) = refl

  finish-device : (result : Option ℕ × Device) → (finish nor result).1 ≡ result.1
  finish-device (none, e) = refl
  finish-device (some running, e) = refl

  check_header-SameMemory :
      (header : Option BackupImage) (d : Device) → SameMemory nor d (check_header nor header d).1
  unfolding calculate_backup_crc
  check_header-SameMemory none d a = refl
  check_header-SameMemory (some header) d a =
      let loop = backup_crc_loop nor (rounds_for application_max_size) 0 initial_value d in
      let summed =
        backup_crc_loop-Summed (rounds_for application_max_size) 0 initial_value d (omega arith) in
      ap (λ e. memory e a) (compare_crc-device header (calculate_backup_crc nor d))
      ∙ ap (λ e. memory e a) (finish-device loop)
      ∙ summed.same a

  pub validate_backup-SameMemory : (d : Device) → SameMemory nor d (validate_backup nor d).2
  unfolding validate_backup
  validate_backup-SameMemory d a =
      check_header-SameMemory (load_header nor d).found (load_header nor d).device a
      ∙ load_header-SameMemory d a
