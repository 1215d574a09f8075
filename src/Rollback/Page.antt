-- ===== src/Rollback/Page.antt =====
-- node-stm32f103/bootloader/src/image_installer.c: one page of the application region, programmed from
-- the backup.
use secure_delta_ota_bootloa.Base.{
  ℕ, zero, suc, ◌+◌, ◌*◌, ◌≤◌, ◌<◌, ◌≡◌, ◌≢◌, ◌⊎◌, inl, inr, refl, ap, ◌∙◌, subst, true, Option,
  none, some, List, [], ◌∷◌, arith, length, Bool-cases, ◌==◌,
}
use secure_delta_ota_bootloa.Base.Bytes.{le16}
use secure_delta_ota_bootloa.Base.Range.{read_range, length-read_range, bytes_equal, bytes_equal-eq}
use secure_delta_ota_bootloa.Memory.{application_start_address, application_max_size}
use secure_delta_ota_bootloa.Flash.{Flash, FlashLaws, is_complete, page_size, Outside}
use secure_delta_ota_bootloa.NorFlash.{NorFlash, NorLaws, SameMemory}
use secure_delta_ota_bootloa.Progress.{install_page_length}
use secure_delta_ota_bootloa.BackupStorage.{read_image}
use secure_delta_ota_bootloa.BackupStorage.Header.{read_image-lem}
use secure_delta_ota_bootloa.BackupStorage.Frame.{image_start}
use secure_delta_ota_bootloa.Rollback.{
  InstallerStatus, ok, is_ok, Board, program_half_words, program_page, load_backup_page, page_of,
  program_backup_page,
}

pub is_ok_eq : (s : InstallerStatus) → is_ok s ≡ true → s ≡ ok
is_ok_eq s h = ground arith

module _ (flash : Flash) (laws : FlashLaws flash) where
  open laws use {erase_frame, program_frame}

  program_half_words-frame :
      (n address a : ℕ) (bs : List ℕ) (d : flash.Device)
      → length bs ≤ 2 * n
      → (a < address) ⊎ (address + 2 * n ≤ a)
      → flash.read (program_half_words flash address bs d).1 a ≡ flash.read d a
  unfolding program_half_words
  program_half_words-frame n address a [] d fits h = refl
  program_half_words-frame n address a (x ∷ []) d fits h =
      program_frame address (le16 x 0xFF) a d (ground arith) (ground arith)
  program_half_words-frame zero address a (x ∷ y ∷ rest) d fits h = absurd (omega arith)
  program_half_words-frame (suc n) address a (x ∷ y ∷ rest) d fits h =
      let step = flash.program_half_word address (le16 x y) d in
      let first : flash.read step.1 a ≡ flash.read d a =
        program_frame address (le16 x y) a d (ground arith) (ground arith) in
      elim (Bool-cases (is_complete step.0)) [
        | inl done ↦ rw done (
            program_half_words-frame n (address + 2) a rest step.1 (omega arith) (ground arith)
            ∙ first)
        | inr stopped ↦ rw stopped first
      ]

  -- Programming a page changes nothing outside it, whatever is returned.
  pub program_page-frame :
      (page_offset a : ℕ) (page : List ℕ) (d : flash.Device)
      → length page ≤ page_size
      → Outside (application_start_address + page_offset) a
      → flash.read (program_page flash page_offset page d).1 a ≡ flash.read d a
  program_page-frame page_offset a page d short out =
      let address = application_start_address + page_offset in
      let erased = flash.erase_page address d in
      let programmed = program_half_words flash address page erased.1 in
      let first = erase_frame address a d out in
      let second =
        program_half_words-frame 512 address a page erased.1 (omega arith) (ground (arith, out)) in
      elim (Bool-cases (is_complete erased.0)) [
        | inr b ↦ unfold program_page in rw b first
        | inl b ↦ elim (Bool-cases programmed.0) [
          | inr c ↦ unfold program_page in rw (b, c) (second ∙ first)
          | inl c ↦
              elim (Bool-cases
                (bytes_equal (read_range (flash.read programmed.1) address (length page)) page)) [
                  | inr e ↦ unfold program_page in rw (b, c, e) (second ∙ first)
                  | inl e ↦ unfold program_page in rw (b, c, e) (second ∙ first)
                ]
        ]
      ]

  -- A page that was programmed without an error has the bytes of the buffer.
  pub program_page-value :
      (page_offset : ℕ) (page : List ℕ) (d : flash.Device)
      → (program_page flash page_offset page d).0 ≡ ok
      → read_range
          (flash.read (program_page flash page_offset page d).1)
          (application_start_address + page_offset)
          (length page)
        ≡ page
  program_page-value page_offset page d done =
      let address = application_start_address + page_offset in
      let erased = flash.erase_page address d in
      let programmed = program_half_words flash address page erased.1 in
      let read_back = read_range (flash.read programmed.1) address (length page) in
      elim (Bool-cases (is_complete erased.0)) [
        | inr b ↦ absurd (unfold program_page in ground (arith, done, b))
        | inl b ↦ elim (Bool-cases programmed.0) [
          | inr c ↦ absurd (unfold program_page in ground (arith, done, b, c))
          | inl c ↦ elim (Bool-cases (bytes_equal read_back page)) [
            | inr e ↦ absurd (unfold program_page in ground (arith, done, b, c, e))
            | inl e ↦
                unfold program_page in
                rw (b, c, e) (bytes_equal-eq read_back page (length-read_range _ _ _) e)
          ]
        ]
      ]

module _ (flash : Flash) (flash_laws : FlashLaws flash) (nor : NorFlash)
    (nor_laws : NorLaws nor) where
  -- The bytes of the backup's image.
  abbrev pub image_bytes : ℕ → ℕ → nor.Device → List ℕ
  image_bytes offset n d = read_range (nor.memory d) (image_start + offset) n

  page_of-lem :
      (n : ℕ) (result : Option (List ℕ) × nor.Device)
      → ((page_of flash nor result).0 ≡ ok)
      → result.0 ≡ some (page_of flash nor result).1
  page_of-lem n (none, e) done = absurd (cc)
  page_of-lem n (some page, e) done = refl

  page_of-device : (result : Option (List ℕ) × nor.Device) → (page_of flash nor result).2 ≡ result.1
  page_of-device (none, e) = refl
  page_of-device (some page, e) = refl

  abbrev pub page_length_at : ℕ → ℕ
  page_length_at offset = install_page_length application_max_size offset

  pub load_backup_page-lem :
      (offset : ℕ) (d : nor.Device)
      → SameMemory nor d (load_backup_page flash nor offset d).2
        × ((load_backup_page flash nor offset d).0 ≡ ok
            → ((load_backup_page flash nor offset d).1
                ≡ image_bytes offset (page_length_at offset) d)
              × (page_length_at offset ≢ 0))
  load_backup_page-lem offset d =
      let n = page_length_at offset in
      let found = read_image nor offset n d in
      let (same, value) = read_image-lem nor nor_laws offset n d in
      elim (Bool-cases (n == 0)) [
        | inl z ↦ unfold load_backup_page in rw z (λ a. refl, λ done. absurd (cc))
        | inr z ↦
            unfold load_backup_page in
            rw z (
              λ a. ap (λ e. nor.memory e a) (page_of-device found) ∙ same a,
              λ done. (value _ (page_of-lem n found done), ground (arith, z)),
            )
      ]

  -- One page of a rollback: the backup is only read, nothing outside the page changes, and on success
  -- the page holds the bytes of the backup.
  pub record Programmed (offset : ℕ) (b : Board flash nor)
      (result : InstallerStatus × Board flash nor) : Type 0 where
    pub same : SameMemory nor b.external result.1.external
    pub frame :
        (a : ℕ)
        → Outside (application_start_address + offset) a
        → flash.read result.1.internal a ≡ flash.read b.internal a
    pub value :
        result.0 ≡ ok
        → (read_range
              (flash.read result.1.internal)
              (application_start_address + offset)
              (page_length_at offset)
            ≡ image_bytes offset (page_length_at offset) b.external)
          × (page_length_at offset ≢ 0)

  page_length_short : (offset : ℕ) → page_length_at offset ≤ page_size
  unfolding install_page_length
  page_length_short offset = ground arith

  pub program_backup_page-Programmed :
      (offset : ℕ) (b : Board flash nor)
      → Programmed offset b (program_backup_page flash nor offset b)
  program_backup_page-Programmed offset b =
      let page = load_backup_page flash nor offset b.external in
      let (same, value) = load_backup_page-lem offset b.external in
      let programmed = program_page flash offset page.1 b.internal in
      elim (Bool-cases (is_ok page.0)) [
        | inr bad ↦
            unfold program_backup_page in
            rw bad record {
              same = same;
              frame = λ a out. refl;
              value = λ done. absurd (ground (arith, done, bad));
            }
        | inl good ↦
            let (bytes, nonempty) = value (is_ok_eq page.0 good) in
            let len : length page.1 ≡ page_length_at offset =
              ap length bytes ∙ length-read_range _ _ _ in
            unfold program_backup_page in
            rw good record {
              same = same;
              frame = λ a out.
                  program_page-frame flash flash_laws offset a page.1 b.internal
                    (omega (arith, len, page_length_short offset)) out;
              value = λ done. (
                subst
                      (λ m.
                        read_range (flash.read programmed.1) (application_start_address + offset) m
                        ≡ page.1)
                      len (program_page-value flash flash_laws offset page.1 b.internal done)
                    ∙ bytes,
                nonempty,
              );
            }
      ]
