-- ===== src/BackupStorage/Header.antt =====
-- node-stm32f103/common/storage/backup_image_storage.c: what a committed header and a written image
-- read back as.
use secure_delta_ota_bootloa.Base.{
  ℕ, ◌+◌, ◌≤◌, ◌≡◌, ◌≢◌, inl, inr, refl, ap, sym, ◌∙◌, subst, Bool, true, Option, none, some, List,
  arith, length, take, drop, Bool-cases,
}
use secure_delta_ota_bootloa.Base.Range.{read_range, read_range-eq, bytes_equal}
use secure_delta_ota_bootloa.Memory.{application_max_size}
use secure_delta_ota_bootloa.BackupImage.{
  BackupImage, encode, decode, finalize, validate, is_valid_status, crc_offset, data_offset,
}
use secure_delta_ota_bootloa.BackupImage.Image.{
  IsRecord, length-encode_backup, decode_backup-encode, finalize_backup-IsRecord,
}
use secure_delta_ota_bootloa.NorFlash.{NorFlash, NorLaws, SameMemory}
use secure_delta_ota_bootloa.ExternalStorage.{backup, read, write}
use secure_delta_ota_bootloa.ExternalStorage.Frame.{
  start_of, read-SameMemory, read-value, write-value,
}
use secure_delta_ota_bootloa.ExternalStorage.Split.{write-split}
use secure_delta_ota_bootloa.BackupStorage.{
  BackupStatus, ok, read_failed, is_ok, image_range_valid, header_size, load_header, loaded,
  invalidate_header, write_header, verdict, commit_header, read_image, write_image,
}
use secure_delta_ota_bootloa.BackupStorage.Frame.{image_start, backup_start}

module _ (nor : NorFlash) (laws : NorLaws nor) where
  open nor use {Device, memory}

  abbrev header_bytes : Device → List ℕ
  header_bytes d = read_range (memory d) (start_of backup + 0) header_size

  -- A header that was verified is in the flash, valid, and still there.
  verdict-ok :
      (candidate : BackupImage) (d : Device)
      → let result = verdict nor candidate (read nor backup 0 header_size d) in
        result.status ≡ ok
        → (result.found ≡ some (decode (header_bytes d)))
          × SameMemory nor d result.device
          × (is_valid_status (validate (some (decode (header_bytes d)))) ≡ true)
  verdict-ok candidate d done =
      through (read nor backup 0 header_size d) refl
        (read-SameMemory nor laws backup 0 header_size d) done
    where
      through :
          (result : Option (List ℕ) × Device)
          → read nor backup 0 header_size d ≡ result
          → SameMemory nor d result.1
          → (verdict nor candidate result).status ≡ ok
          → ((verdict nor candidate result).found ≡ some (decode (header_bytes d)))
            × SameMemory nor d (verdict nor candidate result).device
            × (is_valid_status (validate (some (decode (header_bytes d)))) ≡ true)
      through (none, e) q same done' = absurd (cc)
      through (some bytes, e) q same done' =
          let value = read-value nor laws backup 0 header_size d bytes (ap (λ x. x.0) q) in
          elim (Bool-cases (is_valid_status (validate (some (decode bytes))))) [
            | inr bad ↦ absurd (ground (arith, done', bad))
            | inl good ↦
                elim (Bool-cases (bytes_equal (encode candidate) (encode (decode bytes)))) [
                  | inr differ ↦ absurd (ground (arith, done', good, differ))
                  | inl equal ↦ rw (← value, good, equal) (refl, same, refl)
                ]
          ]

  -- The device and the header that a successful commit leaves.
  written_header :
      (candidate : BackupImage) (d : Device)
      → (write_header nor candidate d).status ≡ ok
      → let result = write_header nor candidate d in
        (result.found ≡ some (decode (encode candidate)))
        × (header_bytes result.device ≡ encode candidate)
        × (is_valid_status (validate (some (decode (encode candidate)))) ≡ true)
  written_header candidate d done = elim (Bool-cases body.0) [
    | inr b ↦ absurd (unfold write_header in ground (arith, done, b))
    | inl b ↦ elim (Bool-cases crc.0) [
      | inr c ↦ absurd (unfold write_header in ground (arith, done, b, c))
      | inl c ↦ unfold write_header in rw (b, c) (finish b c (rw (b, c) at done))
    ]
  ]
    where
      body : Bool × Device
      body = write nor backup 0 (take crc_offset (encode candidate)) d

      crc : Bool × Device
      crc = write nor backup crc_offset (drop crc_offset (encode candidate)) body.1

      finish :
          body.0 ≡ true
          → crc.0 ≡ true
          → (verdict nor candidate (read nor backup 0 header_size crc.1)).status ≡ ok
          → let result = verdict nor candidate (read nor backup 0 header_size crc.1) in
            (result.found ≡ some (decode (encode candidate)))
            × (header_bytes result.device ≡ encode candidate)
            × (is_valid_status (validate (some (decode (encode candidate)))) ≡ true)
      finish b c verified =
          let len = length-encode_backup candidate in
          let bytes : header_bytes crc.1 ≡ encode candidate =
            subst (λ m. read_range (memory crc.1) (start_of backup + 0) m ≡ encode candidate) len
              (write-split nor laws backup 0 crc_offset (encode candidate) d (omega (arith, len)) b
                c) in
          let (found, same, good) = verdict-ok candidate crc.1 verified in
          let last = (verdict nor candidate (read nor backup 0 header_size crc.1)).device in
          (
            found ∙ ap (λ bs. some (decode bs)) bytes,
            read_range-eq (memory last) (memory crc.1) (start_of backup + 0) header_size
                  (λ a lo hi. same a)
                ∙ bytes,
            subst (λ bs. is_valid_status (validate (some (decode bs))) ≡ true) bytes good,
          )

  load_header-value :
      (r : BackupImage) (d : Device)
      → decode (header_bytes d) ≡ r
      → is_valid_status (validate (some r)) ≡ true
      → (load_header nor d).status ≢ read_failed
      → ((load_header nor d).status ≡ ok) × ((load_header nor d).found ≡ some r)
  unfolding load_header
  load_header-value r d holds good readable =
      through (read nor backup 0 header_size d) refl readable
    where
      through :
          (result : Option (List ℕ) × Device)
          → read nor backup 0 header_size d ≡ result
          → (loaded nor result).status ≢ read_failed
          → ((loaded nor result).status ≡ ok) × ((loaded nor result).found ≡ some r)
      through (none, e) q can = absurd (can refl)
      through (some bytes, e) q can =
          let value = read-value nor laws backup 0 header_size d bytes (ap (λ x. x.0) q) in
          let same : decode bytes ≡ r = ap decode value ∙ holds in rw (same, good) (refl, refl)

  -- After a header commit that reports success, a load that can read the header returns the finalized
  -- record that was asked for, which the commit also handed back.
  pub commit_header-load :
      (r : BackupImage) (d : Device)
      → IsRecord r
      → let done = commit_header nor (some r) d in
        done.status ≡ ok
        → (load_header nor done.device).status ≢ read_failed
        → (done.found ≡ some (finalize r))
          × ((load_header nor done.device).status ≡ ok)
          × ((load_header nor done.device).found ≡ some (finalize r))
  commit_header-load r d words_ok success readable =
      elim (Bool-cases (is_valid_status (validate (some c)))) [
        | inr v ↦ absurd (unfold commit_header in ground (arith, success, v))
        | inl v ↦ elim (Bool-cases (is_ok erased.0)) [
          | inr b ↦ absurd (unfold commit_header in ground (arith, success, v, b))
          | inl b ↦
              let run : commit_header nor (some r) d ≡ write_header nor c erased.1 =
                unfold commit_header in rw (v, b) refl in
              let (found, bytes, good) =
                written_header c erased.1 (ap (λ x. x.status) (sym run) ∙ success) in
              let sealed = decode_backup-encode c (finalize_backup-IsRecord r words_ok) in
              let (status, loaded') =
                load_header-value c (write_header nor c erased.1).device (ap decode bytes ∙ sealed)
                  v (subst (λ x. (load_header nor x.device).status ≢ read_failed) run readable) in
              rw run (found ∙ ap some sealed, status, loaded')
        ]
      ]
    where
      c : BackupImage
      c = finalize r

      erased : BackupStatus × Device
      erased = invalidate_header nor d

  -- A write to the image of the backup that reports success is read back by every read of the same
  -- range that succeeds, and the range lies inside the image.
  pub write_image-read_image :
      (offset : ℕ) (bs found : List ℕ) (d : Device)
      → (write_image nor offset bs d).0 ≡ true
      → (read_image nor offset (length bs) (write_image nor offset bs d).1).0 ≡ some found
      → (found ≡ bs) × (offset + length bs ≤ application_max_size)
  write_image-read_image offset bs found d wrote got =
      elim (Bool-cases (image_range_valid offset (length bs))) [
        | inr v ↦ absurd (unfold write_image in ground (arith, wrote, v))
        | inl v ↦
            let written = write nor backup (data_offset + offset) bs d in
            let done : written.0 ≡ true = unfold write_image in rw v at wrote in
            (
              read-value nor laws backup (data_offset + offset) (length bs) written.1 found
                    (unfold write_image in unfold read_image in rw v at got)
                  ∙ (write-value nor laws backup (data_offset + offset) bs d done).0,
              unfold image_range_valid in ground (arith, v),
            )
      ]

  -- What a read of the image changes and returns.
  pub read_image-lem :
      (offset n : ℕ) (d : Device)
      → SameMemory nor d (read_image nor offset n d).1
        × ((bs : List ℕ)
            → (read_image nor offset n d).0 ≡ some bs
            → bs ≡ read_range (memory d) (image_start + offset) n)
  read_image-lem offset n d = elim (Bool-cases (image_range_valid offset n)) [
    | inr v ↦ unfold read_image in rw v (λ a. refl, λ bs e. absurd (cc))
    | inl v ↦
        unfold read_image in
        rw v (
          read-SameMemory nor laws backup (data_offset + offset) n d,
          λ bs e.
              read-value nor laws backup (data_offset + offset) n d bs e
              ∙ ap (λ x. read_range (nor.memory d) x n) (omega (arith, backup_start)),
        )
  ]
