-- ===== src/MetadataStorage/Frame.antt =====
-- node-stm32f103/bootloader/storage/metadata_storage.c: what `MetadataStorage_ProgramSlot` does to the
-- bytes of the flash.
use secure_delta_ota_bootloa.Base.{
  ℕ, zero, suc, ◌+◌, ◌*◌, ◌≤◌, ◌<◌, ◌≡◌, ◌⊎◌, inl, inr, refl, ap, ap₂, sym, ◌∙◌, subst, true, not,
  List, [], ◌∷◌, arith, length, All, Bool-cases, if◌then◌else◌,
}
use secure_delta_ota_bootloa.Base.Range.{
  read_range, read_range-eq, read_range-two, read_range-IsByte,
}
use secure_delta_ota_bootloa.Base.Bytes.{IsByte, le16, le16_sum}
use secure_delta_ota_bootloa.Memory.{boot_metadata_a_address, boot_metadata_b_address}
use secure_delta_ota_bootloa.Slots.{Slot, slot_none, slot_a, slot_b, select_write}
use secure_delta_ota_bootloa.BootMetadata.{BootMetadata, encode, decode}
use secure_delta_ota_bootloa.BootMetadata.Image.{
  length-encode, encode-IsByte, decode-encode, decode-IsRecord, IsRecord,
}
use secure_delta_ota_bootloa.Flash.{Flash, FlashLaws, Outside, complete, is_complete, FlashStatus}
use secure_delta_ota_bootloa.MetadataStorage.{
  ok, StorageStatus, copy_from_flash, slot_address, program_bytes, program_slot, erase_failed,
  record_size,
}

is_complete_eq : (s : FlashStatus) → is_complete s ≡ true → s ≡ complete
is_complete_eq s q = ground arith

module _ (flash : Flash) (laws : FlashLaws flash) where
  open flash use {Device, read, erase_page, program_half_word}
  open laws use {read_byte, erase_frame, erase_blank, program_frame, program_value}

  -- Two devices that differ inside one page at most.
  abbrev pub SameOutside : ℕ → Device → Device → Type 0
  SameOutside page d e = (a : ℕ) → Outside page a → read e a ≡ read d a

  pub program_bytes-frame :
      (address a : ℕ) (bs : List ℕ) (d : Device)
      → (a < address) ⊎ (address + length bs ≤ a)
      → read (program_bytes flash address bs d).1 a ≡ read d a
  unfolding program_bytes
  program_bytes-frame address a [] d h = refl
  program_bytes-frame address a (x ∷ []) d h = refl
  program_bytes-frame address a (x ∷ y ∷ rest) d h =
      let step = program_half_word address (le16 x y) d in
      let first : read step.1 a ≡ read d a =
        program_frame address (le16 x y) a d (ground arith) (ground arith) in
      elim (Bool-cases (is_complete step.0)) [
        | inl done ↦
            rw done (program_bytes-frame (address + 2) a rest step.1 (ground arith) ∙ first)
        | inr stopped ↦ rw stopped first
      ]

  -- One completed round of the loop.
  program_bytes-round :
      (address x y : ℕ) (rest : List ℕ) (d : Device)
      → (program_bytes flash address (x ∷ y ∷ rest) d).0 ≡ ok
      → ((program_half_word address (le16 x y) d).0 ≡ complete)
        × (program_bytes flash address (x ∷ y ∷ rest) d
            ≡ program_bytes flash (address + 2) rest (program_half_word address (le16 x y) d).1)
  program_bytes-round address x y rest d done =
      elim (Bool-cases (is_complete (program_half_word address (le16 x y) d).0)) [
        | inr stopped ↦ absurd (unfold program_bytes in ground arith)
        | inl yes' ↦ (is_complete_eq _ yes', unfold program_bytes in rw yes')
      ]

  -- Where the range was erased, a completed loop leaves the bytes it was given.
  pub program_bytes-value :
      (n address : ℕ) (bs : List ℕ) (d : Device)
      → length bs ≡ 2 * n
      → All IsByte bs
      → ((a : ℕ) → address ≤ a → a < address + length bs → read d a ≡ 0xFF)
      → (program_bytes flash address bs d).0 ≡ ok
      → read_range (read (program_bytes flash address bs d).1) address (length bs) ≡ bs
  program_bytes-value n address [] d e h blank done = unfold read_range in refl
  program_bytes-value n address (x ∷ []) d e h blank done = absurd (omega arith)
  program_bytes-value zero address (x ∷ y ∷ rest) d e h blank done = absurd (omega arith)
  program_bytes-value (suc n) address (x ∷ y ∷ rest) d e h blank done =
      let (completes, continues) = program_bytes-round address x y rest d done in
      let d' = (program_half_word address (le16 x y) d).1 in
      let word = le16_sum x y h.0 h.1.0 in
      let (low, high) =
        program_value address (le16 x y) d completes (blank address (omega arith) (omega arith))
          (blank (address + 1) (omega arith) (omega arith)) (omega (arith, word)) in
      let first : read (program_bytes flash (address + 2) rest d').1 address ≡ x =
        program_bytes-frame (address + 2) address rest d' (ground arith)
        ∙ low
        ∙ omega (arith, word) in
      let second : read (program_bytes flash (address + 2) rest d').1 (address + 1) ≡ y =
        program_bytes-frame (address + 2) (address + 1) rest d' (ground arith)
        ∙ high
        ∙ omega (arith, word) in
      rw (continues, read_range-two)
        (ap₂ ◌∷◌ first (
          ap₂ ◌∷◌ second (
            program_bytes-value n (address + 2) rest d' (omega arith) h.1.1
              (λ a lo hi.
                program_frame address (le16 x y) a d (omega arith) (omega arith)
                ∙ blank a (omega arith) (omega arith))
              (ap (λ r. r.0) (sym continues) ∙ done))))

  -- Erasing a page and programming a record into it.
  program_page : ℕ → BootMetadata → Device → StorageStatus × Device
  program_page address m d =
      let erased = erase_page address d in
      if not (is_complete erased.0)
      then (erase_failed, erased.1)
      else program_bytes flash address (encode m) erased.1

  program_page-frame :
      (address : ℕ) (m : BootMetadata) (d : Device)
      → SameOutside address d (program_page address m d).1
  unfolding program_page
  program_page-frame address m d a out =
      let e = (erase_page address d).1 in
      let kept : read (program_bytes flash address (encode m) e).1 a ≡ read e a =
        program_bytes-frame address a (encode m) e (ground (arith, length-encode m)) in
      elim (Bool-cases (is_complete (erase_page address d).0)) [
        | inl yes' ↦ rw yes' (kept ∙ erase_frame address a d out)
        | inr no' ↦ rw no' (erase_frame address a d out)
      ]

  program_page-value :
      (address : ℕ) (m : BootMetadata) (d : Device)
      → (program_page address m d).0 ≡ ok
      → read_range (read (program_page address m d).1) address record_size ≡ encode m
  unfolding program_page
  program_page-value address m d done = elim (Bool-cases (is_complete (erase_page address d).0)) [
    | inl yes' ↦
        let e = (erase_page address d).1 in
        rw yes' (
          subst
            (λ n.
              read_range (read (program_bytes flash address (encode m) e).1) address n ≡ encode m)
            (length-encode m)
            (program_bytes-value 26 address (encode m) e (length-encode m) (encode-IsByte m)
              (λ a lo hi.
                erase_blank address a d (is_complete_eq _ yes') lo (omega (arith, length-encode m)))
              (rw yes' at done)))
    | inr no' ↦ absurd (ground arith)
  ]

  -- Programming a slot changes nothing outside its page, whatever it returns.
  pub program_slot-frame :
      (slot : Slot) (m : BootMetadata) (d : Device)
      → SameOutside (slot_address slot) d (program_slot flash slot m d).1
  unfolding program_slot slot_address
  program_slot-frame slot_none m d a out = refl
  program_slot-frame slot_a m d a out =
      unfold program_page in program_page-frame boot_metadata_a_address m d a out
  program_slot-frame slot_b m d a out =
      unfold program_page in program_page-frame boot_metadata_b_address m d a out

  -- A slot that was programmed without an error reads back the record.
  pub program_slot-value :
      (slot : Slot) (m : BootMetadata) (d : Device)
      → IsRecord m
      → (program_slot flash slot m d).0 ≡ ok
      → copy_from_flash flash (program_slot flash slot m d).1 (slot_address slot) ≡ m
  unfolding program_slot slot_address copy_from_flash
  program_slot-value slot_none m d h done = absurd (cc)
  program_slot-value slot_a m d h done =
      unfold program_page in
      ap decode (program_page-value boot_metadata_a_address m d done) ∙ decode-encode m h
  program_slot-value slot_b m d h done =
      unfold program_page in
      ap decode (program_page-value boot_metadata_b_address m d done) ∙ decode-encode m h

  -- The record of a slot depends on its page alone.
  pub copy_from_flash-frame :
      (slot : Slot) (d e : Device)
      → SameOutside (slot_address slot) d e
      → copy_from_flash flash e (slot_address (select_write slot))
        ≡ copy_from_flash flash d (slot_address (select_write slot))
  unfolding copy_from_flash slot_address select_write
  copy_from_flash-frame slot_none d e same = ap decode (
      read_range-eq (read e) (read d) boot_metadata_a_address record_size
        (λ a lo hi. same a (omega arith)))
  copy_from_flash-frame slot_a d e same = ap decode (
      read_range-eq (read e) (read d) boot_metadata_b_address record_size
        (λ a lo hi. same a (omega arith)))
  copy_from_flash-frame slot_b d e same = ap decode (
      read_range-eq (read e) (read d) boot_metadata_a_address record_size
        (λ a lo hi. same a (omega arith)))

  pub copy_from_flash-IsRecord :
      (d : Device) (address : ℕ) → IsRecord (copy_from_flash flash d address)
  unfolding copy_from_flash
  copy_from_flash-IsRecord d address =
      decode-IsRecord (read_range (read d) address record_size)
        (read_range-IsByte (read d) address record_size (read_byte d))
