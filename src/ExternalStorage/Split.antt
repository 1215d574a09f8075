-- ===== src/ExternalStorage/Split.antt =====
-- node-stm32f103/common/storage/external_flash_storage.c: bytes written in two parts, as the record
-- storages do to program a CRC last.
use secure_delta_ota_bootloa.Base.{
  ℕ, ◌+◌, ◌-◌, ◌≤◌, ◌≡◌, inl, ap₂, sym, ◌∙◌, subst, true, List, ◌++◌, arith, length, take, drop,
  length-take, length-drop, take-append-drop,
}
use secure_delta_ota_bootloa.Base.Range.{read_range, read_range-eq, read_range-append}
use secure_delta_ota_bootloa.NorFlash.{NorFlash, NorLaws}
use secure_delta_ota_bootloa.ExternalStorage.{Partition, write}
use secure_delta_ota_bootloa.ExternalStorage.Frame.{start_of, write-frame, write-value}

module _ (nor : NorFlash) (laws : NorLaws nor) where
  open nor use {Device, memory}

  pub write-split :
      (p : Partition) (offset n : ℕ) (bs : List ℕ) (d : Device)
      → n ≤ length bs
      → (write nor p offset (take n bs) d).0 ≡ true
      → (write nor p (offset + n) (drop n bs) (write nor p offset (take n bs) d).1).0 ≡ true
      → read_range
          (memory (write nor p (offset + n) (drop n bs) (write nor p offset (take n bs) d).1).1)
          (start_of p + offset)
          (length bs)
        ≡ bs
  write-split p offset n bs d inside wrote_first wrote_second =
      let first = write nor p offset (take n bs) d in
      let last = write nor p (offset + n) (drop n bs) first.1 in
      let short : length (take n bs) ≡ n = omega (arith, length-take n bs) in
      let rest = length bs - n in
      let long : length (drop n bs) ≡ rest = omega (arith, length-drop n bs) in
      let total : length bs ≡ n + rest = omega arith in
      let place : start_of p + (offset + n) ≡ start_of p + offset + n = omega arith in
      let front : read_range (memory last.1) (start_of p + offset) n ≡ take n bs =
        read_range-eq (memory last.1) (memory first.1) (start_of p + offset) n
          (λ a lo hi. write-frame nor laws p (offset + n) (drop n bs) first.1 a (inl (omega arith)))
        ∙ subst (λ m. read_range (memory first.1) (start_of p + offset) m ≡ take n bs) short
            (write-value nor laws p offset (take n bs) d wrote_first).0 in
      let back : read_range (memory last.1) (start_of p + offset + n) rest ≡ drop n bs =
        subst (λ a. read_range (memory last.1) a rest ≡ drop n bs) place
          (subst (λ m. read_range (memory last.1) (start_of p + (offset + n)) m ≡ drop n bs) long
            (write-value nor laws p (offset + n) (drop n bs) first.1 wrote_second).0) in
      subst (λ m. read_range (memory last.1) (start_of p + offset) m ≡ bs) (sym total)
        (read_range-append (memory last.1) (start_of p + offset) n rest
          ∙ ap₂ ◌++◌ front back
          ∙ take-append-drop n bs)
