-- ===== src/InstallerCrc/Chunks.antt =====
-- node-stm32f103/bootloader/src/image_installer.c: the CRCs that are computed 256 bytes at a time, and
-- the CRC of the whole range.
use secure_delta_ota_bootloa.Base.{
  ℕ, zero, suc, ◌+◌, ◌-◌, ◌*◌, ◌≤◌, ◌<◌, ◌≡◌, inl, inr, refl, ap, sym, ◌∙◌, arith, ltb, Bool-cases,
}
use secure_delta_ota_bootloa.Base.Range.{read_range, read_range-append}
use secure_delta_ota_bootloa.Memory.{application_start_address}
use secure_delta_ota_bootloa.Crc32.{update, calculate, initial_value}
use secure_delta_ota_bootloa.Crc32.Laws.{update-append}
use secure_delta_ota_bootloa.Flash.{Flash}
use secure_delta_ota_bootloa.InstallerCrc.{
  chunk_of, rounds_for, internal_crc_loop, calculate_internal_crc,
}

-- A chunk and what follows it.
pub update-chunk :
    (f : ℕ → ℕ) (crc address m n : ℕ)
    → update (update crc (read_range f address m)) (read_range f (address + m) n)
      ≡ update crc (read_range f address (m + n))
update-chunk f crc address m n =
    sym (update-append crc (read_range f address m) (read_range f (address + m) n))
    ∙ ap (update crc) (sym (read_range-append f address m n))

pub chunk_sum :
    (length offset : ℕ)
    → offset < length
    → (chunk_of length offset + (length - (offset + chunk_of length offset)) ≡ length - offset)
      × (offset + chunk_of length offset ≤ length)
      × ((length - offset ≤ 256) → length - (offset + chunk_of length offset) ≡ 0)
      × ((256 < length - offset) → chunk_of length offset ≡ 256)
chunk_sum length offset h = ground (arith, h)

module _ (flash : Flash) where
  internal_crc_loop-value :
      (rounds offset length running : ℕ) (d : flash.Device)
      → length - offset ≤ 256 * rounds
      → internal_crc_loop flash rounds offset length running d
        ≡ update running
            (read_range (flash.read d) (application_start_address + offset) (length - offset))
  unfolding internal_crc_loop
  internal_crc_loop-value zero offset length running d enough =
      let e : length - offset ≡ 0 = omega arith in rw e (unfold read_range in unfold update in refl)
  internal_crc_loop-value (suc rounds) offset length running d enough =
      elim (Bool-cases (ltb offset length)) [
        | inr past ↦
            let e : length - offset ≡ 0 = ground (arith, past) in
            rw (past, e) (unfold read_range in unfold update in refl)
        | inl more ↦
            let chunk = chunk_of length offset in
            let left = length - (offset + chunk) in
            let buffer = read_range (flash.read d) (application_start_address + offset) chunk in
            let sum = (chunk_sum length offset (ground (arith, more))) in
            rw more (
              internal_crc_loop-value rounds (offset + chunk) length (update running buffer) d
                (ground (arith, enough, more))
              ∙ ap (λ a. update (update running buffer) (read_range (flash.read d) a left))
                  (omega arith)
              ∙ update-chunk (flash.read d) running (application_start_address + offset) chunk left
              ∙ ap
                  (λ n.
                    update running
                      (read_range (flash.read d) (application_start_address + offset) n))
                  sum.0)
      ]

  -- The CRC that is computed in chunks of 256 bytes is the CRC of the whole range, for every length.
  pub calculate_internal_crc_lem :
      (length : ℕ) (d : flash.Device)
      → calculate_internal_crc flash length d
        ≡ calculate (read_range (flash.read d) application_start_address length)
  unfolding calculate_internal_crc calculate
  calculate_internal_crc_lem length d =
      let whole : length - 0 ≡ length = omega arith in
      rw (internal_crc_loop-value (rounds_for length) 0 length initial_value d (omega arith), whole)
        refl
