-- ===== src/ExtFlash/Pages.antt =====
-- shared/src/ext_flash_layout.c: ranges, and the chunks of a write.
use secure_delta_ota_bootloa.Base.{ℕ, ◌+◌, ◌%◌, ◌≤◌, ◌≡◌, ◌↔◌, ◌⊎◌, true, arith}
use secure_delta_ota_bootloa.Base.Bits.{bit_and_low}
use secure_delta_ota_bootloa.ExtFlash.{is_range_valid, page_chunk_length}

-- The range test accepts exactly the ranges that end inside the region, with no wrap-around.
pub is_range_valid_iff :
    (region offset length : ℕ)
    → (is_range_valid region offset length ≡ true) ↔ (offset + length ≤ region)
unfolding is_range_valid
is_range_valid_iff region offset length = ground arith

-- A chunk of a write is not empty unless nothing remains, is no longer than what remains, never
-- crosses a page, and ends at a page boundary or at the end of the write.
pub page_chunk_length_lem :
    (address remaining : ℕ)
    → (page_chunk_length address remaining ≤ remaining)
      × (address % 256 + page_chunk_length address remaining ≤ 256)
      × ((page_chunk_length address remaining ≡ 0) ↔ (remaining ≡ 0))
      × ((page_chunk_length address remaining ≡ remaining)
          ⊎ (address % 256 + page_chunk_length address remaining ≡ 256))
unfolding page_chunk_length
page_chunk_length_lem address remaining = ground (arith, bit_and_low 8 address)
