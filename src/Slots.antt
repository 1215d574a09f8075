-- ===== src/Slots.antt =====
-- The A/B slot discipline that shared/src/boot_metadata.c, update_handoff.c and
-- download_checkpoint.c each spell out: 32-bit serial generations and the choice of a slot.
pub mod Order
mod Tests
use secure_delta_ota_bootloa.Base.{
  ℕ, ◌+◌, ◌-◌, ◌^◌, Bool, true, false, ◌&&◌, not, ltb, ◌==◌, ◌!=◌, if◌then◌else◌,
}
use secure_delta_ota_bootloa.Base.Bytes.{u32}

pub data Slot : Type 0 where
  slot_none slot_a slot_b : Slot

abbrev pub first_generation : ℕ
first_generation = 1

unfoldable pub is_generation_newer : ℕ → ℕ → Bool
is_generation_newer candidate reference =
    let difference = u32 (candidate + 2 ^ 32 - reference) in
    difference != 0 && ltb difference 0x80000000

unfoldable pub next_generation : ℕ → ℕ
next_generation current_generation =
    let next = u32 (current_generation + 1) in if next == 0 then first_generation else next

-- `slot` and its generation are read only where the slot's record validates.
unfoldable pub select_newest : Bool → Bool → ℕ → ℕ → Slot
select_newest valid_a valid_b generation_a generation_b =
    if not valid_a && not valid_b
    then slot_none
    else if not valid_a
    then slot_b
    else if not valid_b
    then slot_a
    else if is_generation_newer generation_b generation_a
    then slot_b
    else slot_a

unfoldable pub select_write : Slot → Slot
select_write slot_a = slot_b
select_write _ = slot_a
