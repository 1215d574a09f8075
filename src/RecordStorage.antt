-- ===== src/RecordStorage.antt =====
-- The two record storages of the external flash, node-stm32f103/common/storage/
-- update_handoff_storage.c and download_checkpoint_storage.c, which differ in the records alone. Each
-- keeps its record twice, in the two metadata sectors, next to a record of the other kind that it
-- carries over when it erases a sector.
pub mod Steps
pub mod Sector
pub mod Commit
pub mod Load
pub mod Coexist
pub mod Readable
pub mod Kinds
pub mod Handoff
pub mod Checkpoint
mod Tests
use secure_delta_ota_bootloa.Base.{
  ℕ, ◌+◌, ◌≤◌, ◌≡◌, ◌≢◌, ◌⊎◌, Bool, true, false, not, ◌&&◌, ◌||◌, Option, none, some, List, length,
  take, drop, replicate, All, if◌then◌else◌,
}
use secure_delta_ota_bootloa.Base.Bytes.{IsByte, IsU32}
use secure_delta_ota_bootloa.Base.Range.{bytes_equal}
use secure_delta_ota_bootloa.Memory.{ext_flash_sector_size}
use secure_delta_ota_bootloa.Slots.{
  Slot, slot_none, slot_a, slot_b, select_newest, select_write, next_generation,
}
use secure_delta_ota_bootloa.NorFlash.{NorFlash}
use secure_delta_ota_bootloa.ExternalStorage.{
  Partition, metadata_a, metadata_b, read, write, erase_partition,
}

-- One kind of record: its place in a metadata sector, its bytes, its checks, and `seal`, which sets
-- the generation and finalizes.
pub record RecordKind : Type 1 where
  pub Rec : Type 0
  pub offset : ℕ
  pub size : ℕ
  pub crc_offset : ℕ
  pub encode : Rec → List ℕ
  pub decode : List ℕ → Rec
  pub is_valid : Rec → Bool
  pub generation : Rec → ℕ
  pub seal : ℕ → Rec → Rec

pub record KindLaws (k : RecordKind) : Type 1 where
  pub IsRec : k.Rec → Type 0
  pub nonempty : k.size ≢ 0
  pub crc_inside : k.crc_offset ≤ k.size
  pub fits : k.offset + k.size ≤ ext_flash_sector_size
  pub length_encode : (r : k.Rec) → length (k.encode r) ≡ k.size
  pub encode_decode :
      (bs : List ℕ) → length bs ≡ k.size → All IsByte bs → k.encode (k.decode bs) ≡ bs
  pub decode_encode : (r : k.Rec) → IsRec r → k.decode (k.encode r) ≡ r
  pub seal_record : (g : ℕ) (r : k.Rec) → IsU32 g → IsRec r → IsRec (k.seal g r)
  pub seal_generation : (g : ℕ) (r : k.Rec) → k.generation (k.seal g r) ≡ g
  pub decode_generation : (bs : List ℕ) → All IsByte bs → IsU32 (k.generation (k.decode bs))
  pub erased_invalid : k.is_valid (k.decode (replicate k.size 0xFF)) ≡ false

-- Two kinds that can share a sector.
abbrev pub AreApart : RecordKind → RecordKind → Type 0
AreApart k l = (k.offset + k.size ≤ l.offset) ⊎ (l.offset + l.size ≤ k.offset)

pub data StoreStatus : Type 0 where
  ok bad_argument not_found read_failed erase_failed write_failed verify_failed : StoreStatus

unfoldable pub partition_for_slot : Slot → Partition
partition_for_slot slot_b = metadata_b
partition_for_slot _ = metadata_a

-- A status, the record and the slot that are handed back with it, and the device.
pub record StoreResult (Rec Device : Type 0) : Type 0 where
  pub status : StoreStatus
  pub found : Option Rec
  pub slot : Slot
  pub device : Device

abbrev pub failed : {Rec Device : Type 0} → StoreStatus → Device → StoreResult Rec Device
failed s d = record { status = s; found = none; slot = slot_none; device = d }

abbrev pub map_first : {A B D : Type 0} → (A → B) → Option A × D → Option B × D
map_first f (none, d) = (none, d)
map_first f (some a, d) = (some (f a), d)

module _ (own : RecordKind) (nor : NorFlash) where
  open nor use {Device}
  open own use {Rec, encode, decode}

  unfoldable pub read_slot : Slot → Device → Option Rec × Device
  unfolding partition_for_slot
  read_slot slot d = map_first decode (read nor (partition_for_slot slot) own.offset own.size d)

  abbrev pub pair_with : Rec → Option Rec × Device → Option (Rec × Rec) × Device
  pair_with a (none, d) = (none, d)
  pair_with a (some b, d) = (some (a, b), d)

  -- The second slot is read only after the first was.
  abbrev pub read_second : Option Rec × Device → Option (Rec × Rec) × Device
  read_second (none, d) = (none, d)
  read_second (some a, d) = pair_with a (read_slot slot_b d)

  unfoldable pub read_both : Device → Option (Rec × Rec) × Device
  unfolding read_slot
  read_both d = read_second (read_slot slot_a d)

  unfoldable pub newest_of : Rec → Rec → Slot
  newest_of a b =
      select_newest (own.is_valid a) (own.is_valid b) (own.generation a) (own.generation b)

  abbrev pub loaded : Slot → Rec → Rec → Device → StoreResult Rec Device
  loaded slot_none a b d = failed not_found d
  loaded slot_a a b d = record { status = ok; found = some a; slot = slot_a; device = d }
  loaded slot_b a b d = record { status = ok; found = some b; slot = slot_b; device = d }

  abbrev pub load_from : Option (Rec × Rec) × Device → StoreResult Rec Device
  load_from (none, d) = failed read_failed d
  load_from (some (a, b), d) = loaded (newest_of a b) a b d

  unfoldable pub load : Device → StoreResult Rec Device
  unfolding read_both newest_of
  load d = load_from (read_both d)

  abbrev pub generation_in : Slot → Rec → Rec → ℕ
  generation_in slot_a a b = own.generation a
  generation_in slot_b a b = own.generation b
  generation_in slot_none a b = 0

  -- The record that a commit writes over the records `a` and `b`.
  unfoldable pub candidate : Rec → Rec → Rec → Rec
  unfolding newest_of
  candidate requested a b = own.seal (next_generation (generation_in (newest_of a b) a b)) requested

  abbrev pub verdict : Slot → Rec → Option Rec × Device → StoreResult Rec Device
  verdict target written (none, d) = failed verify_failed d
  verdict target written (some verification, d) =
      if not (own.is_valid verification) || not (bytes_equal (encode written) (encode verification))
      then failed verify_failed d
      else record { status = ok; found = some verification; slot = target; device = d }

  -- Reading the record back after writing it.
  unfoldable pub verify_written : Partition → Slot → Rec → Device → StoreResult Rec Device
  verify_written partition target written d =
      verdict target written (map_first decode (read nor partition own.offset own.size d))

  module _ (other : RecordKind) where
    abbrev pub if_valid : Option other.Rec × Device → Option other.Rec × Device
    if_valid (none, d) = (none, d)
    if_valid (some r, d) = (if other.is_valid r then some r else none, d)

    -- The other kind's record in a sector, where it can be read and is valid.
    unfoldable pub preserved : Partition → Device → Option other.Rec × Device
    preserved partition d =
        if_valid (map_first other.decode (read nor partition other.offset other.size d))

    abbrev pub write_preserved : Partition → Option other.Rec → Device → Bool × Device
    write_preserved partition none d = (true, d)
    write_preserved partition (some r) d = write nor partition other.offset (other.encode r) d

    -- The record without its CRC, the CRC, and what was preserved; the first failure ends it.
    unfoldable pub write_records : Partition → Rec → Option other.Rec → Device → Bool × Device
    write_records partition r kept d =
        let body = write nor partition own.offset (take own.crc_offset (encode r)) d in
        let crc =
          write nor partition (own.offset + own.crc_offset) (drop own.crc_offset (encode r))
            body.1 in
        let rest = write_preserved partition kept crc.1 in
        if not body.0 then (false, body.1) else if not crc.0 then (false, crc.1) else rest

    unfoldable pub replace_sector : Slot → Rec → Device → StoreResult Rec Device
    unfolding partition_for_slot preserved write_records verify_written
    replace_sector target r d =
        let partition = partition_for_slot target in
        let kept = preserved partition d in
        let erased = erase_partition nor partition kept.1 in
        let written = write_records partition r kept.0 erased.1 in
        let verified = verify_written partition target r written.1 in
        if not erased.0
        then failed erase_failed erased.1
        else if not written.0
        then failed write_failed written.1
        else verified

    abbrev pub commit_over : Rec → Option (Rec × Rec) × Device → StoreResult Rec Device
    commit_over requested (none, d) = failed read_failed d
    commit_over requested (some (a, b), d) =
        let replaced = replace_sector (select_write (newest_of a b)) (candidate requested a b) d in
        if not (own.is_valid (candidate requested a b)) then failed bad_argument d else replaced

    unfoldable pub commit : Option Rec → Device → StoreResult Rec Device
    unfolding read_both newest_of candidate replace_sector
    commit none d = failed bad_argument d
    commit (some requested) d = commit_over requested (read_both d)
