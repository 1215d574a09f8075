-- ===== src/RecordStorage/Steps.antt =====
-- update_handoff_storage.c and download_checkpoint_storage.c of node-stm32f103/common/storage: what
-- reading both slots returns, and what replacing a sector leaves in it.
use mathlib.Core.Option.{some-injective}
use secure_delta_ota_bootloa.Base.{
  ℕ, ◌+◌, ◌≤◌, ◌≡◌, refl, ap, sym, ◌∙◌, subst, true, Option, none, some, List, arith, take, drop,
}
use secure_delta_ota_bootloa.Base.Range.{read_range, read_range-eq}
use secure_delta_ota_bootloa.Memory.{ext_flash_size}
use secure_delta_ota_bootloa.Slots.{Slot, slot_none, slot_a, slot_b}
use secure_delta_ota_bootloa.NorFlash.{NorFlash, NorLaws, SameMemory}
use secure_delta_ota_bootloa.ExternalStorage.{Partition, get_partition, read, write}
use secure_delta_ota_bootloa.ExternalStorage.Frame.{start_of, size_of, read-SameMemory, read-value}
use secure_delta_ota_bootloa.ExternalStorage.Split.{write-split}
use secure_delta_ota_bootloa.RecordStorage.{
  RecordKind, KindLaws, AreApart, partition_for_slot, read_slot, read_both, map_first, read_second,
  pair_with,
}

pub size_of_slot : (s : Slot) → size_of (partition_for_slot s) ≡ 4096
unfolding partition_for_slot size_of get_partition
size_of_slot slot_none = refl
size_of_slot slot_a = refl
size_of_slot slot_b = refl

pub slot_fits :
    (k : RecordKind) (laws : KindLaws k) (s : Slot)
    → start_of (partition_for_slot s) + k.offset + k.size ≤ ext_flash_size
unfolding start_of get_partition partition_for_slot
slot_fits k laws slot_none = omega (arith, laws.fits)
slot_fits k laws slot_a = omega (arith, laws.fits)
slot_fits k laws slot_b = omega (arith, laws.fits)

module _ (k : RecordKind) (nor : NorFlash) where
  -- The bytes of a record in the sector of a slot.
  abbrev pub bytes_in : Partition → nor.Device → List ℕ
  bytes_in p d = read_range (nor.memory d) (start_of p + k.offset) k.size

  abbrev pub stored_at : Slot → nor.Device → k.Rec
  stored_at s d = k.decode (bytes_in (partition_for_slot s) d)

  pub bytes_in-SameMemory :
      (p : Partition) (d e : nor.Device) → SameMemory nor d e → bytes_in p e ≡ bytes_in p d
  bytes_in-SameMemory p d e same =
      read_range-eq (nor.memory e) (nor.memory d) (start_of p + k.offset) k.size (λ a lo hi. same a)

module _ (own : RecordKind) (nor : NorFlash) (laws : NorLaws nor) where
  open nor use {Device, memory}

  abbrev pub raw_read : Partition → Device → Option (List ℕ) × Device
  raw_read p d = read nor p own.offset own.size d

  -- A record that was read is the one in the sector.
  pub decoded_lem :
      (p : Partition) (d : Device) (result : Option (List ℕ) × Device)
      → result ≡ raw_read p d
      → (r : own.Rec) (e : Device) → map_first own.decode result ≡ (some r, e)
      → (r ≡ own.decode (bytes_in own nor p d)) × SameMemory nor d e
  decoded_lem p d (none, f) same r e h = absurd (cc)
  decoded_lem p d (some bs, f) same r e h =
      let value = read-value nor laws p own.offset own.size d bs (ap (λ q. q.0) (sym same)) in
      let kept = read-SameMemory nor laws p own.offset own.size d in
      (
        sym (some-injective _ _ (ap (λ q. q.0) h)) ∙ ap own.decode value,
        rw (← ap (λ q. q.1) h, ap (λ q. q.1) same) kept,
      )

  pub read_slot-value :
      (s : Slot) (d : Device) (r : own.Rec) (e : Device)
      → read_slot own nor s d ≡ (some r, e)
      → (r ≡ stored_at own nor s d) × SameMemory nor d e
  unfolding read_slot
  read_slot-value s d r e h =
      decoded_lem (partition_for_slot s) d (raw_read (partition_for_slot s) d) refl r e h

  -- Both slots, read one after the other.
  pub read_both-value :
      (d : Device) (a b : own.Rec) (e : Device)
      → read_both own nor d ≡ (some (a, b), e)
      → (a ≡ stored_at own nor slot_a d) × (b ≡ stored_at own nor slot_b d) × SameMemory nor d e
  unfolding read_both
  read_both-value d a b e h = second (read_slot own nor slot_a d) refl h
    where
      third :
          (f : Device)
          → SameMemory nor d f
          → (a' : own.Rec) → a' ≡ stored_at own nor slot_a d
          → (result : Option own.Rec × Device) → read_slot own nor slot_b f ≡ result
          → pair_with own nor a' result ≡ (some (a, b), e)
          → (a ≡ stored_at own nor slot_a d) × (b ≡ stored_at own nor slot_b d) × SameMemory nor d e
      third f same a' first (none, g) r q = absurd (cc)
      third f same a' first (some b', g) r q =
          let (value, kept) = read_slot-value slot_b f b' g r in
          let both = some-injective _ _ (ap (λ t. t.0) q) in
          let moved =
            ap own.decode (bytes_in-SameMemory own nor (partition_for_slot slot_b) d f same) in
          (
            sym (ap (λ t. t.0) both) ∙ first,
            sym (ap (λ t. t.1) both) ∙ value ∙ moved,
            rw (← ap (λ t. t.1) q) (λ x. kept x ∙ same x),
          )

      second :
          (result : Option own.Rec × Device)
          → read_slot own nor slot_a d ≡ result
          → read_second own nor result ≡ (some (a, b), e)
          → (a ≡ stored_at own nor slot_a d) × (b ≡ stored_at own nor slot_b d) × SameMemory nor d e
      second (none, f) r q = absurd (cc)
      second (some a', f) r q =
          let (value, kept) = read_slot-value slot_a d a' f r in
          third f kept a' value (read_slot own nor slot_b f) refl q

  pub read_slot-SameMemory : (s : Slot) (d : Device) → SameMemory nor d (read_slot own nor s d).1
  unfolding read_slot
  read_slot-SameMemory s d =
      through (raw_read (partition_for_slot s) d)
        (read-SameMemory nor laws (partition_for_slot s) own.offset own.size d)
    where
      through :
          (result : Option (List ℕ) × Device)
          → SameMemory nor d result.1
          → SameMemory nor d (map_first own.decode result).1
      through (none, f) same = same
      through (some bs, f) same = same

module _ (own other : RecordKind) (nor : NorFlash) (laws : NorLaws nor) (own_laws : KindLaws own)
    (other_laws : KindLaws other) (apart : AreApart own other) where
  open nor use {Device, memory}

  -- The record whose body and CRC were written.
  pub body_and_crc :
      (p : Partition) (r : own.Rec) (d : Device)
      → let body = write nor p own.offset (take own.crc_offset (own.encode r)) d in
        let crc =
          write nor p (own.offset + own.crc_offset) (drop own.crc_offset (own.encode r)) body.1 in
        body.0 ≡ true
        → (write nor p
            (own.offset + own.crc_offset)
            (drop own.crc_offset (own.encode r))
            (write nor p own.offset (take own.crc_offset (own.encode r)) d).1).0
          ≡ true
        → bytes_in own nor p crc.1 ≡ own.encode r
  body_and_crc p r d wrote_body wrote_crc =
      let len = own_laws.length_encode r in
      subst
        (λ m.
          read_range
            (memory
              (write nor p (own.offset + own.crc_offset) (drop own.crc_offset (own.encode r))
                (write nor p own.offset (take own.crc_offset (own.encode r)) d).1).1)
            (start_of p + own.offset) m
          ≡ own.encode r)
        len
        (write-split nor laws p own.offset own.crc_offset (own.encode r) d
          (omega (arith, len, own_laws.crc_inside)) wrote_body wrote_crc)
