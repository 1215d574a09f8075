-- ===== src/RecordStorage/Coexist.antt =====
-- update_handoff_storage.c and download_checkpoint_storage.c of node-stm32f103/common/storage: the
-- record of the other kind when a sector is replaced.
use secure_delta_ota_bootloa.Base.{
  ℕ, ◌≡◌, ◌≢◌, ◌⊎◌, inl, inr, refl, ap, ◌∙◌, subst, false, Option, none, some, List, Bool-cases,
  if◌then◌else◌,
}
use secure_delta_ota_bootloa.Base.Range.{read_range-IsByte, length-read_range}
use secure_delta_ota_bootloa.Slots.{Slot, slot_none, slot_a, slot_b, select_write}
use secure_delta_ota_bootloa.NorFlash.{NorFlash, NorLaws, IsReadable}
use secure_delta_ota_bootloa.ExternalStorage.{Partition}
use secure_delta_ota_bootloa.ExternalStorage.Frame.{read-value}
use secure_delta_ota_bootloa.RecordStorage.{
  RecordKind, KindLaws, AreApart, ok, partition_for_slot, preserved, map_first, if_valid, commit,
}
use secure_delta_ota_bootloa.RecordStorage.Steps.{
  raw_read, bytes_in, stored_at, bytes_in-SameMemory,
}
use secure_delta_ota_bootloa.RecordStorage.Sector.{Holds, preserved-valid}
use secure_delta_ota_bootloa.RecordStorage.Commit.{Replaced}
use secure_delta_ota_bootloa.RecordStorage.Load.{newest_on, commit-ok, kept_slot}

module _ (own other : RecordKind) (nor : NorFlash) (laws : NorLaws nor) (own_laws : KindLaws own)
    (other_laws : KindLaws other) (apart : AreApart own other) where
  open nor use {Device, memory}

  abbrev accept : other.Rec → Option other.Rec
  accept x = if other.is_valid x then some x else none

  abbrev accepted_on : Partition → Device → Option other.Rec
  accepted_on p d = accept (other.decode (bytes_in other nor p d))

  -- The record that a sector holds for the other kind, where it holds one.
  abbrev pub accepted_in : Slot → Device → Option other.Rec
  accepted_in s d = accepted_on (partition_for_slot s) d

  partition_cases :
      (s t : Slot)
      → (partition_for_slot t ≡ partition_for_slot s)
        ⊎ (partition_for_slot t ≢ partition_for_slot s)
  unfolding partition_for_slot
  partition_cases slot_none slot_none = inl refl
  partition_cases slot_none slot_a = inl refl
  partition_cases slot_none slot_b = inr (λ e. cc)
  partition_cases slot_a slot_none = inl refl
  partition_cases slot_a slot_a = inl refl
  partition_cases slot_a slot_b = inr (λ e. cc)
  partition_cases slot_b slot_none = inr (λ e. cc)
  partition_cases slot_b slot_a = inr (λ e. cc)
  partition_cases slot_b slot_b = inl refl

  preserved-invalid :
      (s : Slot) (d : Device)
      → other.is_valid (stored_at other nor s d) ≡ false
      → (preserved own nor other (partition_for_slot s) d).0 ≡ none
  preserved-invalid s d bad =
      unfold preserved in through (raw_read other nor laws (partition_for_slot s) d) refl
    where
      through :
          (result : Option (List ℕ) × Device)
          → raw_read other nor laws (partition_for_slot s) d ≡ result
          → (if_valid own nor other (map_first other.decode result)).0 ≡ none
      through (none, f) q = refl
      through (some bs, f) q =
          let value =
            read-value nor laws (partition_for_slot s) other.offset other.size d bs
              (ap (λ x. x.0) q) in
          rw (value, bad) refl

  -- The slot that was replaced.
  accepted-target :
      (t : Slot) (c : own.Rec) (d e : Device)
      → IsReadable nor
      → Replaced own other nor laws own_laws other_laws apart t c d e
      → accepted_in t e ≡ accepted_in t d
  accepted-target t c d e readable replaced =
      elim (Bool-cases (other.is_valid (stored_at other nor t d))) [
        | inl good ↦ ap accept (
            ap other.decode (
              holds (some (stored_at other nor t d))
                (preserved-valid own other nor laws own_laws other_laws apart t d readable good))
            ∙ ap other.decode (
                other_laws.encode_decode _ (length-read_range _ _ _)
                  (read_range-IsByte _ _ _ (laws.memory_byte d))))
        | inr bad ↦
            let erased =
              ap (λ bs. other.is_valid (other.decode bs))
                (holds none (preserved-invalid t d bad)) in
            rw (bad, erased ∙ other_laws.erased_invalid) refl
      ]
    where
      holds :
          (kept : Option other.Rec)
          → (preserved own nor other (partition_for_slot t) d).0 ≡ kept
          → Holds own other nor laws own_laws other_laws apart (partition_for_slot t) kept e
      holds kept q =
          subst (λ k. Holds own other nor laws own_laws other_laws apart (partition_for_slot t) k e)
            q replaced.other_kept

  -- With readable flash, a commit that reports success keeps what either sector holds for the other
  -- kind: a valid record stays as it is, and no other bytes become a valid record.
  pub commit-keeps_other :
      (r : own.Rec) (d : Device) (s : Slot)
      → IsReadable nor
      → (commit own nor other (some r) d).status ≡ ok
      → accepted_in s (commit own nor other (some r) d).device ≡ accepted_in s d
  commit-keeps_other r d s readable done =
      let c = commit-ok own other nor laws own_laws other_laws apart r d done in
      let t = select_write (newest_on own other nor laws own_laws other_laws apart d) in
      let e = (commit own nor other (some r) d).device in
      let before =
        ap (λ bs. accept (other.decode bs))
          (bytes_in-SameMemory other nor (partition_for_slot s) d c.after_read c.same) in
      elim (partition_cases s t) [
        | inl same ↦
            subst (λ p. accepted_on p e ≡ accepted_on p c.after_read) same
              (accepted-target t _ c.after_read e readable c.replaced)
            ∙ before
        | inr ne ↦
            ap accept (
              kept_slot own other nor laws own_laws other_laws apart other other_laws s t ne _
                c.after_read e c.replaced)
            ∙ before
      ]
