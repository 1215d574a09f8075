-- ===== src/RecordStorage/Readable.antt =====
-- update_handoff_storage.c and download_checkpoint_storage.c of node-stm32f103/common/storage: loads
-- from a flash that can be read.
use mathlib.Core.Option.{some-injective}
use secure_delta_ota_bootloa.Base.{
  ℕ, ◌≡◌, ◌⊎◌, inl, inr, refl, ap, sym, ◌∙◌, false, Option, none, some, List, arith, Bool-cases,
  if◌then◌else◌,
}
use secure_delta_ota_bootloa.Slots.{Slot, slot_none, slot_a, slot_b, select_newest}
use secure_delta_ota_bootloa.NorFlash.{NorFlash, NorLaws, IsReadable, SameMemory}
use secure_delta_ota_bootloa.ExternalStorage.{read}
use secure_delta_ota_bootloa.ExternalStorage.Frame.{resolve_range-inside}
use secure_delta_ota_bootloa.RecordStorage.{
  RecordKind, KindLaws, AreApart, StoreResult, ok, partition_for_slot, read_slot, read_both,
  read_second, pair_with, loaded, map_first, newest_of, commit, load,
}
use secure_delta_ota_bootloa.RecordStorage.Steps.{
  bytes_in, bytes_in-SameMemory, stored_at, size_of_slot, slot_fits, read_slot-SameMemory,
}
use secure_delta_ota_bootloa.RecordStorage.Coexist.{commit-keeps_other}

module _ (k : RecordKind) (k_laws : KindLaws k) (nor : NorFlash) (laws : NorLaws nor)
    (readable : IsReadable nor) where
  open nor use {Device, memory}

  read_slot-readable :
      (s : Slot) (d : Device) → (read_slot k nor s d).0 ≡ some (stored_at k nor s d)
  unfolding read_slot
  read_slot-readable s d = through (read nor (partition_for_slot s) k.offset k.size d) (
      unfold read in
      rw
        (resolve_range-inside (partition_for_slot s) k.offset k.size
          (rw (size_of_slot s) k_laws.fits) k_laws.nonempty)
        (readable.reads _ _ d (slot_fits k k_laws s)))
    where
      through :
          (result : Option (List ℕ) × Device)
          → result.0 ≡ some (bytes_in k nor (partition_for_slot s) d)
          → (map_first k.decode result).0 ≡ some (stored_at k nor s d)
      through (none, f) e = absurd (cc)
      through (some bs, f) e = ap (λ x. some (k.decode x)) (some-injective _ _ e)

  read_both-readable :
      (d : Device)
      → (read_both k nor d).0 ≡ some (stored_at k nor slot_a d, stored_at k nor slot_b d)
  unfolding read_both
  read_both-readable d =
      through (read_slot k nor slot_a d) (read_slot-readable slot_a d)
        (read_slot-SameMemory k nor laws slot_a d)
    where
      pair :
          (a : k.Rec) (result : Option k.Rec × Device) (b : k.Rec)
          → result.0 ≡ some b
          → (pair_with k nor a result).0 ≡ some (a, b)
      pair a (none, f) b e = absurd (cc)
      pair a (some b', f) b e = ap (λ x. some (a, x)) (some-injective _ _ e)

      through :
          (result : Option k.Rec × Device)
          → result.0 ≡ some (stored_at k nor slot_a d)
          → SameMemory nor d result.1
          → (read_second k nor result).0 ≡ some (stored_at k nor slot_a d, stored_at k nor slot_b d)
      through (none, f) e same = absurd (cc)
      through (some a, f) e same =
          pair a (read_slot k nor slot_b f) (stored_at k nor slot_b d) (
            read_slot-readable slot_b f
            ∙ ap (λ bs. some (k.decode bs))
                (bytes_in-SameMemory k nor (partition_for_slot slot_b) d f same))
          ∙ ap (λ x. some (x, stored_at k nor slot_b d)) (some-injective _ _ e)

  -- What a load returns beside the device.
  abbrev pub view : StoreResult k.Rec Device → StoreResult k.Rec Unit
  view r = record { status = r.status; found = r.found; slot = r.slot; device = tt }

  abbrev outcome : k.Rec → k.Rec → Device → StoreResult k.Rec Device
  outcome a b d = loaded k nor (newest_of k nor a b) a b d

  of_slot :
      (s : Slot) (a b : k.Rec) (f g : Device)
      → view (loaded k nor s a b f) ≡ view (loaded k nor s a b g)
  of_slot slot_none a b f g = refl
  of_slot slot_a a b f g = refl
  of_slot slot_b a b f g = refl

  load-readable :
      (d : Device)
      → view (load k nor d) ≡ view (outcome (stored_at k nor slot_a d) (stored_at k nor slot_b d) d)
  load-readable d = through (read_both k nor d) refl (read_both-readable d)
    where
      through :
          (result : Option (k.Rec × k.Rec) × Device)
          → read_both k nor d ≡ result
          → result.0 ≡ some (stored_at k nor slot_a d, stored_at k nor slot_b d)
          → view (load k nor d)
            ≡ view (outcome (stored_at k nor slot_a d) (stored_at k nor slot_b d) d)
      through (none, f) q e = absurd (cc)
      through (some (a, b), f) q e =
          let both = some-injective _ _ e in
          unfold load in rw (q, ap (λ x. x.0) both, ap (λ x. x.1) both) (of_slot _ _ _ f d)

  abbrev accept : k.Rec → Option k.Rec
  accept x = if k.is_valid x then some x else none

  accept-cases :
      (x y : k.Rec)
      → accept x ≡ accept y
      → (x ≡ y) ⊎ ((k.is_valid x ≡ false) × (k.is_valid y ≡ false))
  accept-cases x y e = elim (Bool-cases (k.is_valid x)) [
    | inl p ↦ elim (Bool-cases (k.is_valid y)) [
      | inl q ↦ inl (some-injective _ _ (rw (p, q) at e))
      | inr q ↦ absurd (ground (arith, e, p, q))
    ]
    | inr p ↦ elim (Bool-cases (k.is_valid y)) [
      | inl q ↦ absurd (ground (arith, e, p, q))
      | inr q ↦ inr (p, q)
    ]
  ]

  -- Records that are not valid do not count.
  outcome-accepted :
      (a b x y : k.Rec) (d e : Device)
      → accept a ≡ accept x
      → accept b ≡ accept y
      → view (outcome a b d) ≡ view (outcome x y e)
  unfolding newest_of select_newest
  outcome-accepted a b x y d e first second =
      of_cases (accept-cases a x first) (accept-cases b y second)
    where
      of_cases :
          (a ≡ x) ⊎ ((k.is_valid a ≡ false) × (k.is_valid x ≡ false))
          → (b ≡ y) ⊎ ((k.is_valid b ≡ false) × (k.is_valid y ≡ false))
          → view (outcome a b d) ≡ view (outcome x y e)
      of_cases (inl p) (inl q) = rw (p, q) (of_slot (newest_of k nor x y) x y d e)
      of_cases (inl p) (inr (q, q')) = elim (Bool-cases (k.is_valid x)) [
        | inl v ↦ rw (p, q, q', v) refl
        | inr v ↦ rw (p, q, q', v) refl
      ]
      of_cases (inr (p, p')) (inl q) = elim (Bool-cases (k.is_valid y)) [
        | inl v ↦ rw (p, p', q, v) refl
        | inr v ↦ rw (p, p', q, v) refl
      ]
      of_cases (inr (p, p')) (inr (q, q')) = rw (p, p', q, q') refl

module _ (own other : RecordKind) (nor : NorFlash) (laws : NorLaws nor) (own_laws : KindLaws own)
    (other_laws : KindLaws other) (apart : AreApart own other) where
  -- With readable flash, a commit of one record that reports success changes nothing that a load of
  -- the other record returns: its status, its record and its slot are the ones of a load before.
  pub commit-load_other :
      (r : own.Rec) (d : nor.Device)
      → IsReadable nor
      → (commit own nor other (some r) d).status ≡ ok
      → let after = load other nor (commit own nor other (some r) d).device in
        let before = load other nor d in
        (after.status ≡ before.status) × (after.found ≡ before.found) × (after.slot ≡ before.slot)
  commit-load_other r d readable done =
      let e = (commit own nor other (some r) d).device in
      let kept = λ (s : Slot).
        commit-keeps_other own other nor laws own_laws other_laws apart r d s readable done in
      let same =
        load-readable other other_laws nor laws readable e
        ∙ outcome-accepted other other_laws nor laws readable _ _ _ _ e d (kept slot_a)
            (kept slot_b)
        ∙ sym (load-readable other other_laws nor laws readable d) in
      (ap (λ v. v.status) same, ap (λ v. v.found) same, ap (λ v. v.slot) same)
