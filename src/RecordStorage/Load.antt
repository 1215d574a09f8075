-- ===== src/RecordStorage/Load.antt =====
-- update_handoff_storage.c and download_checkpoint_storage.c of node-stm32f103/common/storage: a
-- commit, then a load.
use secure_delta_ota_bootloa.Base.{
  ◌+◌, ◌≡◌, ◌≢◌, inl, inr, refl, ap, sym, ◌∙◌, subst, true, Option, none, some, arith, Bool-cases,
}
use secure_delta_ota_bootloa.Base.Bytes.{IsU32}
use secure_delta_ota_bootloa.Base.Range.{read_range-eq, read_range-IsByte}
use secure_delta_ota_bootloa.Slots.{Slot, slot_none, slot_a, slot_b, select_write, next_generation}
use secure_delta_ota_bootloa.Slots.Order.{
  next_range, newest_after_a, newest_after_b, newest_after_first,
}
use secure_delta_ota_bootloa.NorFlash.{NorFlash, NorLaws, SameMemory}
use secure_delta_ota_bootloa.ExternalStorage.Frame.{start_of}
use secure_delta_ota_bootloa.ExternalStorage.Isolation.{partitions_disjoint}
use secure_delta_ota_bootloa.RecordStorage.{
  RecordKind, KindLaws, AreApart, StoreResult, ok, read_failed, partition_for_slot, read_both,
  candidate, newest_of, commit, load, generation_in, loaded, replace_sector,
}
use secure_delta_ota_bootloa.RecordStorage.Steps.{
  bytes_in, stored_at, bytes_in-SameMemory, read_both-value, size_of_slot,
}
use secure_delta_ota_bootloa.RecordStorage.Commit.{Replaced, replace_sector-ok}

module _ (own other : RecordKind) (nor : NorFlash) (laws : NorLaws nor) (own_laws : KindLaws own)
    (other_laws : KindLaws other) (apart : AreApart own other) where
  open nor use {Device, memory}

  -- What the newest and the next record are on a device.
  abbrev pub newest_on : Device → Slot
  newest_on d = newest_of own nor (stored_at own nor slot_a d) (stored_at own nor slot_b d)

  abbrev pub candidate_on : own.Rec → Device → own.Rec
  candidate_on r d = candidate own nor r (stored_at own nor slot_a d) (stored_at own nor slot_b d)

  -- A result that put `c` into the slot `t` of the device `d`.
  pub record Committed (c : own.Rec) (t : Slot) (d : Device) (result : StoreResult own.Rec Device)
      : Type 0 where
    pub valid : own.is_valid c ≡ true
    pub after_read : Device
    pub same : SameMemory nor d after_read
    pub replaced :
        Replaced own other nor laws own_laws other_laws apart t c after_read result.device
    pub found : result.found ≡ some (own.decode (own.encode c))
    pub slot : result.slot ≡ t

  pub commit-ok :
      (r : own.Rec) (d : Device)
      → (commit own nor other (some r) d).status ≡ ok
      → Committed
          (candidate_on r d)
          (select_write (newest_on d))
          d
          (commit own nor other (some r) d)
  commit-ok r d done = through (read_both own nor d) refl
    where
      over : own.Rec → own.Rec → Type 0
      over a b =
          Committed (candidate own nor r a b) (select_write (newest_of own nor a b)) d
            (commit own nor other (some r) d)

      through :
          (result : Option (own.Rec × own.Rec) × Device)
          → read_both own nor d ≡ result
          → over (stored_at own nor slot_a d) (stored_at own nor slot_b d)
      through (none, f) q = absurd (unfold commit in ground (arith, done, q))
      through (some (a, b), f) q =
          let (at_a, at_b, same) = read_both-value own nor laws d a b f q in
          elim (Bool-cases (own.is_valid (candidate own nor r a b))) [
            | inr bad ↦ absurd (unfold commit in ground (arith, done, q, bad))
            | inl good ↦
                let t = select_write (newest_of own nor a b) in
                let c = candidate own nor r a b in
                let run : commit own nor other (some r) d ≡ replace_sector own nor other t c f =
                  unfold commit in rw (q, good) refl in
                let (replaced, found, slot) =
                  replace_sector-ok own other nor laws own_laws other_laws apart t c f
                    (ap (λ x. x.status) (sym run) ∙ done) in
                subst (λ x. over x (stored_at own nor slot_b d)) at_a
                  (subst (λ x. over a x) at_b
                    (subst (λ x. Committed c t d x) (sym run)
                      record {
                        valid = good;
                        after_read = f;
                        same = same;
                        replaced = replaced;
                        found = found;
                        slot = slot;
                      }))
          ]

  -- A record in the sector of the other slot is untouched.
  pub kept_slot :
      (k : RecordKind) (k_laws : KindLaws k) (s t : Slot)
      → partition_for_slot t ≢ partition_for_slot s
      → (c : own.Rec) (d e : Device) → Replaced own other nor laws own_laws other_laws apart t c d e
      → stored_at k nor s e ≡ stored_at k nor s d
  kept_slot k k_laws s t ne c d e replaced = ap k.decode (
      read_range-eq (memory e) (memory d) (start_of (partition_for_slot s) + k.offset) k.size
        (λ a lo hi. replaced.frame a (
          partitions_disjoint (partition_for_slot t) (partition_for_slot s) a ne
            (omega (arith, lo), omega (arith, hi, size_of_slot s, k_laws.fits)))))

  stored-IsU32 : (s : Slot) (d : Device) → IsU32 (own.generation (stored_at own nor s d))
  stored-IsU32 s d = own_laws.decode_generation (bytes_in own nor (partition_for_slot s) d) (
      read_range-IsByte (memory d) (start_of (partition_for_slot s) + own.offset) own.size
        (laws.memory_byte d))

  a_not_b : partition_for_slot slot_a ≢ partition_for_slot slot_b
  unfolding partition_for_slot
  a_not_b e = cc

  -- The record that was put beside the newest one is the newest.
  newest_sealed :
      (s : Slot) (c : own.Rec) (before after : Slot → own.Rec)
      → IsU32 (own.generation (before slot_a))
      → IsU32 (own.generation (before slot_b))
      → newest_of own nor (before slot_a) (before slot_b) ≡ s
      → own.is_valid c ≡ true
      → own.generation c ≡ next_generation (generation_in own nor s (before slot_a) (before slot_b))
      → after (select_write s) ≡ c
      → (select_write s ≡ slot_b → after slot_a ≡ before slot_a)
      → (select_write s ≡ slot_a → after slot_b ≡ before slot_b)
      → newest_of own nor (after slot_a) (after slot_b) ≡ select_write s
  unfolding newest_of select_write
  newest_sealed slot_a c before after word_a word_b current good next holds kept_a kept_b =
      rw (kept_a refl, holds, good, next) (newest_after_b _ _ _ _ word_a current)
  newest_sealed slot_b c before after word_a word_b current good next holds kept_a kept_b =
      rw (kept_b refl, holds, good, next) (newest_after_a _ _ _ _ word_b current)
  newest_sealed slot_none c before after word_a word_b current good next holds kept_a kept_b =
      rw (kept_b refl, holds, good) (newest_after_first _ _ _ _ _ current)

  newest_committed :
      (r : own.Rec) (d f e : Device)
      → SameMemory nor d f
      → own.is_valid (candidate_on r d) ≡ true
      → Replaced own other nor laws own_laws other_laws apart
          (select_write (newest_on d))
          (candidate_on r d)
          f
          e
      → stored_at own nor (select_write (newest_on d)) e ≡ candidate_on r d
      → newest_on e ≡ select_write (newest_on d)
  newest_committed r d f e same good replaced holds =
      newest_sealed (newest_on d) (candidate_on r d) (λ s. stored_at own nor s d)
        (λ s. stored_at own nor s e) (stored-IsU32 slot_a d) (stored-IsU32 slot_b d) refl good
        (unfold candidate in own_laws.seal_generation _ r) holds
        (λ t. kept slot_a (λ p. a_not_b (sym p ∙ ap partition_for_slot t)))
        (λ t. kept slot_b (λ p. a_not_b (sym (ap partition_for_slot t) ∙ p)))
    where
      kept :
          (s : Slot)
          → partition_for_slot (select_write (newest_on d)) ≢ partition_for_slot s
          → stored_at own nor s e ≡ stored_at own nor s d
      kept s ne =
          kept_slot own own_laws s (select_write (newest_on d)) ne (candidate_on r d) f e replaced
          ∙ ap own.decode (bytes_in-SameMemory own nor (partition_for_slot s) d f same)

  target_not_none : (s : Slot) → select_write s ≢ slot_none
  unfolding select_write
  target_not_none slot_a e = cc
  target_not_none slot_b e = cc
  target_not_none slot_none e = cc

  -- A load that can read both slots of a device returns the newest record of its memory.
  pub load-newest_record :
      (s : Slot) (d : Device)
      → s ≢ slot_none
      → newest_on d ≡ s
      → (load own nor d).status ≢ read_failed
      → ((load own nor d).status ≡ ok)
        × ((load own nor d).found ≡ some (stored_at own nor s d))
        × ((load own nor d).slot ≡ s)
  load-newest_record s d ne current readable = through (read_both own nor d) refl
    where
      of_slot :
          (t : Slot) (a b : own.Rec) (f : Device)
          → newest_of own nor a b ≡ t
          → t ≢ slot_none
          → (a ≡ stored_at own nor slot_a d)
          → (b ≡ stored_at own nor slot_b d)
          → let result = loaded own nor t a b f in
            (result.status ≡ ok) × (result.found ≡ some (stored_at own nor t d)) × (result.slot ≡ t)
      of_slot slot_none a b f e ne' at_a at_b = absurd (ne' refl)
      of_slot slot_a a b f e ne' at_a at_b = (refl, ap some at_a, refl)
      of_slot slot_b a b f e ne' at_a at_b = (refl, ap some at_b, refl)

      through :
          (result : Option (own.Rec × own.Rec) × Device)
          → read_both own nor d ≡ result
          → ((load own nor d).status ≡ ok)
            × ((load own nor d).found ≡ some (stored_at own nor s d))
            × ((load own nor d).slot ≡ s)
      through (none, f) q = absurd (readable (unfold load in rw q refl))
      through (some (a, b), f) q =
          let (at_a, at_b, same) = read_both-value own nor laws d a b f q in
          let t : newest_of own nor a b ≡ s = rw (at_a, at_b) current in
          unfold load in rw (q, t) (of_slot s a b f t ne at_a at_b)

  -- After a commit that reports success, a load that reads both sectors returns the committed record
  -- and the slot that the commit reported; the commit itself handed back that record.
  pub store_commit-load :
      (r : own.Rec) (d : Device)
      → own_laws.IsRec r
      → let done = commit own nor other (some r) d in
        done.status ≡ ok
        → (load own nor done.device).status ≢ read_failed
        → (done.found ≡ some (candidate_on r d))
          × ((load own nor done.device).status ≡ ok)
          × ((load own nor done.device).found ≡ some (candidate_on r d))
          × ((load own nor done.device).slot ≡ done.slot)
  store_commit-load r d is_rec success readable =
      let c = commit-ok r d success in
      let e = (commit own nor other (some r) d).device in
      let sealed =
        own_laws.decode_encode (candidate_on r d)
          (unfold candidate in own_laws.seal_record _ r (next_range _).0 is_rec) in
      let holds = ap own.decode c.replaced.own_bytes ∙ sealed in
      let (good, found, slot) =
        load-newest_record (select_write (newest_on d)) e (target_not_none (newest_on d))
          (newest_committed r d c.after_read e c.same c.valid c.replaced holds) readable in
      (c.found ∙ ap some sealed, good, found ∙ ap some holds, slot ∙ sym c.slot)
