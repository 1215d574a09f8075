-- ===== src/MetadataStorage/Tests.antt =====
-- Runs of the storage on a flash in memory.
use secure_delta_ota_bootloa.Base.{ℕ, ◌≡◌, ◌≢◌, refl, true, false, some, arith, take}
use secure_delta_ota_bootloa.Slots.{slot_none, slot_b}
use secure_delta_ota_bootloa.BootMetadata.{BootMetadata, init, finalize, encode, validate, valid}
use secure_delta_ota_bootloa.BootMetadata.Image.{IsRecord}
use secure_delta_ota_bootloa.MetadataStorage.{
  ok, load, commit, candidate, target_slot, program_slot, program_bytes, slot_address,
}
use secure_delta_ota_bootloa.MetadataStorage.Ram.{
  ram, ram_laws, ram-IsHealthy, holding, storage_code,
}
use secure_delta_ota_bootloa.MetadataStorage.Healthy.{commit_succeeds}
use secure_delta_ota_bootloa.MetadataStorage.Commit.{commit-load}
use secure_delta_ota_bootloa.MetadataStorage.Newest.{newest, accepts, record_in}
use secure_delta_ota_bootloa.MetadataStorage.PowerLoss.{
  Interrupted, interrupted-load, interrupted-load_new, programming, finished,
}

-- Slot A of this device holds a sealed record of generation 1.
abbrev factory : BootMetadata
factory = finalize (record (init 7) { generation = 1 })

abbrev provisioned : ℕ → ℕ
provisioned = holding factory

abbrev request : BootMetadata
request = record (init 7) { last_error = 3 }

request-IsRecord : IsRecord request
unfolding init
request-IsRecord = omega arith

factory_validates : validate (some factory) ≡ valid
unfolding storage_code
factory_validates = refl

factory_commits : (commit ram (some request) provisioned).status ≡ ok
unfolding storage_code
factory_commits = refl

commit-load_example :
    let done = commit ram (some request) provisioned in
    let written = candidate ram request provisioned in
    (done.committed ≡ some written)
    × (load ram 7 done.device
        ≡ record { status = ok; metadata = written; active_slot = done.written_slot })
commit-load_example =
    commit-load ram ram_laws 7 request provisioned request-IsRecord factory_commits

-- Slot B erased and three half-words programmed.
abbrev torn : ℕ → ℕ
torn =
    (program_bytes ram (slot_address slot_b) (take 6 (encode (candidate ram request provisioned)))
      (ram.erase_page (slot_address slot_b) provisioned).1).1

torn_target : target_slot ram provisioned ≡ slot_b
unfolding storage_code
torn_target = refl

factory_newest : newest ram ram_laws provisioned ≢ slot_none
unfolding storage_code
factory_newest e = cc

torn_rejected : accepts (record_in ram ram_laws torn (target_slot ram provisioned)) ≡ false
unfolding storage_code
torn_rejected = refl

torn-Interrupted :
    Interrupted ram ram_laws
      (target_slot ram provisioned)
      (candidate ram request provisioned)
      provisioned
      torn
torn-Interrupted = rw torn_target (programming 3 (λ a out. refl))

interrupted-load_example : load ram 7 torn ≡ load ram 7 provisioned
interrupted-load_example =
    interrupted-load ram ram_laws 7 request provisioned torn factory_newest torn-Interrupted
      torn_rejected

abbrev whole : ℕ → ℕ
whole = (program_slot ram slot_b (candidate ram request provisioned) provisioned).1

whole_read :
    record_in ram ram_laws whole (target_slot ram provisioned) ≡ candidate ram request provisioned
unfolding storage_code
whole_read = refl

candidate_accepted : accepts (candidate ram request provisioned) ≡ true
unfolding storage_code
candidate_accepted = refl

whole-Interrupted :
    Interrupted ram ram_laws
      (target_slot ram provisioned)
      (candidate ram request provisioned)
      provisioned
      whole
whole-Interrupted = rw torn_target finished

interrupted-load_new_example : load ram 7 whole ≡ record {
  status = ok;
  metadata = candidate ram request provisioned;
  active_slot = target_slot ram provisioned;
}
interrupted-load_new_example =
    interrupted-load_new ram ram_laws 7 request provisioned whole whole-Interrupted whole_read
      candidate_accepted

commit_succeeds_example : (commit ram (some request) provisioned).status ≡ ok
commit_succeeds_example =
    commit_succeeds ram ram_laws ram-IsHealthy request provisioned request-IsRecord
      candidate_accepted
