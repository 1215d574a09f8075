-- ===== src/RecordStorage/Kinds.antt =====
-- The two records of the external metadata sectors, shared/include/update_handoff.h and
-- download_checkpoint.h, with their offsets of shared/include/memory_map.h.
use secure_delta_ota_bootloa.Base.{◌≡◌, inl, inr, refl, false, some, arith, replicate}
use secure_delta_ota_bootloa.Base.Image.{words_of_bytes}
use secure_delta_ota_bootloa.Memory.{ext_metadata_handoff_offset, ext_metadata_download_offset}
use secure_delta_ota_bootloa.UpdateHandoff
use secure_delta_ota_bootloa.DownloadCheckpoint
use secure_delta_ota_bootloa.RecordStorage.{RecordKind, KindLaws, AreApart}

abbrev pub handoff_kind : RecordKind
handoff_kind = record {
  Rec = UpdateHandoff.UpdateHandoff;
  offset = ext_metadata_handoff_offset;
  size = 36;
  crc_offset = UpdateHandoff.crc_offset;
  encode = UpdateHandoff.encode;
  decode = UpdateHandoff.decode;
  is_valid = λ r. UpdateHandoff.is_valid_status (UpdateHandoff.validate (some r));
  generation = λ r. r.generation;
  seal = UpdateHandoff.Image.seal;
}

abbrev pub checkpoint_kind : RecordKind
checkpoint_kind = record {
  Rec = DownloadCheckpoint.DownloadCheckpoint;
  offset = ext_metadata_download_offset;
  size = 40;
  crc_offset = DownloadCheckpoint.crc_offset;
  encode = DownloadCheckpoint.encode;
  decode = DownloadCheckpoint.decode;
  is_valid = λ r. DownloadCheckpoint.is_valid_status (DownloadCheckpoint.validate (some r));
  generation = λ r. r.generation;
  seal = DownloadCheckpoint.Image.seal;
}

pub handoff_erased :
    handoff_kind.is_valid (handoff_kind.decode (replicate handoff_kind.size 0xFF)) ≡ false
unfolding UpdateHandoff.decode UpdateHandoff.validate words_of_bytes
handoff_erased = refl

pub checkpoint_erased :
    checkpoint_kind.is_valid (checkpoint_kind.decode (replicate checkpoint_kind.size 0xFF)) ≡ false
unfolding DownloadCheckpoint.decode DownloadCheckpoint.validate words_of_bytes
checkpoint_erased = refl

abbrev pub handoff_laws : KindLaws handoff_kind
handoff_laws = record {
  IsRec = UpdateHandoff.Image.IsRecord;
  nonempty = omega arith;
  crc_inside = omega arith;
  fits = omega arith;
  length_encode = UpdateHandoff.Image.length-encode_handoff;
  encode_decode = UpdateHandoff.Image.encode_handoff-decode;
  decode_encode = UpdateHandoff.Image.decode_handoff-encode;
  seal_record = UpdateHandoff.Image.seal_handoff-IsRecord;
  seal_generation = UpdateHandoff.Image.seal_handoff-generation;
  decode_generation = λ bs h. (UpdateHandoff.Image.decode_handoff-IsRecord bs h).1.0;
  erased_invalid = handoff_erased;
}

abbrev pub checkpoint_laws : KindLaws checkpoint_kind
checkpoint_laws = record {
  IsRec = DownloadCheckpoint.Image.IsRecord;
  nonempty = omega arith;
  crc_inside = omega arith;
  fits = omega arith;
  length_encode = DownloadCheckpoint.Image.length-encode_checkpoint;
  encode_decode = DownloadCheckpoint.Image.encode_checkpoint-decode;
  decode_encode = DownloadCheckpoint.Image.decode_checkpoint-encode;
  seal_record = DownloadCheckpoint.Image.seal_checkpoint-IsRecord;
  seal_generation = DownloadCheckpoint.Image.seal_checkpoint-generation;
  decode_generation = λ bs h. (DownloadCheckpoint.Image.decode_checkpoint-IsRecord bs h).1.0;
  erased_invalid = checkpoint_erased;
}

-- The handoff ends before the checkpoint begins.
pub handoff-checkpoint-AreApart : AreApart handoff_kind checkpoint_kind
handoff-checkpoint-AreApart = inl (omega arith)

pub checkpoint-handoff-AreApart : AreApart checkpoint_kind handoff_kind
checkpoint-handoff-AreApart = inr (omega arith)
