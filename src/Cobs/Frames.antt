-- ===== src/Cobs/Frames.antt =====
-- node-stm32f103/application/protocol/cobs.c: the frames of COBS as a relation, and what the loop of
-- `Cobs_Decode` makes of them.
use mathlib.Core.List.{append_assoc, append-nil}
use secure_delta_ota_bootloa.Base.{
  ℕ, zero, suc, ◌+◌, ◌≤◌, ◌<◌, ◌≡◌, ◌≢◌, inl, inr, refl, ap, sym, ◌∙◌, some, List, [], ◌∷◌, ◌++◌,
  arith, length, length-append,
}
use secure_delta_ota_bootloa.Cobs.{decode_loop}
use secure_delta_ota_bootloa.Cobs.RoundTrip.{decode_zeroed, decode_plain}

-- A frame and the bytes that it stands for: blocks, each after a code that is one more than its length.
-- A block of 254 bytes goes on without a zero, and a shorter one that is not the last ends with one.
pub data IsFrameOf : List ℕ → List ℕ → Type 0 where
  at_end : IsFrameOf [] []
  last_block : (block : List ℕ) → length block ≢ 254 → IsFrameOf ((length block + 1) ∷ block) block
  zero_block :
      (block frame payload : List ℕ)
      → length block ≢ 254
      → 0 < length frame
      → IsFrameOf frame payload
      → IsFrameOf ((length block + 1) ∷ (block ++ frame)) (block ++ (0 ∷ payload))
  full_block :
      (block frame payload : List ℕ)
      → length block ≡ 254
      → IsFrameOf frame payload
      → IsFrameOf ((length block + 1) ∷ (block ++ frame)) (block ++ payload)

pub decode_loop-frame :
    (fuel : ℕ) {frame payload : List ℕ} (capacity : ℕ) (output : List ℕ)
    → IsFrameOf frame payload
    → length frame < fuel
    → length output + length payload ≤ capacity
    → decode_loop fuel frame capacity output ≡ some (output ++ payload)
decode_loop-frame zero capacity output f enough room = absurd (omega arith)
decode_loop-frame (suc fuel) capacity output at_end enough room =
    rw append-nil (unfold decode_loop in refl)
decode_loop-frame (suc zero) capacity output (last_block block short) enough room =
    absurd (omega arith)
decode_loop-frame (suc (suc fuel)) capacity output (last_block block short) enough room =
    ap (λ b. decode_loop (suc (suc fuel)) ((length block + 1) ∷ b) capacity output)
      (sym (append-nil block))
    ∙ decode_plain (suc fuel) block [] capacity output (length block + 1) refl (inr refl) room
    ∙ (unfold decode_loop in refl)
decode_loop-frame (suc fuel) capacity output (zero_block block frame payload short more f) enough
      room =
    decode_zeroed fuel block frame capacity output short more
      (omega (arith, room, length-append block (0 ∷ payload)))
    ∙ decode_loop-frame fuel capacity ((output ++ block) ++ (0 ∷ [])) f
        (omega (arith, enough, length-append block frame))
        (omega (
          arith,
          room,
          length-append block (0 ∷ payload),
          length-append output block,
          length-append (output ++ block) (0 ∷ []),
        ))
    ∙ ap some
        (append_assoc (output ++ block) (0 ∷ []) payload ∙ append_assoc output block (0 ∷ payload))
decode_loop-frame (suc fuel) capacity output (full_block block frame payload full f) enough room =
    decode_plain fuel block frame capacity output (length block + 1) refl
      (inl (omega (arith, full))) (omega (arith, room, length-append block payload))
    ∙ decode_loop-frame fuel capacity (output ++ block) f
        (omega (arith, enough, length-append block frame))
        (omega (arith, room, length-append block payload, length-append output block))
    ∙ ap some (append_assoc output block payload)
