-- ===== src/Cobs/RoundTrip.antt =====
-- node-stm32f103/application/protocol/cobs.c: encoding, then decoding.
use secure_delta_ota_bootloa.Base.{
  ℕ, zero, suc, ◌+◌, ◌-◌, ◌≤◌, ◌<◌, ◌≡◌, ◌≢◌, ◌⊎◌, inl, inr, refl, ap, sym, ◌∙◌, some, List, [],
  ◌∷◌, ◌++◌, arith, ◌==◌, length, Bool-cases, length-append, take-append, drop-append,
}
use mathlib.Core.List.{append_assoc, append-nil}
use secure_delta_ota_bootloa.Cobs.{encode, decode, decode_loop}
use secure_delta_ota_bootloa.Cobs.Blocks.{
  blocks, within, encode_lem, length-blocks, blocks_nil, blocks_zero, blocks_full, blocks_plain,
}

-- One round of the decoder on a code byte and its block.
module _ (fuel : ℕ) (block rest : List ℕ) (capacity : ℕ) (output : List ℕ) where
  pub decode_zeroed :
      length block ≢ 254
      → 0 < length rest
      → length output + length block < capacity
      → decode_loop (suc fuel) ((length block + 1) ∷ (block ++ rest)) capacity output
        ≡ decode_loop fuel rest capacity ((output ++ block) ++ (0 ∷ []))
  unfolding decode_loop
  decode_zeroed small more room =
      let count : length block + 1 - 1 ≡ length block = omega arith in
      rw (count, take-append block rest, drop-append block rest)
        (ground (arith, length-append block rest, length-append output block))

  pub decode_plain :
      (code : ℕ)
      → code ≡ length block + 1
      → (code ≡ 0xFF) ⊎ (length rest ≡ 0)
      → length output + length block ≤ capacity
      → decode_loop (suc fuel) (code ∷ (block ++ rest)) capacity output
        ≡ decode_loop fuel rest capacity (output ++ block)
  unfolding decode_loop
  decode_plain code e plain room =
      let count : code - 1 ≡ length block = omega arith in
      rw (count, take-append block rest, drop-append block rest)
        (ground (arith, length-append block rest, length-append output block))

regroup :
    (output block input : List ℕ)
    → ((output ++ block) ++ (0 ∷ [])) ++ input ≡ output ++ (block ++ (0 ∷ input))
regroup output block input =
    append_assoc (output ++ block) (0 ∷ []) input ∙ append_assoc output block (0 ∷ input)

one_block :
    (output block : List ℕ) (byte : ℕ) (input : List ℕ)
    → (output ++ (block ++ (byte ∷ []))) ++ input ≡ output ++ (block ++ (byte ∷ input))
one_block output block byte input =
    append_assoc output (block ++ (byte ∷ [])) input
    ∙ ap (λ b. output ++ b) (append_assoc block (byte ∷ []) input)

-- The decoder, started anywhere in its output, appends what was encoded.
pub decode_loop-blocks :
    (input block : List ℕ) (fuel capacity : ℕ) (output : List ℕ)
    → length block ≤ 253
    → length output + length block + length input ≤ capacity
    → length (blocks block input) < fuel
    → decode_loop fuel (blocks block input) capacity output ≡ some (output ++ (block ++ input))
decode_loop-blocks [] block zero capacity output small room enough = absurd (omega arith)
decode_loop-blocks (byte ∷ input) block zero capacity output small room enough =
    absurd (omega arith)
decode_loop-blocks [] block (suc zero) capacity output small room enough =
    absurd (omega (arith, length-blocks block []))
decode_loop-blocks [] block (suc (suc fuel)) capacity output small room enough =
    ap (λ b. decode_loop (suc (suc fuel)) b capacity output)
      (blocks_nil block ∙ ap (λ b. (length block + 1) ∷ b) (sym (append-nil block)))
    ∙ decode_plain (suc fuel) block [] capacity output (length block + 1) refl (inr refl)
        (omega arith)
    ∙ rw append-nil (unfold decode_loop in refl)
decode_loop-blocks (byte ∷ input) block (suc fuel) capacity output small room enough =
    elim (Bool-cases (byte == 0)) [
      | inl z ↦
          let e = blocks_zero block byte input (ground arith) in
          let z' : byte ≡ 0 = ground arith in
          rw (e, z')
            (decode_zeroed fuel block (blocks [] input) capacity output (omega arith)
                (omega (arith, length-blocks [] input)) (omega arith)
              ∙ decode_loop-blocks input [] fuel capacity ((output ++ block) ++ (0 ∷ []))
                  (omega arith)
                  (omega
                    (arith, length-append (output ++ block) (0 ∷ []), length-append output block))
                  (omega (arith, ap length e, length-append block (blocks [] input)))
              ∙ ap some (regroup output block input))
      | inr nz ↦ elim (Bool-cases (length block + 2 == 0xFF)) [
        | inl full ↦
            let longer = block ++ (byte ∷ []) in
            let e = blocks_full block byte input (ground arith) (ground arith) in
            rw e (
              decode_plain fuel longer (blocks [] input) capacity output 0xFF
                (ground (arith, length-append block (byte ∷ []))) (inl refl)
                (omega (arith, length-append block (byte ∷ [])))
              ∙ decode_loop-blocks input [] fuel capacity (output ++ longer) (omega arith)
                  (omega (arith, length-append output longer, length-append block (byte ∷ [])))
                  (omega (arith, ap length e, length-append longer (blocks [] input)))
              ∙ ap some (one_block output block byte input))
        | inr more ↦
            let e = blocks_plain block byte input (ground arith) (ground arith) in
            rw e (
              decode_loop-blocks input (block ++ (byte ∷ [])) (suc fuel) capacity output
                (ground (arith, length-append block (byte ∷ [])))
                (omega (arith, length-append block (byte ∷ []))) (omega (arith, ap length e))
              ∙ ap (λ b. some (output ++ b)) (append_assoc block (byte ∷ []) input))
      ]
    ]

decode_nonempty :
    (frame : List ℕ) (capacity : ℕ)
    → 0 < length frame
    → decode frame capacity ≡ decode_loop (suc (length frame)) frame capacity []
decode_nonempty [] capacity h = absurd (omega arith)
decode_nonempty (b ∷ frame) capacity h = unfold decode in refl

pub decode-blocks :
    (input : List ℕ) (capacity : ℕ)
    → length input ≤ capacity
    → decode (blocks [] input) capacity ≡ some input
decode-blocks input capacity room =
    decode_nonempty (blocks [] input) capacity (omega (arith, length-blocks [] input))
    ∙ decode_loop-blocks input [] (suc (length (blocks [] input))) capacity [] (omega arith)
        (omega arith) (omega arith)

within-some : (capacity : ℕ) (out frame : List ℕ) → within capacity out ≡ some frame → out ≡ frame
unfolding within
within-some capacity out frame h = ground arith

-- A frame that the encoder returned is made of the message's blocks.
pub encode-some :
    (input frame : List ℕ) (frame_capacity : ℕ)
    → encode input frame_capacity ≡ some frame
    → blocks [] input ≡ frame
encode-some input frame frame_capacity encoded =
    within-some frame_capacity (blocks [] input) frame
      (sym (encode_lem input frame_capacity) ∙ encoded)

-- Decoding an encoded message gives it back, where the message fits the decoder's buffer.
pub decode-encode :
    (input frame : List ℕ) (frame_capacity capacity : ℕ)
    → encode input frame_capacity ≡ some frame
    → length input ≤ capacity
    → decode frame capacity ≡ some input
decode-encode input frame frame_capacity capacity encoded room =
    rw (← encode-some input frame frame_capacity encoded) (decode-blocks input capacity room)
