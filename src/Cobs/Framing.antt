-- ===== src/Cobs/Framing.antt =====
-- node-stm32f103/application/protocol/cobs.c: the bytes and the length of an encoded frame.
use secure_delta_ota_bootloa.Base.{
  ℕ, ◌+◌, ◌/◌, ◌≤◌, ◌≡◌, ◌≢◌, ◌∙◌, some, List, [], ◌∷◌, ◌++◌, arith, ◌==◌, length, All, Bool-cases,
  length-append, All-append, inl, inr,
}
use secure_delta_ota_bootloa.Base.Bytes.{IsByte}
use secure_delta_ota_bootloa.Cobs.{encode}
use secure_delta_ota_bootloa.Cobs.Blocks.{
  blocks, within_fits, encode_lem, blocks_nil, blocks_zero, blocks_full, blocks_plain,
}
use secure_delta_ota_bootloa.Cobs.RoundTrip.{encode-some}

-- A byte that may stand inside a frame.
abbrev pub IsFrameByte : ℕ → Type 0
IsFrameByte b = (b ≢ 0) × IsByte b

blocks-IsFrameByte :
    (block input : List ℕ)
    → length block ≤ 253
    → All IsFrameByte block
    → All IsByte input
    → All IsFrameByte (blocks block input)
blocks-IsFrameByte block [] small hb hi = rw (blocks_nil block) ((omega arith, omega arith), hb)
blocks-IsFrameByte block (byte ∷ input) small hb hi = elim (Bool-cases (byte == 0)) [
  | inl z ↦ rw (blocks_zero block byte input (ground arith)) (
    (omega arith, omega arith),
    All-append IsFrameByte block (blocks [] input) hb
        (blocks-IsFrameByte [] input (omega arith) tt hi.1),
  )
  | inr nz ↦
      let longer : All IsFrameByte (block ++ (byte ∷ [])) =
        All-append IsFrameByte block (byte ∷ []) hb ((ground arith, hi.0), tt) in
      elim (Bool-cases (length block + 2 == 0xFF)) [
        | inl full ↦ rw (blocks_full block byte input (ground arith) (ground arith)) (
          (omega arith, omega arith),
          All-append IsFrameByte (block ++ (byte ∷ [])) (blocks [] input) longer
              (blocks-IsFrameByte [] input (omega arith) tt hi.1),
        )
        | inr more ↦ rw (blocks_plain block byte input (ground arith) (ground arith)) (
            blocks-IsFrameByte (block ++ (byte ∷ [])) input
              (ground (arith, length-append block (byte ∷ []))) longer hi.1)
      ]
]

-- An encoded message holds no zero byte, so a zero delimits it.
pub encode-IsFrameByte :
    (input frame : List ℕ) (capacity : ℕ)
    → All IsByte input
    → encode input capacity ≡ some frame
    → All IsFrameByte frame
encode-IsFrameByte input frame capacity hi encoded =
    rw (← encode-some input frame capacity encoded)
      (blocks-IsFrameByte [] input (omega arith) tt hi)

pub length-blocks_le :
    (block input : List ℕ) (n : ℕ)
    → length block ≤ 253
    → n ≡ length block + length input
    → length (blocks block input) ≤ n + 1 + n / 254
length-blocks_le block [] n small e = rw (blocks_nil block) (omega arith)
length-blocks_le block (byte ∷ input) n small e = elim (Bool-cases (byte == 0)) [
  | inl z ↦ rw (blocks_zero block byte input (ground arith)) (
      omega (
        arith,
        length-append block (blocks [] input),
        length-blocks_le [] input (length input) (omega arith) (omega arith),
      ))
  | inr nz ↦ elim (Bool-cases (length block + 2 == 0xFF)) [
    | inl full ↦
        let filled : length block ≡ 253 = ground arith in
        rw (blocks_full block byte input (ground arith) (omega arith)) (
          omega (
            arith,
            length-append (block ++ (byte ∷ [])) (blocks [] input),
            length-append block (byte ∷ []),
            length-blocks_le [] input (length input) (omega arith) (omega arith),
          ))
    | inr more ↦ rw (blocks_plain block byte input (ground arith) (ground arith)) (
        length-blocks_le (block ++ (byte ∷ [])) input n
          (ground (arith, length-append block (byte ∷ [])))
          (omega (arith, length-append block (byte ∷ []))))
  ]
]

-- The encoder succeeds wherever the buffer has room for the message, a code byte, and one more
-- for each 254 bytes.
pub encode_succeeds :
    (input : List ℕ) (capacity : ℕ)
    → length input + 1 + length input / 254 ≤ capacity
    → encode input capacity ≡ some (blocks [] input)
encode_succeeds input capacity room =
    encode_lem input capacity
    ∙ within_fits capacity (blocks [] input)
        (omega (arith, length-blocks_le [] input (length input) (omega arith) (omega arith)))
