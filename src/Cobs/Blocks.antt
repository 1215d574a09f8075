-- ===== src/Cobs/Blocks.antt =====
-- node-stm32f103/application/protocol/cobs.c: the encoder without its buffers, as the list of blocks of
-- a message.
use secure_delta_ota_bootloa.Base.{
  ℕ, ◌+◌, ◌≤◌, ◌<◌, ◌≡◌, ◌≢◌, inl, inr, refl, ap, sym, ◌∙◌, Option, none, some, List, [], ◌∷◌, ◌++◌,
  arith, ltb, ◌==◌, if◌then◌else◌, length, set, Bool-cases, length-append, set-append, ltb→lt,
}
use mathlib.Core.List.{append_assoc}
use secure_delta_ota_bootloa.Cobs.{encode_loop, encode}

-- `block` holds the nonzero bytes since the last code byte.
unfoldable pub blocks : List ℕ → List ℕ → List ℕ
blocks block [] = (length block + 1) ∷ block
blocks block (byte ∷ input) =
    let longer = block ++ (byte ∷ []) in
    let full = 0xFF ∷ (longer ++ blocks [] input) in
    let open' = blocks longer input in
    let closed = (length block + 1) ∷ (block ++ blocks [] input) in
    if byte == 0 then closed else if length block + 2 == 0xFF then full else open'

-- The loop stores the code byte of the open block behind the finished ones.
closing :
    (done block : List ℕ) (code : ℕ)
    → set (done ++ (0 ∷ block)) (length done) code ≡ done ++ (code ∷ block)
closing done block code = set-append done 0 block code

-- `out`, if it fits.
unfoldable pub within : ℕ → List ℕ → Option (List ℕ)
within capacity out = if ltb capacity (length out) then none else some out

within_over : (capacity : ℕ) (out : List ℕ) → capacity < length out → within capacity out ≡ none
unfolding within
within_over capacity out h = ground arith

pub within_fits :
    (capacity : ℕ) (out : List ℕ) → length out ≤ capacity → within capacity out ≡ some out
unfolding within
within_fits capacity out h = ground arith

pub length-blocks : (block input : List ℕ) → length block + 1 ≤ length (blocks block input)
unfolding blocks
length-blocks block [] = omega arith
length-blocks block (byte ∷ input) = ground (
  arith,
  length-append block (blocks [] input),
  length-append block (byte ∷ []),
  length-append (block ++ (byte ∷ [])) (blocks [] input),
  length-blocks (block ++ (byte ∷ [])) input,
)

-- One more byte makes the encoding longer, and one that fills a block by two.
length-blocks_cons :
    (block input : List ℕ) (byte : ℕ) → length block + 2 ≤ length (blocks block (byte ∷ input))
unfolding blocks
length-blocks_cons block input byte = ground (
  arith,
  length-append block (blocks [] input),
  length-append block (byte ∷ []),
  length-append (block ++ (byte ∷ [])) (blocks [] input),
  length-blocks [] input,
  length-blocks (block ++ (byte ∷ [])) input,
)

-- The loop with a block just opened, behind finished ones.
abbrev Restarts : List ℕ → ℕ → Type 0
Restarts input capacity =
    (done : List ℕ)
    → length done + 1 ≤ capacity
    → encode_loop input capacity (done ++ (0 ∷ [])) (length done) 1
      ≡ within capacity (done ++ blocks [] input)

-- Storing the code byte of the open block and opening the next.
restart :
    (input : List ℕ) (capacity : ℕ) (done block : List ℕ) (code : ℕ)
    → Restarts input capacity
    → length done + length block + 2 ≤ capacity
    → encode_loop input capacity
        (set (done ++ (0 ∷ block)) (length done) code ++ (0 ∷ []))
        (length (done ++ (0 ∷ block)))
        1
      ≡ within capacity (done ++ (code ∷ (block ++ blocks [] input)))
restart input capacity done block code next fits =
    let same_length : length (done ++ (0 ∷ block)) ≡ length (done ++ (code ∷ block)) =
      omega (arith, length-append done (0 ∷ block), length-append done (code ∷ block)) in
    rw (closing done block code, same_length)
      (next (done ++ (code ∷ block)) (omega (arith, length-append done (code ∷ block)))
        ∙ ap (within capacity) (append_assoc done (code ∷ block) (blocks [] input)))

-- The branches of one round, at a position of the output.
module _ (byte : ℕ) (input : List ℕ) (capacity : ℕ) (output : List ℕ) (at code : ℕ) where
  round_no_room :
      capacity ≤ length output → encode_loop (byte ∷ input) capacity output at code ≡ none
  unfolding encode_loop
  round_no_room h = ground arith

  round_zero :
      byte ≡ 0
      → length output < capacity
      → encode_loop (byte ∷ input) capacity output at code
        ≡ encode_loop input capacity (set output at code ++ (0 ∷ [])) (length output) 1
  unfolding encode_loop
  round_zero z room = ground arith

  round_full_no_room :
      byte ≢ 0
      → code + 1 ≡ 0xFF
      → capacity ≤ length (output ++ (byte ∷ []))
      → encode_loop (byte ∷ input) capacity output at code ≡ none
  unfolding encode_loop
  round_full_no_room nz full h = ground arith

  round_full :
      byte ≢ 0
      → code + 1 ≡ 0xFF
      → length output < capacity
      → length (output ++ (byte ∷ [])) < capacity
      → encode_loop (byte ∷ input) capacity output at code
        ≡ encode_loop input capacity
            (set (output ++ (byte ∷ [])) at 0xFF ++ (0 ∷ []))
            (length (output ++ (byte ∷ [])))
            1
  unfolding encode_loop
  round_full nz full room room' = ground arith

  round_plain :
      byte ≢ 0
      → code + 1 ≢ 0xFF
      → length output < capacity
      → encode_loop (byte ∷ input) capacity output at code
        ≡ encode_loop input capacity (output ++ (byte ∷ [])) at (code + 1)
  unfolding encode_loop
  round_plain nz more room = ground arith

pub blocks_nil : (block : List ℕ) → blocks block [] ≡ (length block + 1) ∷ block
unfolding blocks
blocks_nil block = refl

module _ (block : List ℕ) (byte : ℕ) (input : List ℕ) where
  pub blocks_zero :
      byte ≡ 0 → blocks block (byte ∷ input) ≡ (length block + 1) ∷ (block ++ blocks [] input)
  unfolding blocks
  blocks_zero z = ground arith

  pub blocks_full :
      byte ≢ 0
      → length block + 2 ≡ 0xFF
      → blocks block (byte ∷ input) ≡ 0xFF ∷ ((block ++ (byte ∷ [])) ++ blocks [] input)
  unfolding blocks
  blocks_full nz full = ground arith

  pub blocks_plain :
      byte ≢ 0
      → length block + 2 ≢ 0xFF
      → blocks block (byte ∷ input) ≡ blocks (block ++ (byte ∷ [])) input
  unfolding blocks
  blocks_plain nz more = ground arith

-- What a round that closes a block gives.
module _ (byte : ℕ) (input : List ℕ) (capacity : ℕ) (done block : List ℕ)
    (next : Restarts input capacity) where
  zero_round :
      byte ≡ 0
      → length done + length block + 1 < capacity
      → encode_loop (byte ∷ input) capacity (done ++ (0 ∷ block)) (length done) (length block + 1)
        ≡ within capacity (done ++ blocks block (byte ∷ input))
  zero_round z room =
      round_zero byte input capacity (done ++ (0 ∷ block)) (length done) (length block + 1) z
        (omega (arith, length-append done (0 ∷ block)))
      ∙ restart input capacity done block (length block + 1) next (omega arith)
      ∙ rw (blocks_zero block byte input z)

  full_round :
      byte ≢ 0
      → length block + 2 ≡ 0xFF
      → length done + length block + 1 < capacity
      → encode_loop (byte ∷ input) capacity (done ++ (0 ∷ block)) (length done) (length block + 1)
        ≡ within capacity (done ++ blocks block (byte ∷ input))
  full_round nz full room = elim (Bool-cases (ltb (length done + length block + 2) capacity)) [
    | inl room' ↦
        round_full byte input capacity (done ++ (0 ∷ block)) (length done) (length block + 1) nz
          (omega arith) (omega (arith, length-append done (0 ∷ block)))
          (ground (
            arith,
            length-append (done ++ (0 ∷ block)) (byte ∷ []),
            length-append done (0 ∷ block),
          ))
        ∙ rw (append_assoc done (0 ∷ block) (byte ∷ []), blocks_full block byte input nz full)
            (restart input capacity done (block ++ (byte ∷ [])) 0xFF next
              (ground (arith, length-append block (byte ∷ []))))
    | inr over ↦
        round_full_no_room byte input capacity (done ++ (0 ∷ block)) (length done)
          (length block + 1) nz (omega arith)
          (ground (
            arith,
            length-append (done ++ (0 ∷ block)) (byte ∷ []),
            length-append done (0 ∷ block),
          ))
        ∙ sym (
            within_over capacity (done ++ blocks block (byte ∷ input)) (
              rw (blocks_full block byte input nz full) (
                ground (
                  arith,
                  length-append done (0xFF ∷ ((block ++ (byte ∷ [])) ++ blocks [] input)),
                  length-append (block ++ (byte ∷ [])) (blocks [] input),
                  length-append block (byte ∷ []),
                  length-blocks [] input,
                ))))
  ]

-- The loop fails exactly when the blocks do not fit the buffer.
pub encode_loop-blocks :
    (input : List ℕ) (capacity : ℕ) (done block : List ℕ)
    → length done + length block + 1 ≤ capacity
    → encode_loop input capacity (done ++ (0 ∷ block)) (length done) (length block + 1)
      ≡ within capacity (done ++ blocks block input)
encode_loop-blocks [] capacity done block fits =
    unfold encode_loop blocks in
    rw (closing done block (length block + 1)) (
      sym (
        within_fits capacity (done ++ ((length block + 1) ∷ block))
          (omega (arith, length-append done ((length block + 1) ∷ block)))))
encode_loop-blocks (byte ∷ input) capacity done block fits =
    let next : Restarts input capacity =
      λ d room. encode_loop-blocks input capacity d [] (omega arith) in
    let one_more : length block + 1 + 1 ≡ length (block ++ (byte ∷ [])) + 1 =
      omega (arith, length-append block (byte ∷ [])) in
    elim (Bool-cases (ltb (length done + length block + 1) capacity)) [
      | inr over ↦
          round_no_room byte input capacity (done ++ (0 ∷ block)) (length done) (length block + 1)
            (ground (arith, length-append done (0 ∷ block)))
          ∙ sym (
              within_over capacity (done ++ blocks block (byte ∷ input)) (
                ground (
                  arith,
                  length-append done (blocks block (byte ∷ input)),
                  length-blocks_cons block input byte,
                )))
      | inl room ↦ elim (Bool-cases (byte == 0)) [
        | inl z ↦ zero_round byte input capacity done block next (ground arith) (ltb→lt _ _ room)
        | inr nz ↦ elim (Bool-cases (length block + 2 == 0xFF)) [
          | inl full ↦
              full_round byte input capacity done block next (ground arith) (ground arith)
                (ltb→lt _ _ room)
          | inr more ↦
              round_plain byte input capacity (done ++ (0 ∷ block)) (length done) (length block + 1)
                (ground arith) (ground arith) (ground (arith, length-append done (0 ∷ block)))
              ∙ rw
                  (
                    append_assoc done (0 ∷ block) (byte ∷ []),
                    blocks_plain block byte input (ground arith) (ground arith),
                    one_more,
                  )
                  (encode_loop-blocks input capacity done (block ++ (byte ∷ []))
                    (ground (arith, length-append block (byte ∷ []))))
        ]
      ]
    ]

-- The encoder stores the blocks of the message where they fit, and fails where they do not.
pub encode_lem :
    (input : List ℕ) (capacity : ℕ) → encode input capacity ≡ within capacity (blocks [] input)
encode_lem input capacity = elim (Bool-cases (capacity == 0)) [
  | inl none' ↦
      unfold encode in
      rw none'
        (sym (within_over capacity (blocks [] input) (ground (arith, length-blocks [] input))))
  | inr room ↦ unfold encode in rw room (encode_loop-blocks input capacity [] [] (ground arith))
]
