-- ===== src/Cobs.antt =====
-- node-stm32f103/application/protocol/cobs.c. The output buffer is the list of the bytes up to
-- `write_index`; a slot that is reserved and not yet stored holds 0 in it. The buffers are given
-- (no NULL), and `none` is the failure of either function.
pub mod Blocks
pub mod RoundTrip
pub mod Framing
pub mod Reference
pub mod Frames
mod Tests
use secure_delta_ota_bootloa.Base.{
  ℕ, zero, suc, ◌+◌, ◌-◌, ◌<◌, Bool, true, false, ◌&&◌, Option, none, some, List, [], ◌∷◌, ◌++◌,
  ltb, leb, ◌==◌, ◌!=◌, if◌then◌else◌, length, set, take, drop,
}

-- The loop over the input; `length output` is `write_index`.
unfoldable pub encode_loop : List ℕ → ℕ → List ℕ → ℕ → ℕ → Option (List ℕ)
encode_loop [] capacity output code_index code = some (set output code_index code)
encode_loop (byte ∷ input) capacity output code_index code =
    let closed = set output code_index code in
    let appended = output ++ (byte ∷ []) in
    let filled = set appended code_index 0xFF in
    let next_block = encode_loop input capacity (closed ++ (0 ∷ [])) (length output) 1 in
    let full_block = encode_loop input capacity (filled ++ (0 ∷ [])) (length appended) 1 in
    let same_block = encode_loop input capacity appended code_index (code + 1) in
    if byte == 0
    then if leb capacity (length output) then none else next_block
    else if leb capacity (length output)
    then none
    else if code + 1 == 0xFF
    then if leb capacity (length appended) then none else full_block
    else same_block

unfoldable pub encode : List ℕ → ℕ → Option (List ℕ)
unfolding encode_loop
encode input output_capacity =
    if output_capacity == 0 then none else encode_loop input output_capacity (0 ∷ []) 0 1

-- The loop over the blocks, by fuel; the list is the input from `read_index` on.
unfoldable pub decode_loop : ℕ → List ℕ → ℕ → List ℕ → Option (List ℕ)
decode_loop zero input capacity output = none
decode_loop (suc fuel) [] capacity output = some output
decode_loop (suc fuel) (code ∷ input) capacity output =
    let count = code - 1 in
    let rest = drop count input in
    let copied = output ++ take count input in
    let zeroed = decode_loop fuel rest capacity (copied ++ (0 ∷ [])) in
    let plain = decode_loop fuel rest capacity copied in
    if code == 0
    then none
    else if ltb (length input) count
    then none
    else if ltb (capacity - length output) count
    then none
    else if code != 0xFF && ltb 0 (length rest)
    then if leb capacity (length copied) then none else zeroed
    else plain

-- Each round reads at least the code byte, so one more round than bytes is enough.
unfoldable pub decode : List ℕ → ℕ → Option (List ℕ)
unfolding decode_loop
decode [] output_capacity = none
decode (byte ∷ input) output_capacity =
    decode_loop (suc (length (byte ∷ input))) (byte ∷ input) output_capacity []
