-- ===== src/Crc32/Detects.antt =====
-- shared/src/crc32.c: ranges that differ in one byte.
use secure_delta_ota_bootloa.Base.{ℕ, List, [], ◌∷◌, ◌++◌, ◌≡◌, ◌≢◌, sym, ◌∙◌, arith, All}
use secure_delta_ota_bootloa.Base.Bits.{bit_xor_injective_left}
use secure_delta_ota_bootloa.Base.Bytes.{IsByte, IsU32}
use secure_delta_ota_bootloa.Crc32.{initial_value, final_xor, update, calculate}
use secure_delta_ota_bootloa.Crc32.Laws.{
  step, update-cons, step-IsU32, step-injective_crc, step-injective_byte, update-append,
  update-IsU32,
}

-- Equal suffixes keep two running values apart.
pub update-injective_crc :
    (a b : ℕ) (xs : List ℕ) → IsU32 a → IsU32 b → All IsByte xs → update a xs ≡ update b xs → a ≡ b
update-injective_crc a b [] ha hb hx e = unfold update in e
update-injective_crc a b (x ∷ xs) ha hb hx e = step-injective_crc a b x ha hb hx.0 (
    update-injective_crc (step a x) (step b x) xs (step-IsU32 a x ha hx.0) (step-IsU32 b x hb hx.0)
      hx.1 (sym (update-cons a x xs) ∙ e ∙ update-cons b x xs))

-- Two ranges that differ in exactly one byte, anywhere, have different CRCs.
pub calculate_detects_byte :
    (before after : List ℕ) (x y : ℕ)
    → All IsByte before
    → All IsByte after
    → IsByte x
    → IsByte y
    → x ≢ y
    → calculate (before ++ (x ∷ after)) ≢ calculate (before ++ (y ∷ after))
calculate_detects_byte before after x y hb ha hx hy ne e = ne (
    step-injective_byte c x y hc hx hy (
      update-injective_crc (step c x) (step c y) after (step-IsU32 c x hc hx) (step-IsU32 c y hc hy)
        ha (sym (split x) ∙ same ∙ split y)))
  where
    c : ℕ
    c = update initial_value before

    hc : IsU32 c
    hc = update-IsU32 initial_value before (omega arith) hb

    same :
        update initial_value (before ++ (x ∷ after)) ≡ update initial_value (before ++ (y ∷ after))
    same =
        unfold calculate in
        bit_xor_injective_left (update initial_value (before ++ (x ∷ after)))
          (update initial_value (before ++ (y ∷ after))) final_xor e

    split : (z : ℕ) → update initial_value (before ++ (z ∷ after)) ≡ update (step c z) after
    split z = update-append initial_value before (z ∷ after) ∙ update-cons c z after
