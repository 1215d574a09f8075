-- ===== src/Slots/Order.antt =====
-- shared/src/boot_metadata.c: the order of generations, and the slot choice after a commit.
use secure_delta_ota_bootloa.Base.{ℕ, ◌≡◌, ◌≢◌, Bool, true, false, arith}
use secure_delta_ota_bootloa.Base.Bytes.{IsU32}
use secure_delta_ota_bootloa.Slots.{
  slot_none, slot_a, slot_b, is_generation_newer, next_generation, select_newest,
}

-- Of two generations at most one is newer than the other.
pub newer_asymmetric :
    (a b : ℕ) → IsU32 a → IsU32 b → is_generation_newer a b ≡ true → is_generation_newer b a ≡ false
unfolding is_generation_newer
newer_asymmetric a b ha hb h = ground arith

-- The next generation is newer than its predecessor, at the wrap-around too.
pub next_newer : (g : ℕ) → IsU32 g → is_generation_newer (next_generation g) g ≡ true
unfolding is_generation_newer next_generation
next_newer g h = ground arith

-- The next generation is a word and not 0.
pub next_range : (g : ℕ) → (IsU32 (next_generation g)) × (next_generation g ≢ 0)
unfolding next_generation
next_range g = ground arith

-- Whichever slot a commit targets, the generation after the newest one makes it the newest.
module _ (valid_a valid_b : Bool) (g_a g_b : ℕ) where
  pub newest_after_b :
      IsU32 g_a
      → select_newest valid_a valid_b g_a g_b ≡ slot_a
      → select_newest valid_a true g_a (next_generation g_a) ≡ slot_b
  unfolding select_newest
  newest_after_b h current = ground (arith, next_newer g_a h)

  pub newest_after_a :
      IsU32 g_b
      → select_newest valid_a valid_b g_a g_b ≡ slot_b
      → select_newest true valid_b (next_generation g_b) g_b ≡ slot_a
  unfolding select_newest
  newest_after_a h current =
      ground
        (arith, newer_asymmetric (next_generation g_b) g_b (next_range g_b).0 h (next_newer g_b h))

  pub newest_after_first :
      (g : ℕ)
      → select_newest valid_a valid_b g_a g_b ≡ slot_none
      → select_newest true valid_b g g_b ≡ slot_a
  unfolding select_newest
  newest_after_first g current = ground arith
