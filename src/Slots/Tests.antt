-- ===== src/Slots/Tests.antt =====
-- Generations at the wrap-around.
use secure_delta_ota_bootloa.Base.{◌≡◌, refl, true}
use secure_delta_ota_bootloa.Slots.{is_generation_newer}

wrapped_newer : is_generation_newer 1 0xFFFFFFFF ≡ true
unfolding is_generation_newer
wrapped_newer = refl
