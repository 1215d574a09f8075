-- ===== src/Progress/Tests.antt =====
-- An image of 2500 bytes: three pages.
use Prim.Native.Nat.{min}
use secure_delta_ota_bootloa.Base.{◌*◌, ◌≤◌, ◌≡◌, ◌↔◌, arith}
use secure_delta_ota_bootloa.Memory.{application_max_size}
use secure_delta_ota_bootloa.Progress.{
  install_validate, install_valid, backup_validate, backup_valid,
}
use secure_delta_ota_bootloa.Progress.Steps.{
  install_run, install_run_lem, backup_run, backup_run_lem,
}

install_run_lem_example :
    (install_run 2500 2 0 ≡ min (1024 * 2) 2500)
    × (install_validate 2500 (install_run 2500 2 0) ≡ install_valid)
install_run_lem_example = install_run_lem 2500 2 (omega arith)

backup_run_lem_example :
    (backup_run 10 0 ≡ min (4096 * 10) application_max_size)
    × (backup_validate (backup_run 10 0) ≡ backup_valid)
    × ((backup_run 10 0 ≡ application_max_size) ↔ (10 ≤ 10))
backup_run_lem_example = backup_run_lem 10
