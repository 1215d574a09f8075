-- ===== src/Progress/Steps.antt =====
-- shared/src/install_progress.c and shared/src/backup_progress.c: the sequences of checkpoints.
use Prim.Native.Nat.{min}
use secure_delta_ota_bootloa.Base.{ℕ, zero, suc, ◌+◌, ◌*◌, ◌/◌, ◌≤◌, ◌≡◌, ◌↔◌, arith}
use secure_delta_ota_bootloa.Base.Bits.{bit_and_low}
use secure_delta_ota_bootloa.Memory.{application_max_size}
use secure_delta_ota_bootloa.Progress.{
  install_validate, install_valid, install_next_checkpoint, backup_validate, backup_valid,
  backup_next_checkpoint,
}

abbrev pub IsImageSize : ℕ → Type 0
IsImageSize size = (8 ≤ size) × (size ≤ application_max_size)

-- The offset after `rounds` pages.
install_step :
    (size rounds : ℕ)
    → IsImageSize size
    → install_next_checkpoint size (min (1024 * rounds) size) ≡ min (1024 * suc rounds) size
unfolding install_next_checkpoint
install_step size rounds h = ground (arith, bit_and_low 10 (min (1024 * rounds) size))

unfoldable pub install_run : ℕ → ℕ → ℕ → ℕ
install_run size zero offset = offset
install_run size (suc rounds) offset = install_next_checkpoint size (install_run size rounds offset)

install_run_at :
    (size rounds : ℕ) → IsImageSize size → install_run size rounds 0 ≡ min (1024 * rounds) size
unfolding install_run
install_run_at size zero h = omega arith
install_run_at size (suc n) h = rw (install_run_at size n h) (install_step size n h)

install_accepted :
    (size rounds : ℕ)
    → IsImageSize size
    → install_validate size (min (1024 * rounds) size) ≡ install_valid
unfolding install_validate
install_accepted size rounds h = ground (arith, bit_and_low 10 (min (1024 * rounds) size))

-- Started at 0, the installation's checkpoint after `rounds` rounds is exactly that many whole
-- pages, cut off at the image size, and it validates.
pub install_run_lem :
    (size rounds : ℕ)
    → IsImageSize size
    → (install_run size rounds 0 ≡ min (1024 * rounds) size)
      × (install_validate size (install_run size rounds 0) ≡ install_valid)
install_run_lem size rounds h =
    let e = install_run_at size rounds h in (e, rw e (install_accepted size rounds h))

-- From 0 the installation is complete exactly from the round on that is its number of pages.
pub install_run_complete :
    (size rounds : ℕ)
    → IsImageSize size
    → (install_run size rounds 0 ≡ size) ↔ ((size + 1023) / 1024 ≤ rounds)
install_run_complete size rounds h =
    let at = (install_run_lem size rounds h).0 in (λ e. omega arith, λ e. omega arith)

backup_step :
    (rounds : ℕ)
    → backup_next_checkpoint (min (4096 * rounds) application_max_size)
      ≡ min (4096 * suc rounds) application_max_size
unfolding backup_next_checkpoint
backup_step rounds = ground (arith, bit_and_low 12 (min (4096 * rounds) application_max_size))

unfoldable pub backup_run : ℕ → ℕ → ℕ
backup_run zero offset = offset
backup_run (suc rounds) offset = backup_next_checkpoint (backup_run rounds offset)

backup_run_at : (rounds : ℕ) → backup_run rounds 0 ≡ min (4096 * rounds) application_max_size
unfolding backup_run
backup_run_at zero = omega arith
backup_run_at (suc n) = rw (backup_run_at n) (backup_step n)

backup_accepted :
    (rounds : ℕ) → backup_validate (min (4096 * rounds) application_max_size) ≡ backup_valid
unfolding backup_validate
backup_accepted rounds = ground (arith, bit_and_low 12 (min (4096 * rounds) application_max_size))

-- Started at 0, the backup's checkpoint after `rounds` rounds is that many whole sectors, cut off
-- at the size of the application region; it validates, and it is complete exactly from ten rounds on.
pub backup_run_lem :
    (rounds : ℕ)
    → (backup_run rounds 0 ≡ min (4096 * rounds) application_max_size)
      × (backup_validate (backup_run rounds 0) ≡ backup_valid)
      × ((backup_run rounds 0 ≡ application_max_size) ↔ (10 ≤ rounds))
backup_run_lem rounds =
    let e = backup_run_at rounds in
    (e, rw e (backup_accepted rounds), (λ h. omega arith, λ h. omega arith))
