-- ===== src/Serial/Tests.antt =====
-- The theorem on src/serial.c at a device that takes one byte at a time and one that takes all.
use loli_loader.Base.{ℕ, ◌≡◌, true, some, [], ◌∷◌, arith, codes}
use loli_loader.Serial.{serial_write}
use loli_loader.Serial.Progress.{Progresses, serial_write-all}

abbrev single : ℕ → ℕ → ℕ
single n size = 1

abbrev greedy : ℕ → ℕ → ℕ
greedy n size = size

single-Progresses : Progresses single
single-Progresses n size h = (omega arith, omega arith)

greedy-Progresses : Progresses greedy
greedy-Progresses n size h = (omega arith, omega arith)

serial_write-all_example :
    serial_write true (single ∷ greedy ∷ []) 5 (codes "boot")
    ≡ some (codes "boot" ∷ codes "boot" ∷ [])
serial_write-all_example =
    serial_write-all (single ∷ greedy ∷ []) 5 (codes "boot") (omega arith) (omega arith)
      (single-Progresses, (greedy-Progresses, tt))
