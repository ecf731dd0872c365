-- ===== src/Elf2Efi/Align.antt =====
-- ALIGN and ALIGN_DOWN of tools/elf2efi.c.
use native.Mathlib.Nat.{div-add-mod, mod-lt}
use loli_loader.Base.{ℕ, ◌+◌, ◌*◌, ◌/◌, ◌≤◌, ◌<◌, ◌≡◌, refl, arith}
use loli_loader.Elf2Efi.{align_down}

-- ALIGN_DOWN gives a multiple of its second argument, at most the first, and less than the second
-- below it.
pub align_down_lem :
    (x a : ℕ)
    → 0 < a
    → (align_down x a ≡ x / a * a) × (align_down x a ≤ x) × (x < align_down x a + a)
unfolding align_down
align_down_lem x a h =
    (refl, omega (arith, div-add-mod x a), omega (arith, div-add-mod x a, mod-lt x h))
