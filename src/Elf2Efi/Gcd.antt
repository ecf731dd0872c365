-- ===== src/Elf2Efi/Gcd.antt =====
-- The alignment of the executable, from those of its segments.
pub mod Common
pub mod Multiple
use loli_loader.Base.{
  ℕ, zero, suc, ◌+◌, ◌*◌, ◌/◌, ◌%◌, ◌^◌, Option, none, some, List, [], ◌∷◌, ◌==◌, if◌then◌else◌,
}
use loli_loader.Elf2Efi.{Outcome, done, exits, fault, ◌>>=◌, ◌>>◌, divisor}
use loli_loader.Elf2Efi.Elf.{Segment}
use loli_loader.Elf2Efi.Executable.{or_fault}

-- The calls of `gcd`, `none` where the fuel is used up.
unfoldable pub gcd_loop : ℕ → ℕ → ℕ → Option ℕ
gcd_loop zero a b = none
gcd_loop (suc fuel) a b = let rest = gcd_loop fuel b (a % b) in if b == 0 then some a else rest

-- The second argument gets smaller with every call.
unfoldable pub gcd : ℕ → ℕ → Outcome ℕ
unfolding gcd_loop
gcd a b = or_fault (gcd_loop (suc b) a b)

unfoldable pub alignment_gcd : List Segment → ℕ → Outcome ℕ
unfolding gcd
alignment_gcd [] g = done g
alignment_gcd (segment ∷ rest) g = do g' ← gcd segment.alignment g; alignment_gcd rest g'

unfoldable pub alignment_product : List Segment → ℕ → ℕ → Outcome ℕ
alignment_product [] g alignment = done alignment
alignment_product (segment ∷ rest) g alignment = do
  divisor g
  alignment_product rest g (alignment * (segment.alignment / g) % 2 ^ 32)

unfoldable pub exec_address_alignment : List Segment → Outcome ℕ
unfolding alignment_gcd alignment_product
exec_address_alignment segments = do g ← alignment_gcd segments 0; alignment_product segments g g
