-- ===== src/Fdt/Tests.antt =====
-- The theorems on src/fdt.c at a device tree of twelve bytes.
use loli_loader.Base.{ℕ, ◌+◌, ◌≡◌, refl, [], ◌∷◌, arith, Bytes}
use loli_loader.Memory.{Mem}
use loli_loader.Memory.Image.{image, image-IsBlock}
use loli_loader.Alloc.Laws.{ReturnsOrPanics}
use loli_loader.Alloc.Model.{services, services-IsLawful}
use loli_loader.Fdt.{be32_to_cpu, fdt_fixup_and_load}
use loli_loader.Fdt.Copy.{HasCopy, IsBigEndian, fdt_fixup_and_load-HasCopy}

reversed : be32_to_cpu 0x11223344 ≡ 0x44332211
unfolding be32_to_cpu
reversed = refl

abbrev tree : Bytes
tree = 0xd0 ∷ 0x0d ∷ 0xfe ∷ 0xed ∷ 0 ∷ 0 ∷ 0 ∷ 12 ∷ 1 ∷ 2 ∷ 3 ∷ 4 ∷ []

tree-IsBigEndian : IsBigEndian (image tree) (0 + 4) 12
tree-IsBigEndian =
    (0, 0, 0, 12, refl, refl, refl, refl, omega arith, omega arith, omega arith, omega arith, refl)

-- A firmware without fix-ups.
abbrev unchanged : Mem → ℕ → ℕ → Mem
unchanged m copy size = m

fdt_fixup_and_load-HasCopy_example :
    ReturnsOrPanics
      (fdt_fixup_and_load (services 100) unchanged (image tree) 0)
      λ r. (m' : Mem) × HasCopy (image tree) 0 12 r.0 4108 m' × (r.1 ≡ unchanged m' r.0 4108)
fdt_fixup_and_load-HasCopy_example =
    fdt_fixup_and_load-HasCopy (services 100) unchanged (image tree) 0 12 (services-IsLawful 100)
      tree-IsBigEndian (image-IsBlock tree 0 12 (omega arith))
