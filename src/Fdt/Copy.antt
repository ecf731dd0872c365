-- ===== src/Fdt/Copy.antt =====
-- The copy of the device tree.
use loli_loader.Base.{
  ℕ, ◌+◌, ◌*◌, ◌^◌, ◌<◌, ◌≤◌, ◌≡◌, ◌⊎◌, inl, inr, refl, sym, ◌∙◌, ap, some, arith, ltb, leb, ◌-◌,
  ◌&&◌, ◌||◌, Bool-cases, none-ne-some,
}
use loli_loader.Memory.{Mem, load, IsMapped, IsBlock}
use loli_loader.CString.{memcpy}
use loli_loader.CString.Block.{CopiedCells-IsBlock, memcpy_lem}
use loli_loader.Run.{done}
use loli_loader.Alloc.{MemoryServices, Fresh, is_success, malloc_type}
use loli_loader.Alloc.Laws.{IsLawful, ReturnsOrPanics}
use loli_loader.Fdt.{be32_to_cpu, load32, fdt_fixup_and_load, efi_acpi_reclaim_memory}

-- A number whose bytes stand in memory with the highest first is read as this number.
be32_to_cpu_bytes :
    (b0 b1 b2 b3 : ℕ)
    → b0 < 256
    → b1 < 256
    → b2 < 256
    → b3 < 256
    → be32_to_cpu (b0 + b1 * 2 ^ 8 + b2 * 2 ^ 16 + b3 * 2 ^ 24)
      ≡ b0 * 2 ^ 24 + b1 * 2 ^ 16 + b2 * 2 ^ 8 + b3
unfolding be32_to_cpu
be32_to_cpu_bytes b0 b1 b2 b3 h0 h1 h2 h3 = omega arith

-- The four bytes at `a`, with the highest first, are the number.
abbrev pub IsBigEndian : Mem → ℕ → ℕ → Type 0
IsBigEndian m a n =
    (b0 b1 b2 b3 : ℕ) × (m a ≡ some b0)
    × (m (a + 1) ≡ some b1)
    × (m (a + 2) ≡ some b2)
    × (m (a + 3) ≡ some b3)
    × (b0 < 256)
    × (b1 < 256)
    × (b2 < 256)
    × (b3 < 256)
    × (b0 * 2 ^ 24 + b1 * 2 ^ 16 + b2 * 2 ^ 8 + b3 ≡ n)

load32-IsBigEndian :
    (m : Mem) (a n : ℕ) → IsBigEndian m a n → (v : ℕ) × (load32 m a ≡ done v) × (be32_to_cpu v ≡ n)
unfolding load32 load
load32-IsBigEndian m a n (b0, b1, b2, b3, e0, e1, e2, e3, h0, h1, h2, h3, e) = (
  b0 + b1 * 2 ^ 8 + b2 * 2 ^ 16 + b3 * 2 ^ 24,
  rw (e0, e1, e2, e3) refl,
  be32_to_cpu_bytes b0 b1 b2 b3 h0 h1 h2 h3 ∙ e,
)

-- The memory with the copy: the first `size` bytes at `copy` are as the tree was, the block has room
-- for `room` bytes, and the memory that was in use is as before.
abbrev pub HasCopy : Mem → ℕ → ℕ → ℕ → ℕ → Mem → Type 0
HasCopy m fdt size copy room m' =
    ((i : ℕ) → i < size → m' (copy + i) ≡ m (fdt + i))
    × IsBlock m' copy room
    × ((x : ℕ) → IsMapped m x → m' x ≡ m x)

Fresh-HasCopy :
    (m m1 : Mem) (fdt size copy : ℕ)
    → Fresh m copy (size + 4096) m1
    → IsBlock m fdt size
    → (m2 : Mem) × (memcpy m1 copy fdt size ≡ some m2) × HasCopy m fdt size copy (size + 4096) m2
Fresh-HasCopy m m1 fdt size copy f b =
    let (m2, e, (c, o)) = memcpy_lem size m1 copy fdt below (λ i l. f.mapped i (omega arith)) src in
    (
      m2,
      e,
      (
        (λ i l. c i l ∙ f.kept (fdt + i) (b i l)),
        CopiedCells-IsBlock m1 copy fdt size m2 src (c, o) copy (size + 4096) f.mapped,
        λ x h. o x (outside x h) ∙ f.kept x h,
      ),
    )
  where
    src : IsBlock m1 fdt size
    src i l = let (v, e) = b i l in (v, f.kept (fdt + i) (v, e) ∙ e)

    outside : (x : ℕ) → IsMapped m x → (x < copy) ⊎ (copy + size ≤ x)
    outside x (v, e) = elim (Bool-cases (leb copy x && ltb x (copy + size))) [
      | inr h ↦ ground arith
      | inl h ↦
          let y : copy + (x - copy) ≡ x = ground arith in
          absurd (none-ne-some (sym (f.unused (x - copy) (ground arith)) ∙ ap m y ∙ e))
    ]

    below : (copy ≤ fdt) ⊎ (fdt + size ≤ copy)
    below = elim (Bool-cases (leb copy fdt || leb (fdt + size) copy)) [
      | inl h ↦ ground arith
      | inr h ↦
          let (v, e) = b (copy - fdt) (ground arith) in
          let y : fdt + (copy - fdt) ≡ copy + 0 = ground arith in
          absurd (none-ne-some (sym (f.unused 0 (omega arith)) ∙ ap m (sym y) ∙ e))
    ]

-- For a device tree in memory of the size that its header tells, and a pool allocation that keeps
-- its promise, `fdt_fixup_and_load` does not fault. Unless the allocation panics, it installs a
-- copy: the tree's bytes at the head of a block of 4096 bytes more, as the firmware's fix-up then
-- leaves it, with all memory that was in use as it was when the fix-up is called.
pub fdt_fixup_and_load-HasCopy :
    (s : MemoryServices) (fixup : Mem → ℕ → ℕ → Mem) (m : Mem) (fdt size : ℕ)
    → IsLawful s
    → IsBigEndian m (fdt + 4) size
    → IsBlock m fdt size
    → ReturnsOrPanics (fdt_fixup_and_load s fixup m fdt) λ r.
      (m' : Mem) × HasCopy m fdt size r.0 (size + 4096) m' × (r.1 ≡ fixup m' r.0 (size + 4096))
unfolding fdt_fixup_and_load
fdt_fixup_and_load-HasCopy s fixup m fdt size lawful h b =
    let (v, e, z) = load32-IsBigEndian m (fdt + 4) size h in
    elim (Bool-cases (is_success (s.allocate_pool m efi_acpi_reclaim_memory (size + 4096)).0)) [
      | inr failed ↦ rw (e, z, failed, malloc_type) tt
      | inl made ↦
          let (m2, c, k) =
            Fresh-HasCopy m (s.allocate_pool m efi_acpi_reclaim_memory (size + 4096)).2 fdt size
              (s.allocate_pool m efi_acpi_reclaim_memory (size + 4096)).1
              (lawful m efi_acpi_reclaim_memory (size + 4096) made) b in
          rw (e, z, made, malloc_type, c) (m2, k, refl)
    ]
