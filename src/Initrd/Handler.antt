-- ===== src/Initrd/Handler.antt =====
-- The LoadFile2 handler as the kernel uses it.
use loli_loader.Base.{
  ℕ, ◌+◌, ◌≤◌, ◌<◌, ◌≡◌, ◌⊎◌, refl, true, false, none, some, arith, ltb, ◌==◌, ◌&&◌, not,
}
use loli_loader.Memory.{Mem, IsBlock}
use loli_loader.CString.Block.{CopiedCells, memcpy_lem}
use loli_loader.Initrd.{InitrdProtocol, initrd_load_file, to_efi_errno, efi_buffer_too_small}

-- The kernel's two calls, for an initrd that is not empty: asked with an empty buffer, the handler
-- tells the size and leaves the memory alone; called again with a buffer of this size, apart from
-- the initrd or below it, it succeeds and copies the whole initrd into it, and writes nothing else.
pub initrd_load_file_twice :
    (m : Mem) (p : InitrdProtocol) (buffer : ℕ)
    → 0 < p.size
    → IsBlock m p.base p.size
    → IsBlock m buffer p.size
    → (buffer ≤ p.base) ⊎ (p.base + p.size ≤ buffer)
    → (initrd_load_file m p false (some 0) none
        ≡ some (to_efi_errno efi_buffer_too_small, some p.size, m))
      × (m' : Mem) × (initrd_load_file m p false (some p.size) (some buffer)
          ≡ some (0, some p.size, m'))
      × CopiedCells m buffer p.base p.size m'
unfolding initrd_load_file
initrd_load_file_twice m p buffer s b d o =
    let (m', e, k) = memcpy_lem p.size m buffer p.base o d b in
    let small : ltb 0 p.size ≡ true = ground arith in
    let fits : ltb p.size p.size ≡ false = ground arith in
    let given : (not (p.size == 0) && false) ≡ false = ground arith in
    (rw small refl, m', rw (given, fits, e) refl, k)
