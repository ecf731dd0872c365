-- ===== src/Fdt.antt =====
-- src/fdt.c: the copy of the device tree that is handed to the firmware and the kernel. The fix-up of
-- the firmware is a parameter, and the messages that are printed are left out.
pub mod Copy
mod Tests
use loli_loader.Base.{ℕ, zero, suc, ◌+◌, ◌*◌, ◌/◌, ◌%◌, ◌^◌, Option, none, some}
use loli_loader.Memory.{Mem, load}
use loli_loader.CString.{memcpy}
use loli_loader.Run.{Run, done, panicked, fault, ◌>>=◌, checked}
use loli_loader.Alloc.{MemoryServices, malloc_type}

-- `(data[0] << 24) | (data[1] << 16) | (data[2] << 8) | data[3]` of the bytes of `val`, the lowest
-- first; the bytes do not overlap, so `|` is `+`.
unfoldable pub be32_to_cpu : ℕ → ℕ
be32_to_cpu val =
    val % 256 * 2 ^ 24
    + val / 2 ^ 8 % 256 * 2 ^ 16
    + val / 2 ^ 16 % 256 * 2 ^ 8
    + val / 2 ^ 24 % 256

-- A `uint32_t` in memory, the lowest byte first.
unfoldable pub load32 : Mem → ℕ → Run ℕ
unfolding load
load32 m a = do
  b0 ← checked (load m a)
  b1 ← checked (load m (a + 1))
  b2 ← checked (load m (a + 2))
  b3 ← checked (load m (a + 3))
  done (b0 + b1 * 2 ^ 8 + b2 * 2 ^ 16 + b3 * 2 ^ 24)

abbrev pub efi_acpi_reclaim_memory : ℕ
efi_acpi_reclaim_memory = 9

module _ (s : MemoryServices) (fixup : Mem → ℕ → ℕ → Mem) where
  -- The address of the copy, which is installed as the table, and the memory. `fixup` is the firmware's
  -- fix-up of the tree in a block, and leaves the memory as it is where the firmware has none.
  unfoldable pub fdt_fixup_and_load : Mem → ℕ → Run (ℕ × Mem)
  unfolding be32_to_cpu load32 malloc_type memcpy
  fdt_fixup_and_load m fdt = do
    total_size ← load32 m (fdt + 4)
    let fdt_size = be32_to_cpu total_size
    let copy_size = fdt_size + 4096
    r ← malloc_type s m copy_size efi_acpi_reclaim_memory
    m' ← checked (memcpy r.1 r.0 fdt fdt_size)
    done (r.0, fixup m' r.0 copy_size)
