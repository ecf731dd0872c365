-- ===== src/Initrd.antt =====
-- src/initrd.c: the LoadFile2 protocol that hands the initrd to the kernel, and its installation. The
-- protocol is the base and the size that it keeps; a status is a 64-bit number.
pub mod Handler
pub mod Install
pub mod Setup
mod Tests
use loli_loader.Base.{
  ℕ, zero, suc, ◌+◌, ◌%◌, ◌^◌, Bool, true, false, ◌&&◌, ◌||◌, not, Option, none, some, ◌==◌, ltb,
  if◌then◌else◌,
}
use loli_loader.Memory.{Mem, ◌>>=◌}
use loli_loader.CString.{memcpy}
use loli_loader.Alloc.{Pointer, address}

-- `TO_EFI_ERRNO(x)` of a small number.
abbrev pub to_efi_errno : ℕ → ℕ
to_efi_errno x = x + 2 ^ 63

abbrev pub efi_invalid_parameter : ℕ
efi_invalid_parameter = 2

abbrev pub efi_buffer_too_small : ℕ
efi_buffer_too_small = 5

pub record InitrdProtocol : Type 0 where
  pub base : ℕ
  pub size : ℕ

abbrev pub is_null : Pointer → Bool
is_null none = true
is_null (some p) = false

-- The status, the size that is stored and the memory; `bufferSize` is NULL or the size it points to.
unfoldable pub initrd_load_file :
    Mem → InitrdProtocol → Bool → Option ℕ → Pointer → Option (ℕ × Option ℕ × Mem)
unfolding memcpy
initrd_load_file m p boot_policy none buffer = some (to_efi_errno efi_invalid_parameter, none, m)
initrd_load_file m p boot_policy (some size) buffer =
    if boot_policy || (not (size == 0) && is_null buffer)
    then some (to_efi_errno efi_invalid_parameter, some size, m)
    else if ltb size p.size
    then some (to_efi_errno efi_buffer_too_small, some p.size, m)
    else (do m' ← memcpy m (address buffer) p.base p.size; some (0, some p.size, m'))
