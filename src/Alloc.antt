-- ===== src/Alloc.antt =====
-- src/memory.c: the allocation functions, over the boot services of the firmware.
pub mod Laws
pub mod Model
mod Tests
use loli_loader.Base.{
  ℕ, zero, suc, ◌+◌, ◌/◌, ◌%◌, ◌^◌, ◌≤◌, ◌<◌, ◌≡◌, Bool, true, false, not, Option, none, some, ◌==◌,
  if◌then◌else◌,
}
use loli_loader.Memory.{Mem, IsMapped, IsBlock}
use loli_loader.CString.{memcpy}
use loli_loader.Run.{Run, done, panicked, fault, ◌>>=◌, panic, checked}

-- The memory services. An allocation gives a status, an address and the memory after the call.
pub record MemoryServices : Type 0 where
  pub allocate_pool : Mem → ℕ → ℕ → ℕ × ℕ × Mem
  pub free_pool : Mem → ℕ → Mem
  pub allocate_pages : Mem → ℕ → ℕ → ℕ × ℕ × Mem
  pub free_pages : Mem → ℕ → ℕ → Mem

-- What an allocation of `n` cells has done: the block at `a` was not in use and is mapped now, and
-- the cells that were in use are as before.
pub record Fresh (m : Mem) (a n : ℕ) (m' : Mem) : Type 0 where
  pub unused : (i : ℕ) → i < n → m (a + i) ≡ none
  pub mapped : IsBlock m' a n
  pub kept : (x : ℕ) → IsMapped m x → m' x ≡ m x

abbrev pub efi_success : ℕ
efi_success = 0

abbrev pub efi_loader_data : ℕ
efi_loader_data = 2

-- NULL is `none`.
abbrev pub Pointer : Type 0
Pointer = Option ℕ

-- The address that a pointer holds; NULL is 0.
abbrev pub address : Pointer → ℕ
address none = 0
address (some p) = p

-- `ret == EFI_SUCCESS` for a status that is kept in an `int`, which holds its low 32 bits.
abbrev pub is_success : ℕ → Bool
is_success ret = ret % 2 ^ 32 == efi_success

-- `SIZE_TO_EFI_PAGES(size)` on a `size_t`.
unfoldable pub size_to_efi_pages : ℕ → ℕ
size_to_efi_pages size = (size + 4095) % 2 ^ 64 / 2 ^ 12

module _ (s : MemoryServices) where
  unfoldable pub malloc_type : Mem → ℕ → ℕ → Run (ℕ × Mem)
  malloc_type m size type =
      let (ret, addr, m') = s.allocate_pool m type size in
      if not (is_success ret) then panic "Failed to allocate memory" else done (addr, m')

  unfoldable pub malloc : Mem → ℕ → Run (ℕ × Mem)
  unfolding malloc_type
  malloc m size = malloc_type m size efi_loader_data

  unfoldable pub free : Mem → Pointer → Mem
  free m none = m
  free m (some p) = s.free_pool m p

  unfoldable pub realloc_type : Mem → Pointer → ℕ → ℕ → ℕ → Run (Pointer × Mem)
  unfolding malloc_type free memcpy
  realloc_type m p type old_size zero = done (none, free m p)
  realloc_type m p type old_size (suc size) = do
    r ← malloc_type m (suc size) type
    m' ← checked (memcpy r.1 r.0 (address p) old_size)
    done (some r.0, free m' p)

  unfoldable pub realloc : Mem → Pointer → ℕ → ℕ → Run (Pointer × Mem)
  unfolding realloc_type
  realloc m p old_size size = realloc_type m p efi_loader_data old_size size

  unfoldable pub malloc_pages : Mem → ℕ → Pointer × Mem
  malloc_pages m size =
      let (ret, addr, m') = s.allocate_pages m efi_loader_data (size_to_efi_pages size) in
      (if is_success ret then some addr else none, m')

  unfoldable pub free_pages : Mem → Pointer → ℕ → Mem
  free_pages m none size = m
  free_pages m (some p) size = s.free_pages m p (size_to_efi_pages size)
