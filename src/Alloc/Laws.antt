-- ===== src/Alloc/Laws.antt =====
-- What the allocation functions promise, given what the firmware promises of its services.
use loli_loader.Base.{ℕ, ◌+◌, ◌*◌, ◌^◌, ◌≤◌, ◌<◌, ◌≡◌, true, Bool-cases, inl, inr, arith}
use loli_loader.Memory.{Mem, IsMapped}
use loli_loader.Run.{Run, done, panicked, fault}
use loli_loader.Alloc.{
  MemoryServices, Fresh, efi_loader_data, is_success, size_to_efi_pages, malloc_type, malloc,
}

-- The pages of a size hold it, and one page less would not, as long as the size does not wrap.
pub size_to_efi_pages_cover :
    (size : ℕ)
    → size + 4095 < 2 ^ 64
    → (size ≤ 4096 * size_to_efi_pages size) × (4096 * size_to_efi_pages size < size + 4096)
unfolding size_to_efi_pages
size_to_efi_pages_cover size h = omega arith

-- The documented promise of `AllocatePool`: on success the block is fresh.
abbrev pub IsLawful : MemoryServices → Type 0
IsLawful s =
    (m : Mem) (type size : ℕ)
    → is_success (s.allocate_pool m type size).0 ≡ true
    → Fresh m (s.allocate_pool m type size).1 size (s.allocate_pool m type size).2

-- The documented promise of `AllocatePages`: on success the block is fresh, and in any case the
-- memory in use is left alone.
abbrev pub IsPageLawful : MemoryServices → Type 0
IsPageLawful s =
    (m : Mem) (type n : ℕ)
    → (is_success (s.allocate_pages m type n).0 ≡ true
        → Fresh m (s.allocate_pages m type n).1 (4096 * n) (s.allocate_pages m type n).2)
      × ((x : ℕ) → IsMapped m x → (s.allocate_pages m type n).2 x ≡ m x)

-- A run that returns, returns a result with `P`, and otherwise it panics.
abbrev pub ReturnsOrPanics {ℓ} : {A : Type ℓ} → Run A → (A → Type 0) → Type 0
ReturnsOrPanics (done a) P = P a
ReturnsOrPanics (panicked msg) P = Unit
ReturnsOrPanics fault P = ⊥

module _ (s : MemoryServices) (lawful : IsLawful s) where
  -- `malloc` never returns a bad block: it gives a fresh one, or it does not return.
  pub malloc-Fresh :
      (m : Mem) (size : ℕ) → ReturnsOrPanics (malloc s m size) (λ r. Fresh m r.0 size r.1)
  unfolding malloc
  malloc-Fresh m size = elim (Bool-cases (is_success (s.allocate_pool m efi_loader_data size).0)) [
    | inl good ↦ rw (good, malloc_type) (lawful m efi_loader_data size good)
    | inr bad ↦ rw (bad, malloc_type) tt
  ]
