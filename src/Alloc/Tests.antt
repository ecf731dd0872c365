-- ===== src/Alloc/Tests.antt =====
-- Runs of src/memory.c.
use loli_loader.Base.{◌≡◌, refl}
use loli_loader.Alloc.{size_to_efi_pages}

pages : (size_to_efi_pages 1 ≡ 1) × (size_to_efi_pages 4096 ≡ 1) × (size_to_efi_pages 4097 ≡ 2)
unfolding size_to_efi_pages
pages = (refl, refl, refl)
