-- ===== src/Elf2Efi/Dynamic.antt =====
-- The lookup of a tag in the dynamic segment.
pub mod Prefix
use loli_loader.Base.{ℕ, zero, suc, ◌+◌, ◌/◌, Option, none, some, ◌==◌, if◌then◌else◌}
use loli_loader.Elf2Efi.{
  Outcome, done, exits, fault, ◌>>=◌, ◌>>◌, assert_msg, field, bytes_at, SizedData, data_at_offset,
}
use loli_loader.Elf2Efi.Elf.{Segment}

abbrev pub sizeof_dyn : ℕ
sizeof_dyn = 16

-- The entry of round `i` is read at the byte `i` of the segment, as the source does.
unfoldable pub lookup_loop : SizedData → ℕ → ℕ → ℕ → Outcome (Option ℕ)
unfolding data_at_offset bytes_at
lookup_loop d tag zero i = done none
lookup_loop d tag (suc n) i =
    let rest = lookup_loop d tag n (suc i) in
    do
      off ← data_at_offset d i sizeof_dyn
      dyn ← bytes_at d.raw_data off sizeof_dyn
      if field 0 8 dyn == tag then done (some (field 8 8 dyn)) else rest

unfoldable pub dynamic_lookup_tag : Segment → ℕ → Outcome (Option ℕ)
unfolding lookup_loop
dynamic_lookup_tag dynamic tag = lookup_loop dynamic.contents tag (dynamic.filesize / sizeof_dyn) 0
