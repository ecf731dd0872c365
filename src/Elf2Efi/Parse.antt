-- ===== src/Elf2Efi/Parse.antt =====
-- From the bytes of the ELF file to the executable.
use loli_loader.Base.{ℕ}
use loli_loader.Elf2Efi.{Outcome, done, ◌>>=◌, ◌>>◌, bytes_at, SizedData, data_at_offset}
use loli_loader.Elf2Efi.Elf.{elf64_ehdr, sizeof_ehdr, valid_ehdr, load_segments, Elf64Ehdr}
use loli_loader.Elf2Efi.Executable.{ExecReloc, Executable, segment_compare, qsort, load_relocs}
use loli_loader.Elf2Efi.Gcd.{exec_address_alignment}

-- What the blocks of the segments and the array of the relocations hold before they are written.
pub record Dirt : Type 0 where
  pub segment_bytes : ℕ → ℕ → ℕ
  pub reloc_array : ℕ → ExecReloc

unfoldable pub parse_elf : Dirt → SizedData → Outcome Executable
unfolding data_at_offset bytes_at elf64_ehdr valid_ehdr load_segments qsort segment_compare
    load_relocs exec_address_alignment
parse_elf dirt elf = do
  off ← data_at_offset elf 0 sizeof_ehdr
  s ← bytes_at elf.raw_data off sizeof_ehdr
  let ehdr : Elf64Ehdr = elf64_ehdr s
  valid_ehdr ehdr
  loaded ← load_segments dirt.segment_bytes elf ehdr
  let segments = qsort segment_compare (loaded.0)
  relocs ← load_relocs dirt.reloc_array segments elf (loaded.1)
  alignment ← exec_address_alignment segments
  done (record {
    entry_addr = ehdr.e_entry;
    segments = segments;
    dynamic = loaded.1;
    relocs = relocs;
    executable_alignment = alignment;
  })
