-- ===== src/Elf2Efi/Layout.antt =====
-- The sums over the segments that the headers tell, and where each section's data stands in the file.
use loli_loader.Base.{
  ℕ, ◌+◌, ◌-◌, ◌%◌, ◌^◌, Bool, true, false, List, [], ◌∷◌, ◌==◌, if◌then◌else◌, length,
}
use loli_loader.Elf2Efi.{align_up, SizedData}
use loli_loader.Elf2Efi.Elf.{Segment, bit, segment_flags_exec}
use loli_loader.Elf2Efi.Executable.{Executable, ExecReloc}

pub record ExecStats : Type 0 where
  pub size_of_code : ℕ
  pub size_of_initialized_data : ℕ
  pub size_of_uninitialized_data : ℕ
  pub base_of_code : ℕ

unfoldable pub add_stats : ℕ → Segment → ExecStats → ExecStats
unfolding bit
add_stats base_address segment stats =
    if bit segment_flags_exec segment.flags
    then record stats {
      size_of_code = (stats.size_of_code + segment.memsize) % 2 ^ 32;
      base_of_code =
          if stats.base_of_code == 0
          then (segment.vaddr + 2 ^ 64 - base_address) % 2 ^ 32
          else stats.base_of_code;
    }
    else record stats {
      size_of_initialized_data = (stats.size_of_initialized_data + segment.filesize) % 2 ^ 32;
      size_of_uninitialized_data =
          (stats.size_of_uninitialized_data + (segment.memsize + 2 ^ 64 - segment.filesize))
          % 2 ^ 32;
    }

unfoldable pub stats_loop : ℕ → List Segment → ExecStats → ExecStats
unfolding add_stats
stats_loop base_address [] stats = stats
stats_loop base_address (segment ∷ rest) stats =
    stats_loop base_address rest (add_stats base_address segment stats)

unfoldable pub get_exec_stats : List Segment → ℕ → ExecStats
unfolding stats_loop
get_exec_stats segments base_address = stats_loop base_address segments (record {
  size_of_code = 0;
  size_of_initialized_data = 0;
  size_of_uninitialized_data = 0;
  base_of_code = 0;
})

pub record FileLayout : Type 0 where
  pub offset : ℕ
  pub size : ℕ

abbrev pub has_pe_reloc : List ExecReloc → Bool
has_pe_reloc [] = false
has_pe_reloc (reloc ∷ rest) = true

unfoldable pub pe_section_num : Executable → ℕ
pe_section_num exec = length exec.segments + (if has_pe_reloc exec.relocs then 1 else 0)

unfoldable pub layout_of : ℕ → ℕ → ℕ → FileLayout
layout_of offset size file_alignment = record {
  offset = offset;
  size = align_up size file_alignment % 2 ^ 32;
}

-- The layouts of the segments' sections from `offset` on, and, last, of the section of the relocations,
-- of `reloc_size` bytes, where there are any.
unfoldable pub layout_loop : ℕ → List Segment → Bool → ℕ → ℕ → List FileLayout
unfolding layout_of
layout_loop offset [] has_reloc reloc_size file_alignment =
    if has_reloc then layout_of offset reloc_size file_alignment ∷ [] else []
layout_loop offset (segment ∷ rest) has_reloc reloc_size file_alignment =
    let layout = layout_of offset segment.filesize file_alignment in
    layout ∷ layout_loop ((offset + layout.size) % 2 ^ 32) rest has_reloc reloc_size file_alignment

unfoldable pub layout_pe_file : Executable → ℕ → SizedData → ℕ → List FileLayout
unfolding layout_loop
layout_pe_file exec size_of_headers pe_relocs file_alignment =
    layout_loop (size_of_headers % 2 ^ 32) exec.segments (has_pe_reloc exec.relocs) pe_relocs.size
      file_alignment
