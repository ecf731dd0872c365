-- ===== src/Elf2Efi/Sections.antt =====
-- The headers of the sections, and the writing of their data.
pub mod Read
pub mod Written
use loli_loader.Base.{
  ℕ, zero, suc, ◌+◌, ◌-◌, ◌*◌, ◌/◌, ◌%◌, ◌^◌, Bool, true, false, Option, none, some, List, [], ◌∷◌,
  ◌++◌, ltb, leb, ◌==◌, if◌then◌else◌, Bytes, codes, length, take, get_elem?,
}
use loli_loader.Elf2Efi.{
  Outcome, done, exits, fault, ◌>>=◌, ◌>>◌, assert_msg, divisor, align_up, align_down, bytes_at,
  replicate, fresh, SizedData,
}
use loli_loader.Elf2Efi.Elf.{
  Segment, bit, segment_flags_read, segment_flags_write, segment_flags_exec,
}
use loli_loader.Elf2Efi.Pe.{
  PeDosHeader, PeHeader, Pe32PlusOptionalHeader, Pe32PlusOptionalWindowsHeader, Pe32DataDirectory,
  Pe32OptionalDataDirectoryHeader, Pe32SectionHeader, pe_dos_header, pe_header,
  pe32plus_optional_header, pe32plus_optional_windows_header, data_directory_header, section_header,
  no_directory, empty_datadir, pe_image_machine_amd64, pe_image_characteristics,
  image_subsystem_efi_application, image_dllchar, pe32_scn_cnt_code, pe32_scn_cnt_initialized_data,
  pe32_scn_cnt_uninitialized_data, pe32_scn_mem_discardable, pe32_scn_mem_execute,
  pe32_scn_mem_read, pe32_scn_mem_write,
}
use loli_loader.Elf2Efi.Layout.{
  ExecStats, get_exec_stats, FileLayout, has_pe_reloc, pe_section_num, layout_pe_file,
}
use loli_loader.Elf2Efi.Output.{Output, write_chunk, write_padding}

-- The decimal digits of `%u`, for a number of at most `fuel` digits.
unfoldable pub unsigned_text : ℕ → ℕ → Bytes
unsigned_text zero n = []
unsigned_text (suc fuel) n =
    let rest = unsigned_text fuel (n / 10) in (if ltb n 10 then [] else rest) ++ (48 + n % 10) ∷ []

-- `segname` keeps at most 8 characters of `.seg%u` and a terminator, and 8 of its 9 bytes are copied;
-- `dirt` is what it holds before.
unfoldable pub section_name : (ℕ → ℕ) → ℕ → Bytes
unfolding unsigned_text
section_name dirt i =
    let text = take 8 (codes ".seg" ++ unsigned_text 10 (i % 2 ^ 32)) in
    take 8 (text ++ 0 ∷ fresh dirt 8)

-- The bits that are joined are distinct.
unfoldable pub section_characteristics : Segment → ℕ
unfolding bit
section_characteristics segment =
    (if bit segment_flags_exec segment.flags
      then pe32_scn_cnt_code
      else if segment.filesize == 0
      then pe32_scn_cnt_uninitialized_data
      else pe32_scn_cnt_initialized_data)
    + (if bit segment_flags_exec segment.flags then pe32_scn_mem_execute else 0)
    + (if bit segment_flags_read segment.flags then pe32_scn_mem_read else 0)
    + (if bit segment_flags_write segment.flags then pe32_scn_mem_write else 0)

abbrev pub file_alignment : ℕ
file_alignment = 512

unfoldable pub segment_header : (ℕ → ℕ) → ℕ → ℕ → Segment → FileLayout → Pe32SectionHeader
segment_header dirt base_address i segment layout = record {
  name = section_name dirt i;
  virtual_size = segment.memsize % 2 ^ 32;
  virtual_address = (segment.vaddr + 2 ^ 64 - base_address) % 2 ^ 32;
  size_of_raw_data = align_up segment.filesize file_alignment % 2 ^ 32;
  pointer_to_raw_data = if segment.filesize == 0 then 0 else layout.offset;
  pointer_to_relocations = 0;
  pointer_to_line_numbers = 0;
  number_of_relocations = 0;
  number_of_line_numbers = 0;
  characteristics = section_characteristics segment;
}

-- The headers of the segments from `i` on, with the layouts that are left.
unfoldable pub section_headers :
    (ℕ → ℕ) → ℕ → ℕ → List Segment → List FileLayout → Output → Outcome Output
unfolding write_chunk section_header segment_header
section_headers dirt base_address i [] layouts fp = done fp
section_headers dirt base_address i (segment ∷ rest) [] fp = fault
section_headers dirt base_address i (segment ∷ rest) (layout ∷ layouts) fp = do
  fp' ← write_chunk fp (section_header (segment_header dirt base_address i segment layout)) 40
  section_headers dirt base_address (suc i) rest layouts fp'

unfoldable pub reloc_header : ℕ → SizedData → FileLayout → Pe32SectionHeader
reloc_header reloc_rva pe_relocs layout = record {
  name = codes ".reloc" ++ 0 ∷ 0 ∷ [];
  virtual_size = pe_relocs.size % 2 ^ 32;
  virtual_address = reloc_rva % 2 ^ 32;
  size_of_raw_data = layout.size;
  pointer_to_raw_data = layout.offset;
  pointer_to_relocations = 0;
  pointer_to_line_numbers = 0;
  number_of_relocations = 0;
  number_of_line_numbers = 0;
  characteristics = pe32_scn_cnt_initialized_data + pe32_scn_mem_discardable + pe32_scn_mem_read;
}

-- A section's data, and zeros up to the size that the layout gives it.
unfoldable pub write_section : Bytes → ℕ → FileLayout → Output → Outcome Output
unfolding write_chunk write_padding
write_section raw size layout fp = do
  fp' ← write_chunk fp raw size
  write_padding fp' ((layout.size + 2 ^ 64 - size) % 2 ^ 64)

unfoldable pub write_sections : List Segment → List FileLayout → Output → Outcome Output
unfolding write_section
write_sections [] layouts fp = done fp
write_sections (segment ∷ rest) [] fp = fault
write_sections (segment ∷ rest) (layout ∷ layouts) fp = do
  fp' ← write_section segment.contents.raw_data segment.filesize layout fp
  write_sections rest layouts fp'
