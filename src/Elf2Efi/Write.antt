-- ===== src/Elf2Efi/Write.antt =====
-- The writing of the PE file: the headers, the section headers, and the sections' data, padded.
pub mod Read
pub mod Whole
use loli_loader.Base.{
  ℕ, zero, suc, ◌+◌, ◌-◌, ◌*◌, ◌/◌, ◌%◌, ◌^◌, Bool, true, false, Option, none, some, List, [], ◌∷◌,
  ◌++◌, ltb, leb, ◌==◌, if◌then◌else◌, Bytes, codes, length, take, get_elem?,
}
use loli_loader.Elf2Efi.{
  Outcome, done, exits, fault, ◌>>=◌, ◌>>◌, assert_msg, divisor, align_up, align_down, bytes_at,
  replicate, fresh, SizedData,
}
use loli_loader.Elf2Efi.Elf.{
  Segment, bit, segment_flags_read, segment_flags_write, segment_flags_exec,
}
use loli_loader.Elf2Efi.Executable.{Executable, or_fault}
use loli_loader.Elf2Efi.Pe.{
  PeDosHeader, PeHeader, Pe32PlusOptionalHeader, Pe32PlusOptionalWindowsHeader, Pe32DataDirectory,
  Pe32OptionalDataDirectoryHeader, Pe32SectionHeader, pe_dos_header, pe_header,
  pe32plus_optional_header, pe32plus_optional_windows_header, data_directory_header, section_header,
  no_directory, empty_datadir, pe_image_machine_amd64, pe_image_characteristics,
  image_subsystem_efi_application, image_dllchar, pe32_scn_cnt_code, pe32_scn_cnt_initialized_data,
  pe32_scn_cnt_uninitialized_data, pe32_scn_mem_discardable, pe32_scn_mem_execute,
  pe32_scn_mem_read, pe32_scn_mem_write,
}
use loli_loader.Elf2Efi.Layout.{
  ExecStats, get_exec_stats, FileLayout, has_pe_reloc, pe_section_num, layout_pe_file,
}
use loli_loader.Elf2Efi.Output.{Output, write_chunk, write_padding}
use loli_loader.Elf2Efi.Relocate.{pe32plus_image_header_size}
use loli_loader.Elf2Efi.Sections.{
  file_alignment, section_headers, reloc_header, write_section, write_sections,
}

-- Both for the section of the relocations only: its header and its data.
unfoldable pub write_reloc_header :
    Executable → ℕ → SizedData → List FileLayout → Output → Outcome Output
write_reloc_header exec reloc_rva pe_relocs layouts fp =
    if has_pe_reloc exec.relocs
    then (do
      layout ← or_fault (get_elem? layouts (length exec.segments))
      write_chunk fp (section_header (reloc_header reloc_rva pe_relocs layout)) 40)
    else done fp

unfoldable pub write_reloc_section :
    Executable → SizedData → List FileLayout → Output → Outcome Output
write_reloc_section exec pe_relocs layouts fp =
    if has_pe_reloc exec.relocs
    then (do
      layout ← or_fault (get_elem? layouts (length exec.segments))
      write_section pe_relocs.raw_data pe_relocs.size layout fp)
    else done fp

-- The headers before the section headers, with the zeros that no initializer names. The source writes
-- them one by one.
unfoldable pub file_headers : Executable → ℕ → SizedData → ℕ → ℕ → ℕ → Bytes
file_headers exec base_address pe_relocs size_of_headers size_of_image reloc_rva =
    let stats : ExecStats = get_exec_stats exec.segments base_address in
    pe_dos_header (record { magic = codes "MZ"; pad = replicate 58 0; pe_offset = 64 })
    ++ pe_header (record {
      signature = codes "PE" ++ 0 ∷ 0 ∷ [];
      machine = pe_image_machine_amd64;
      number_of_sections = pe_section_num exec;
      timedate_stamp = 0;
      pointer_to_symbol_table = 0;
      number_of_symbols = 0;
      size_of_optional_header = 24 + 88 + 128;
      characteristics = pe_image_characteristics;
    })
    ++ pe32plus_optional_header (record {
      magic = 0x20b;
      major_linker_version = 0;
      minor_linker_version = 0;
      size_of_code = stats.size_of_code;
      size_of_initialized_data = stats.size_of_initialized_data;
      size_of_uninitialized_data = stats.size_of_uninitialized_data;
      address_of_entry_point = (exec.entry_addr + 2 ^ 64 - base_address) % 2 ^ 32;
      base_of_code = stats.base_of_code;
    })
    ++ pe32plus_optional_windows_header (record {
      image_base = base_address;
      section_alignment = exec.executable_alignment;
      file_alignment = file_alignment;
      major_os_version = 0;
      minor_os_version = 0;
      major_image_version = 0;
      minor_image_version = 0;
      major_subsys_version = 0;
      minor_subsys_version = 0;
      win32_version_value = 0;
      size_of_image = size_of_image;
      size_of_headers = size_of_headers;
      check_sum = 0;
      subsystem = image_subsystem_efi_application;
      dll_characteristics = image_dllchar;
      size_of_stack_reserve = 128 * 1024;
      size_of_stack_commit = 16 * 1024;
      size_of_heap_reserve = 1024 * 1024;
      size_of_heap_commit = 128 * 1024;
      loader_flags = 0;
      number_of_rva_and_sizes = 128 / 8;
    })
    ++ data_directory_header (record empty_datadir {
      base_relocation =
          if has_pe_reloc exec.relocs
          then record { rva = reloc_rva; size = pe_relocs.size }
          else no_directory;
    })

-- `fopen` gives the output, or NULL.
abbrev pub opened : Option Output → Outcome Output
opened none = exits 1
opened (some fp) = done fp

abbrev pub last_of : List Segment → Outcome Segment
last_of [] = fault
last_of (segment ∷ []) = done segment
last_of (segment ∷ next ∷ rest) = last_of (next ∷ rest)

unfoldable pub write_pe : (ℕ → ℕ) → Option Output → Executable → ℕ → SizedData → Outcome Output
write_pe dirt out exec base_address pe_relocs = do
  fp ← opened out
  assert_msg (exec.executable_alignment % file_alignment == 0)
  let header_size = pe32plus_image_header_size (pe_section_num exec)
  let size_of_headers = align_up header_size file_alignment
  let layouts = layout_pe_file exec size_of_headers pe_relocs file_alignment
  last_segment ← last_of exec.segments
  divisor exec.executable_alignment
  let reloc_vaddr =
      align_up ((last_segment.vaddr + last_segment.memsize) % 2 ^ 64) exec.executable_alignment
  let reloc_rva = (reloc_vaddr + 2 ^ 64 - base_address) % 2 ^ 64
  let size_of_image = align_up ((reloc_rva + pe_relocs.size) % 2 ^ 64) exec.executable_alignment
  fp1 ←
      write_chunk fp
        (file_headers exec base_address pe_relocs size_of_headers size_of_image reloc_rva)
        (64 + 24 + 24 + 88 + 128)
  fp2 ← section_headers dirt base_address 0 exec.segments layouts fp1
  fp3 ← write_reloc_header exec reloc_rva pe_relocs layouts fp2
  fp4 ← write_padding fp3 ((size_of_headers + 2 ^ 64 - header_size) % 2 ^ 64)
  fp5 ← write_sections exec.segments layouts fp4
  write_reloc_section exec pe_relocs layouts fp5
