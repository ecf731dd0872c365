-- ===== src/Elf2Efi/Pe.antt =====
-- The structures of a PE32+ file, packed, and their bytes.
use loli_loader.Base.{ℕ, ◌+◌, ◌++◌, Bytes}
use loli_loader.Elf2Efi.{to_le}

-- `pad` stands for the 58 bytes that no initializer names.
pub record PeDosHeader : Type 0 where
  pub magic : Bytes
  pub pad : Bytes
  pub pe_offset : ℕ

unfoldable pub pe_dos_header : PeDosHeader → Bytes
unfolding to_le
pe_dos_header h = h.magic ++ h.pad ++ to_le 4 h.pe_offset

pub record PeHeader : Type 0 where
  pub signature : Bytes
  pub machine : ℕ
  pub number_of_sections : ℕ
  pub timedate_stamp : ℕ
  pub pointer_to_symbol_table : ℕ
  pub number_of_symbols : ℕ
  pub size_of_optional_header : ℕ
  pub characteristics : ℕ

unfoldable pub pe_header : PeHeader → Bytes
unfolding to_le
pe_header h =
    h.signature
    ++ to_le 2 h.machine
    ++ to_le 2 h.number_of_sections
    ++ to_le 4 h.timedate_stamp
    ++ to_le 4 h.pointer_to_symbol_table
    ++ to_le 4 h.number_of_symbols
    ++ to_le 2 h.size_of_optional_header
    ++ to_le 2 h.characteristics

abbrev pub pe_image_machine_amd64 : ℕ
pe_image_machine_amd64 = 0x8664

-- EXECUTABLE_IMAGE, LINE_NUMS_STRIPPED, LOCAL_SYMS_STRIPPED, LARGE_ADDRESS_AWARE and
-- FILE_DEBUG_STRIPPED, which are distinct bits.
abbrev pub pe_image_characteristics : ℕ
pe_image_characteristics = 0x0002 + 0x0004 + 0x0008 + 0x0020 + 0x0200

pub record Pe32PlusOptionalHeader : Type 0 where
  pub magic : ℕ
  pub major_linker_version : ℕ
  pub minor_linker_version : ℕ
  pub size_of_code : ℕ
  pub size_of_initialized_data : ℕ
  pub size_of_uninitialized_data : ℕ
  pub address_of_entry_point : ℕ
  pub base_of_code : ℕ

unfoldable pub pe32plus_optional_header : Pe32PlusOptionalHeader → Bytes
unfolding to_le
pe32plus_optional_header h =
    to_le 2 h.magic
    ++ to_le 1 h.major_linker_version
    ++ to_le 1 h.minor_linker_version
    ++ to_le 4 h.size_of_code
    ++ to_le 4 h.size_of_initialized_data
    ++ to_le 4 h.size_of_uninitialized_data
    ++ to_le 4 h.address_of_entry_point
    ++ to_le 4 h.base_of_code

pub record Pe32PlusOptionalWindowsHeader : Type 0 where
  pub image_base : ℕ
  pub section_alignment : ℕ
  pub file_alignment : ℕ
  pub major_os_version : ℕ
  pub minor_os_version : ℕ
  pub major_image_version : ℕ
  pub minor_image_version : ℕ
  pub major_subsys_version : ℕ
  pub minor_subsys_version : ℕ
  pub win32_version_value : ℕ
  pub size_of_image : ℕ
  pub size_of_headers : ℕ
  pub check_sum : ℕ
  pub subsystem : ℕ
  pub dll_characteristics : ℕ
  pub size_of_stack_reserve : ℕ
  pub size_of_stack_commit : ℕ
  pub size_of_heap_reserve : ℕ
  pub size_of_heap_commit : ℕ
  pub loader_flags : ℕ
  pub number_of_rva_and_sizes : ℕ

unfoldable pub pe32plus_optional_windows_header : Pe32PlusOptionalWindowsHeader → Bytes
unfolding to_le
pe32plus_optional_windows_header h =
    to_le 8 h.image_base
    ++ to_le 4 h.section_alignment
    ++ to_le 4 h.file_alignment
    ++ to_le 2 h.major_os_version
    ++ to_le 2 h.minor_os_version
    ++ to_le 2 h.major_image_version
    ++ to_le 2 h.minor_image_version
    ++ to_le 2 h.major_subsys_version
    ++ to_le 2 h.minor_subsys_version
    ++ to_le 4 h.win32_version_value
    ++ to_le 4 h.size_of_image
    ++ to_le 4 h.size_of_headers
    ++ to_le 4 h.check_sum
    ++ to_le 2 h.subsystem
    ++ to_le 2 h.dll_characteristics
    ++ to_le 8 h.size_of_stack_reserve
    ++ to_le 8 h.size_of_stack_commit
    ++ to_le 8 h.size_of_heap_reserve
    ++ to_le 8 h.size_of_heap_commit
    ++ to_le 4 h.loader_flags
    ++ to_le 4 h.number_of_rva_and_sizes

abbrev pub image_subsystem_efi_application : ℕ
image_subsystem_efi_application = 10

-- HIGH_ENTROPY_VA, DYNAMIC_BASE and NX_COMPAT, which are distinct bits.
abbrev pub image_dllchar : ℕ
image_dllchar = 0x0020 + 0x0040 + 0x0100

pub record Pe32DataDirectory : Type 0 where
  pub rva : ℕ
  pub size : ℕ

abbrev pub no_directory : Pe32DataDirectory
no_directory = record { rva = 0; size = 0 }

unfoldable pub data_directory : Pe32DataDirectory → Bytes
unfolding to_le
data_directory d = to_le 4 d.rva ++ to_le 4 d.size

pub record Pe32OptionalDataDirectoryHeader : Type 0 where
  pub export : Pe32DataDirectory
  pub import_table : Pe32DataDirectory
  pub resource : Pe32DataDirectory
  pub exception : Pe32DataDirectory
  pub certificate : Pe32DataDirectory
  pub base_relocation : Pe32DataDirectory
  pub debug : Pe32DataDirectory
  pub architecture : Pe32DataDirectory
  pub global_pointer : Pe32DataDirectory
  pub tls : Pe32DataDirectory
  pub load_config : Pe32DataDirectory
  pub bound_import : Pe32DataDirectory
  pub import_address : Pe32DataDirectory
  pub delay_import : Pe32DataDirectory
  pub clr_runtime : Pe32DataDirectory
  pub reserved : Pe32DataDirectory

abbrev pub empty_datadir : Pe32OptionalDataDirectoryHeader
empty_datadir = record {
  export = no_directory;
  import_table = no_directory;
  resource = no_directory;
  exception = no_directory;
  certificate = no_directory;
  base_relocation = no_directory;
  debug = no_directory;
  architecture = no_directory;
  global_pointer = no_directory;
  tls = no_directory;
  load_config = no_directory;
  bound_import = no_directory;
  import_address = no_directory;
  delay_import = no_directory;
  clr_runtime = no_directory;
  reserved = no_directory;
}

unfoldable pub data_directory_header : Pe32OptionalDataDirectoryHeader → Bytes
unfolding data_directory
data_directory_header h =
    data_directory h.export
    ++ data_directory h.import_table
    ++ data_directory h.resource
    ++ data_directory h.exception
    ++ data_directory h.certificate
    ++ data_directory h.base_relocation
    ++ data_directory h.debug
    ++ data_directory h.architecture
    ++ data_directory h.global_pointer
    ++ data_directory h.tls
    ++ data_directory h.load_config
    ++ data_directory h.bound_import
    ++ data_directory h.import_address
    ++ data_directory h.delay_import
    ++ data_directory h.clr_runtime
    ++ data_directory h.reserved

pub record Pe32SectionHeader : Type 0 where
  pub name : Bytes
  pub virtual_size : ℕ
  pub virtual_address : ℕ
  pub size_of_raw_data : ℕ
  pub pointer_to_raw_data : ℕ
  pub pointer_to_relocations : ℕ
  pub pointer_to_line_numbers : ℕ
  pub number_of_relocations : ℕ
  pub number_of_line_numbers : ℕ
  pub characteristics : ℕ

unfoldable pub section_header : Pe32SectionHeader → Bytes
unfolding to_le
section_header h =
    h.name
    ++ to_le 4 h.virtual_size
    ++ to_le 4 h.virtual_address
    ++ to_le 4 h.size_of_raw_data
    ++ to_le 4 h.pointer_to_raw_data
    ++ to_le 4 h.pointer_to_relocations
    ++ to_le 4 h.pointer_to_line_numbers
    ++ to_le 2 h.number_of_relocations
    ++ to_le 2 h.number_of_line_numbers
    ++ to_le 4 h.characteristics

abbrev pub pe32_scn_cnt_code : ℕ
pe32_scn_cnt_code = 0x00000020

abbrev pub pe32_scn_cnt_initialized_data : ℕ
pe32_scn_cnt_initialized_data = 0x00000040

abbrev pub pe32_scn_cnt_uninitialized_data : ℕ
pe32_scn_cnt_uninitialized_data = 0x00000080

abbrev pub pe32_scn_mem_discardable : ℕ
pe32_scn_mem_discardable = 0x02000000

abbrev pub pe32_scn_mem_execute : ℕ
pe32_scn_mem_execute = 0x20000000

abbrev pub pe32_scn_mem_read : ℕ
pe32_scn_mem_read = 0x40000000

abbrev pub pe32_scn_mem_write : ℕ
pe32_scn_mem_write = 0x80000000
