-- ===== src/Elf2Efi/Tests.antt =====
-- Runs of the converter, and its theorems at concrete inputs.
use loli_loader.Base.{
  ℕ, ◌+◌, ◌%◌, ◌^◌, none, some, List, [], ◌∷◌, ◌++◌, Bytes, codes, length, get_or, ◌≡◌, ◌≤◌, ◌<◌,
  arith, ◌⊎◌, ◌↔◌, map, refl, take,
}
use loli_loader.Elf2Efi.{Outcome, done, exits, fault, to_le, replicate, SizedData, le}
use loli_loader.Elf2Efi.Executable.{Executable, ExecReloc}
use loli_loader.Elf2Efi.Elf.{Segment}
use loli_loader.Elf2Efi.Parse.{parse_elf}
use loli_loader.Elf2Efi.Output.{Output}
use loli_loader.Elf2Efi.Main.{Memory, convert_file}
use Prim.Native.Nat.{◌∣◌}
use native.Mathlib.Nat.{dvd_refl}
use mathlib.Core.List.{Perm}
use loli_loader.Elf2Efi.Elf.{Elf64Phdr, load_segment}
use loli_loader.Elf2Efi.Elf.Loaded.{IsLoadable, Loaded, load_segment-Loaded}
use loli_loader.Elf2Efi.Dynamic.{dynamic_lookup_tag}
use loli_loader.Elf2Efi.Dynamic.Prefix.{dynamic_lookup_tag-prefix}
use loli_loader.Elf2Efi.Executable.{reloc_compare, qsort}
use loli_loader.Elf2Efi.Executable.Sorted.{Ascends, qsort-reloc_compare}
use loli_loader.Elf2Efi.Gcd.{gcd_loop, gcd, exec_address_alignment}
use loli_loader.Elf2Efi.Gcd.Common.{gcd-IsGcd}
use loli_loader.Elf2Efi.Gcd.Multiple.{AllDivide, DividesAll, exec_address_alignment-AllDivide}
use loli_loader.Elf2Efi.Relocate.{relocate_exec, relocate_reloc, apply_relocs}
use loli_loader.Elf2Efi.Relocate.Moved.{IsSegment, AllMoved, relocate_exec-AllMoved}
use loli_loader.Elf2Efi.Relocate.Target.{inside}
use loli_loader.Elf2Efi.Relocate.Applied.{AreApplied, apply_relocs-AreApplied}
use loli_loader.Elf2Efi.Buffer.{DynamicBuffer, empty_dynamic_buffer, buffer_append}
use loli_loader.Elf2Efi.Buffer.Append.{Appended, empty-IsBuffer, buffer_append-Appended}
use loli_loader.Elf2Efi.PeReloc.{create_pe_reloc}
use loli_loader.Elf2Efi.PeReloc.Table.{read_table}
use loli_loader.Elf2Efi.PeReloc.Readable.{rvas, create_pe_reloc-read}
use loli_loader.Elf2Efi.Output.{write_padding}
use loli_loader.Elf2Efi.Output.Extended.{extended, write_padding-extended}
use loli_loader.Elf2Efi.Sections.Read.{AreRead}
use loli_loader.Elf2Efi.Write.{write_pe}
use loli_loader.Elf2Efi.Write.Read.{all_data}
use loli_loader.Elf2Efi.Write.Whole.{write_pe-AreRead}
use loli_loader.Elf2Efi.{
  align_down, align_up, to_le, le, bytes_at, store, replicate, fresh, data_at_offset,
}
use loli_loader.Elf2Efi.Elf.{
  elf64_ehdr, elf64_phdr, bit, segment_flags, load_segment, segment_loop, load_segments, has_magic,
  valid_ehdr,
}
use loli_loader.Elf2Efi.Dynamic.{lookup_loop, dynamic_lookup_tag}
use loli_loader.Elf2Efi.Executable.{
  data_at_vaddr_from, data_at_vaddr, r_type, reloc_loop, rela_reloc, rel_reloc, load_rela_relocs,
  load_rel_relocs, vaddr_difference, reloc_compare, segment_compare, insert, qsort, rela_part,
  rel_part, load_relocs,
}
use loli_loader.Elf2Efi.Gcd.{
  gcd_loop, gcd, alignment_gcd, alignment_product, exec_address_alignment,
}
use loli_loader.Elf2Efi.Parse.{parse_elf}
use loli_loader.Elf2Efi.Relocate.{
  pe32plus_image_header_size, relocate_segment, relocate_segments, relocate_reloc, advance_base,
  relocate_exec, apply_reloc, apply_reloc_loop, apply_relocs,
}
use loli_loader.Elf2Efi.Buffer.{grow, buffer_append}
use loli_loader.Elf2Efi.PeReloc.{
  block_bytes, bit_or, pe32_base_reloc_raw, backfill, new_block, add_reloc, add_relocs,
  create_pe_reloc,
}
use loli_loader.Elf2Efi.Pe.{
  pe_dos_header, pe_header, pe32plus_optional_header, pe32plus_optional_windows_header,
  data_directory, data_directory_header, section_header,
}
use loli_loader.Elf2Efi.Layout.{
  add_stats, stats_loop, get_exec_stats, pe_section_num, layout_of, layout_loop, layout_pe_file,
}
use loli_loader.Elf2Efi.Output.{fwrite, write_chunk, padding_loop, write_padding}
use loli_loader.Elf2Efi.Sections.{
  unsigned_text, section_name, section_characteristics, segment_header, section_headers,
  reloc_header, write_section, write_sections,
}
use loli_loader.Elf2Efi.Write.{write_reloc_header, write_reloc_section, file_headers, write_pe}
use loli_loader.Elf2Efi.Main.{option_loop, load_binary_file, convert_file, main}

abbrev phdr : ℕ → ℕ → ℕ → ℕ → ℕ → ℕ → ℕ → Bytes
unfolding to_le
phdr type flags offset vaddr filesz memsz align =
    to_le 4 type
    ++ to_le 4 flags
    ++ to_le 8 offset
    ++ to_le 8 vaddr
    ++ to_le 8 vaddr
    ++ to_le 8 filesz
    ++ to_le 8 memsz
    ++ to_le 8 align

abbrev small_ehdr : Bytes
unfolding to_le replicate
small_ehdr =
    0x7f ∷ codes "ELF"
    ++ 2 ∷ 1 ∷ 1 ∷ 0 ∷ replicate 8 0
    ++ to_le 2 3
    ++ to_le 2 62
    ++ to_le 4 1
    ++ to_le 8 0x1000
    ++ to_le 8 64
    ++ to_le 8 0
    ++ to_le 4 0
    ++ to_le 2 64
    ++ to_le 2 56
    ++ to_le 2 2
    ++ to_le 2 0
    ++ to_le 2 0
    ++ to_le 2 0

-- One segment of 16 bytes, one relocation in it, and a dynamic table of 17 entries.
abbrev small_elf : Bytes
unfolding to_le replicate
small_elf =
    small_ehdr
    ++ phdr 1 5 176 0x1000 16 24 512
    ++ phdr 2 4 192 0x2000 272 272 8
    ++ codes "0123456789abcdef"
    ++ to_le 8 7
    ++ to_le 8 464
    ++ to_le 8 8
    ++ to_le 8 24
    ++ replicate 240 0
    ++ to_le 8 0x1008
    ++ to_le 8 8
    ++ to_le 8 0x1004
    ++ 0 ∷ []

abbrev memory : Memory
memory = record {
  parsed = record {
    segment_bytes = λ i j. 170;
    reloc_array = λ i. record { vaddr = 0; addend = 0 };
  };
  moved = λ i j. 171;
  table = λ i. 172;
  stack = λ i. 173;
}

abbrev output : Output
output = record { written = []; room = 100000 }

-- The file that is written starts with its magic number, and has the headers' 512 bytes and two
-- sections of 512 bytes.
abbrev summary : Outcome Output → List ℕ
summary (done o) = get_or o.written 0 0 ∷ get_or o.written 1 0 ∷ length o.written ∷ []
summary (exits n) = []
summary fault = []

abbrev code : Segment
code = record {
  vaddr = 0x1004;
  memsize = 24;
  alignment = 512;
  flags = 5;
  filesize = 16;
  contents = record { raw_data = codes "0123456789abcdefghijklmn"; size = 24 };
}

code-IsSegment : IsSegment code
code-IsSegment = record { held = refl; size = refl; fits = omega arith }

abbrev two_relocs : List ExecReloc
two_relocs = record { vaddr = 0x1004; addend = 7 } ∷ record { vaddr = 0x1010; addend = 2 ^ 40 } ∷ []

abbrev program : Executable
program = record {
  entry_addr = 0x1004;
  segments = code ∷ [];
  dynamic = code;
  relocs = two_relocs;
  executable_alignment = 512;
}

abbrev table : SizedData
table = record { raw_data = codes "relocations"; size = 8 }

write_pe-AreRead_example :
    (o : Output) × (write_pe (λ i. 0) (some (record { written = []; room = 10000 })) program 0 table
      ≡ done o)
    × AreRead o.written 328 (all_data program table)
write_pe-AreRead_example =
    write_pe-AreRead (λ i. 0) program 0 table 10000 (omega arith) (omega arith) refl
      (omega arith, tt) (omega arith) (omega arith) (omega arith)

create_pe_reloc-read_example :
    (d : SizedData) × (create_pe_reloc (λ i. 9) 0x1000 two_relocs ≡ done d)
    × (d.size ≤ length d.raw_data)
    × (read_table d.size (take d.size d.raw_data) ≡ some (rvas 0x1000 two_relocs))
create_pe_reloc-read_example =
    create_pe_reloc-read (λ i. 9) 0x1000 two_relocs refl (omega arith)
      (
        omega arith,
        omega arith,
        omega arith,
        omega arith,
        (omega arith, omega arith, omega arith, omega arith, tt),
      )

apply_relocs-AreApplied_example :
    (after : List Segment) × (apply_relocs program ≡ done (record program { segments = after }))
    × AreApplied after two_relocs
apply_relocs-AreApplied_example = apply_relocs-AreApplied program (
  omega arith,
  omega arith,
  inside (omega arith) (omega arith) (omega arith) code-IsSegment,
  (omega arith, omega arith, inside (omega arith) (omega arith) (omega arith) code-IsSegment, tt),
)

relocate_exec-AllMoved_example :
    (b : ℕ) × (moved : List Segment) × (relocate_exec (λ i j. 0) program 0x10000000
      ≡ done (record program {
        entry_addr = (0x1004 + b) % 2 ^ 64;
        segments = moved;
        relocs = map (relocate_reloc b) two_relocs;
      }))
    × (0x10000000 ≤ b)
    × (b < 0x10000000 + 2 ^ 32)
    × AllMoved b (code ∷ []) moved
relocate_exec-AllMoved_example =
    relocate_exec-AllMoved (λ i j. 0) program 0x10000000 (omega arith) (omega arith) (omega arith)
      (code-IsSegment, omega arith, omega arith, omega arith, tt)

gcd-IsGcd_example :
    (g : ℕ) × (gcd_loop 513 4096 512 ≡ some g)
    × (gcd 4096 512 ≡ done g)
    × ((c : ℕ) → (c ∣ g) ↔ ((c ∣ 4096) × (c ∣ 512)))
gcd-IsGcd_example = gcd-IsGcd 4096 512

exec_address_alignment-AllDivide_example :
    (exec_address_alignment (code ∷ code ∷ []) ≡ done 512) × AllDivide 512 (code ∷ code ∷ [])
exec_address_alignment-AllDivide_example =
    exec_address_alignment-AllDivide (code ∷ code ∷ []) 512 (omega arith)
      (omega arith, (omega arith, tt)) (dvd_refl 512, (dvd_refl 512, tt))
      (λ c (d : DividesAll c (code ∷ code ∷ [])). d.0) (omega arith)

write_padding-extended_example :
    write_padding (record { written = []; room = 200 }) 130
    ≡ done (extended (record { written = []; room = 200 }) (replicate 130 0))
write_padding-extended_example =
    write_padding-extended (record { written = []; room = 200 }) 130 (omega arith)

buffer_append-Appended_example :
    (b : DynamicBuffer) × (buffer_append (λ i. 0) empty_dynamic_buffer (codes "abc") ≡ done b)
    × Appended empty_dynamic_buffer (codes "abc") b
buffer_append-Appended_example =
    buffer_append-Appended (λ i. 0) empty_dynamic_buffer (codes "abc") empty-IsBuffer (omega arith)

abbrev text_file : SizedData
text_file = record { raw_data = codes "0123456789"; size = 10 }

abbrev some_header : Elf64Phdr
some_header = record {
  p_type = 1;
  p_flags = 5;
  p_offset = 2;
  p_vaddr = 0x1000;
  p_filesz = 4;
  p_memsz = 8;
  p_align = 512;
}

load_segment-Loaded_example :
    (¬ (IsLoadable text_file some_header)
      × (load_segment (λ i. 170) text_file some_header ≡ exits 1))
    ⊎ (IsLoadable text_file some_header
        × ((s : Segment) × (load_segment (λ i. 170) text_file some_header ≡ done s)
            × Loaded (λ i. 170) text_file some_header s))
load_segment-Loaded_example =
    load_segment-Loaded (λ i. 170) text_file some_header refl (omega arith) (omega arith)

-- A dynamic segment of two entries, which differ behind the first 17 bytes.
abbrev with_tail : ℕ → Segment
with_tail c = record code {
  filesize = 32;
  memsize = 32;
  contents = record {
    raw_data = codes "0123456789abcdefg" ++ c ∷ codes "23456789abcdef";
    size = 33;
  };
}

dynamic_lookup_tag-prefix_example :
    dynamic_lookup_tag (with_tail 1) 8 ≡ dynamic_lookup_tag (with_tail 2) 8
dynamic_lookup_tag-prefix_example =
    dynamic_lookup_tag-prefix (with_tail 1) (with_tail 2) 8 refl refl refl refl

qsort-reloc_compare_example :
    Ascends (λ (r : ExecReloc). r.vaddr) 0 (qsort reloc_compare two_relocs)
    × Perm (qsort reloc_compare two_relocs) two_relocs
qsort-reloc_compare_example =
    qsort-reloc_compare 0x1000 two_relocs
      ((omega arith, omega arith, omega arith), ((omega arith, omega arith, omega arith), tt))

-- The run of the conversion on the small ELF file: the magic number, and 512 bytes of headers and of
-- each of the two sections.
conversion_runs :
    summary (
      convert_file memory
        (some output)
        (record { raw_data = small_elf; size = length small_elf })
        0x10000000)
    ≡ 77 ∷ 90 ∷ 1536 ∷ []
unfolding align_down align_up to_le le bytes_at store replicate fresh data_at_offset elf64_ehdr
    elf64_phdr bit segment_flags load_segment segment_loop load_segments has_magic valid_ehdr
    lookup_loop dynamic_lookup_tag data_at_vaddr_from data_at_vaddr r_type reloc_loop rela_reloc
    rel_reloc load_rela_relocs load_rel_relocs vaddr_difference reloc_compare segment_compare insert
    qsort rela_part rel_part load_relocs gcd_loop gcd alignment_gcd alignment_product
    exec_address_alignment parse_elf pe32plus_image_header_size relocate_segment relocate_segments
    relocate_reloc advance_base relocate_exec apply_reloc apply_reloc_loop apply_relocs grow
    buffer_append block_bytes bit_or pe32_base_reloc_raw backfill new_block add_reloc add_relocs
    create_pe_reloc pe_dos_header pe_header pe32plus_optional_header
    pe32plus_optional_windows_header data_directory data_directory_header section_header add_stats
    stats_loop get_exec_stats pe_section_num layout_of layout_loop layout_pe_file fwrite write_chunk
    padding_loop write_padding unsigned_text section_name section_characteristics segment_header
    section_headers reloc_header write_section write_sections write_reloc_header write_reloc_section
    file_headers write_pe option_loop load_binary_file convert_file main
conversion_runs = refl

-- A table of two entries: a tag at the second one is not found.
abbrev two_entries : Segment
unfolding to_le
two_entries = record code {
  filesize = 32;
  memsize = 40;
  contents = record {
    raw_data = to_le 8 5 ++ to_le 8 1 ++ to_le 8 7 ++ to_le 8 0x200 ++ to_le 8 0;
    size = 40;
  };
}

second_tag_lost : dynamic_lookup_tag two_entries 7 ≡ done none
unfolding dynamic_lookup_tag lookup_loop to_le le data_at_offset bytes_at
second_tag_lost = refl
