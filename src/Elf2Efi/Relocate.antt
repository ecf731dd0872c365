-- ===== src/Elf2Efi/Relocate.antt =====
-- The move of the executable to its base address, and the relocation of its words.
pub mod Moved
pub mod Target
pub mod Applied
use loli_loader.Base.{
  ℕ, zero, suc, ◌+◌, ◌-◌, ◌*◌, ◌/◌, ◌%◌, ◌^◌, none, some, List, [], ◌∷◌, map, leb, if◌then◌else◌,
  Bytes, length, get_elem?, head_of,
}
use loli_loader.Elf2Efi.{
  Outcome, done, exits, fault, ◌>>=◌, ◌>>◌, divisor, align_down, align_up, to_le, bytes_at, store,
  replicate, fresh, SizedData,
}
use loli_loader.Elf2Efi.Elf.{Segment}
use loli_loader.Elf2Efi.Executable.{ExecReloc, Executable, data_at_vaddr, or_fault, set_elem}

-- The sizes of the DOS header, the PE header, the two optional headers and the data directory.
unfoldable pub pe32plus_image_header_size : ℕ → ℕ
pe32plus_image_header_size nsections = 64 + 24 + 24 + 88 + 128 + 40 * nsections

-- The segment from the address aligned down on, with zeros before its data; `dirt` is what the new block
-- holds before it is written.
unfoldable pub relocate_segment : (ℕ → ℕ) → ℕ → Segment → Outcome Segment
relocate_segment dirt base_address segment = do
  let vaddr = (segment.vaddr + base_address) % 2 ^ 64
  divisor segment.alignment
  let aligned_addr = align_down vaddr segment.alignment
  let offset = (vaddr - aligned_addr) % 2 ^ 32
  cleared ← store (fresh dirt ((segment.memsize + offset) % 2 ^ 64)) 0 (replicate offset 0)
  old ← bytes_at segment.contents.raw_data 0 segment.memsize
  new_data ← store cleared offset old
  done (record segment {
    vaddr = aligned_addr;
    filesize = (segment.filesize + offset) % 2 ^ 64;
    memsize = (segment.memsize + offset) % 2 ^ 64;
    contents = record { raw_data = new_data; size = (segment.contents.size + offset) % 2 ^ 64 };
  })

unfoldable pub relocate_segments : (ℕ → ℕ → ℕ) → ℕ → ℕ → List Segment → Outcome (List Segment)
relocate_segments dirt base_address i [] = done []
relocate_segments dirt base_address i (segment ∷ rest) = do
  moved ← relocate_segment (dirt i) base_address segment
  others ← relocate_segments dirt base_address (suc i) rest
  done (moved ∷ others)

unfoldable pub relocate_reloc : ℕ → ExecReloc → ExecReloc
relocate_reloc base_address reloc = record {
  vaddr = (reloc.vaddr + base_address) % 2 ^ 64;
  addend = (reloc.addend + base_address) % 2 ^ 64;
}

-- The base address, with room for the headers where the first segment leaves none before it.
unfoldable pub advance_base : Executable → ℕ → ℕ → Outcome ℕ
advance_base exec first_vaddr base_address =
    let header_size = pe32plus_image_header_size (length exec.segments + 1) in
    if leb first_vaddr header_size
    then (do
      divisor exec.executable_alignment
      let offset = align_up header_size exec.executable_alignment % 2 ^ 32
      done ((base_address + offset) % 2 ^ 64))
    else done base_address

unfoldable pub relocate_exec : (ℕ → ℕ → ℕ) → Executable → ℕ → Outcome Executable
relocate_exec dirt exec base = do
  first ← or_fault (head_of exec.segments)
  base_address ← advance_base exec first.vaddr base
  moved ← relocate_segments dirt base_address 0 exec.segments
  done (record exec {
    entry_addr = (exec.entry_addr + base_address) % 2 ^ 64;
    segments = moved;
    relocs = map (relocate_reloc base_address) exec.relocs;
  })

-- A relocated word stores its addend, and lengthens the part of the segment that goes to the file where
-- it starts behind it.
unfoldable pub apply_reloc : ExecReloc → List Segment → Outcome (List Segment)
apply_reloc reloc segments = do
  p ← data_at_vaddr segments reloc.vaddr
  segment ← or_fault (get_elem? segments (p.0))
  raw ← store segment.contents.raw_data (p.1) (to_le 8 reloc.addend)
  let filesize = if leb segment.filesize (p.1) then (p.1 + 8) % 2 ^ 64 else segment.filesize
  set_elem segments (p.0) (record segment {
    filesize = filesize;
    contents = record segment.contents { raw_data = raw };
  })

unfoldable pub apply_reloc_loop : List ExecReloc → List Segment → Outcome (List Segment)
apply_reloc_loop [] segments = done segments
apply_reloc_loop (reloc ∷ rest) segments = do
  segments' ← apply_reloc reloc segments
  apply_reloc_loop rest segments'

unfoldable pub apply_relocs : Executable → Outcome Executable
apply_relocs exec = do
  segments ← apply_reloc_loop exec.relocs exec.segments
  done (record exec { segments = segments })
