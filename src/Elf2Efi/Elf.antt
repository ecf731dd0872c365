-- ===== src/Elf2Efi/Elf.antt =====
-- The headers of the ELF file, and the loading of its segments.
pub mod Loaded
use loli_loader.Base.{
  ℕ, zero, suc, ◌+◌, ◌-◌, ◌*◌, ◌/◌, ◌%◌, ◌^◌, Bool, true, false, ◌&&◌, ◌||◌, Option, none, some,
  List, [], ◌∷◌, ◌++◌, ltb, leb, ◌==◌, if◌then◌else◌, Bytes, length, get_or, take,
}
use loli_loader.Elf2Efi.{
  Outcome, done, exits, fault, ◌>>=◌, ◌>>◌, assert_msg, field, bytes_at, store, replicate, fresh,
  SizedData, data_at_offset,
}

-- The structures of <elf.h>, with the fields that are read.
pub record Elf64Ehdr : Type 0 where
  pub e_ident : Bytes
  pub e_type : ℕ
  pub e_machine : ℕ
  pub e_entry : ℕ
  pub e_phoff : ℕ
  pub e_ehsize : ℕ
  pub e_phentsize : ℕ
  pub e_phnum : ℕ

pub record Elf64Phdr : Type 0 where
  pub p_type : ℕ
  pub p_flags : ℕ
  pub p_offset : ℕ
  pub p_vaddr : ℕ
  pub p_filesz : ℕ
  pub p_memsz : ℕ
  pub p_align : ℕ

abbrev pub sizeof_ehdr : ℕ
sizeof_ehdr = 64

abbrev pub sizeof_phdr : ℕ
sizeof_phdr = 56

unfoldable pub elf64_ehdr : Bytes → Elf64Ehdr
elf64_ehdr s = record {
  e_ident = take 16 s;
  e_type = field 16 2 s;
  e_machine = field 18 2 s;
  e_entry = field 24 8 s;
  e_phoff = field 32 8 s;
  e_ehsize = field 52 2 s;
  e_phentsize = field 54 2 s;
  e_phnum = field 56 2 s;
}

unfoldable pub elf64_phdr : Bytes → Elf64Phdr
elf64_phdr s = record {
  p_type = field 0 4 s;
  p_flags = field 4 4 s;
  p_offset = field 8 8 s;
  p_vaddr = field 16 8 s;
  p_filesz = field 32 8 s;
  p_memsz = field 40 8 s;
  p_align = field 48 8 s;
}

abbrev pub pt_load : ℕ
pt_load = 1

abbrev pub pt_dynamic : ℕ
pt_dynamic = 2

-- Both tables of flags are bits of a number: `bit n w` tests the bit of weight `n`.
unfoldable pub bit : ℕ → ℕ → Bool
bit n w = w / n % 2 == 1

abbrev pub segment_flags_read : ℕ
segment_flags_read = 1

abbrev pub segment_flags_write : ℕ
segment_flags_write = 2

abbrev pub segment_flags_exec : ℕ
segment_flags_exec = 4

pub record Segment : Type 0 where
  pub vaddr : ℕ
  pub memsize : ℕ
  pub alignment : ℕ
  pub flags : ℕ
  pub filesize : ℕ
  pub contents : SizedData

-- PF_R is 4, PF_W is 2 and PF_X is 1; the bits that are joined are distinct.
unfoldable pub segment_flags : ℕ → ℕ
unfolding bit
segment_flags flags =
    (if bit 4 flags then segment_flags_read else 0)
    + (if bit 2 flags then segment_flags_write else 0)
    + (if bit 1 flags then segment_flags_exec else 0)

-- The memset of the source has the length `p_memsz - p_memsz`.
unfoldable pub load_segment : (ℕ → ℕ) → SizedData → Elf64Phdr → Outcome Segment
load_segment dirt elf phdr = do
  assert_msg (leb phdr.p_filesz phdr.p_memsz)
  off ← data_at_offset elf phdr.p_offset phdr.p_filesz
  file_data ← bytes_at elf.raw_data off phdr.p_filesz
  data_copy ← store (fresh dirt phdr.p_memsz) 0 file_data
  data_copy' ← store data_copy phdr.p_filesz (replicate (phdr.p_memsz - phdr.p_memsz) 0)
  done (record {
    vaddr = phdr.p_vaddr;
    memsize = phdr.p_memsz;
    alignment = phdr.p_align % 2 ^ 32;
    flags = segment_flags phdr.p_flags;
    filesize = phdr.p_filesz;
    contents = record { raw_data = data_copy'; size = phdr.p_memsz };
  })

-- The loop from the header `i` on: the segments so far, and the dynamic segment where one was found.
-- `dirt i` is what the block of header `i` holds before it is written.
unfoldable pub segment_loop :
    (ℕ → ℕ → ℕ)
    → SizedData
    → ℕ
    → ℕ
    → ℕ
    → List Segment
    → Option Segment
    → Outcome (List Segment × Option Segment)
unfolding bytes_at elf64_phdr
segment_loop dirt elf phdrs zero i segments dynamic = done (segments, dynamic)
segment_loop dirt elf phdrs (suc n) i segments dynamic =
    let next = segment_loop dirt elf phdrs n (suc i) in
    do
      s ← bytes_at elf.raw_data (phdrs + sizeof_phdr * i) sizeof_phdr
      if (elf64_phdr s).p_type == pt_dynamic
          then (do segment ← load_segment (dirt i) elf (elf64_phdr s); next segments (some segment))
          else if (elf64_phdr s).p_type == pt_load
          then (do
            segment ← load_segment (dirt i) elf (elf64_phdr s)
            next (segments ++ segment ∷ []) dynamic)
          else next segments dynamic

abbrev pub found : Option Segment → Outcome Segment
found none = exits 1
found (some segment) = done segment

unfoldable pub load_segments :
    (ℕ → ℕ → ℕ) → SizedData → Elf64Ehdr → Outcome (List Segment × Segment)
unfolding data_at_offset
load_segments dirt elf ehdr = do
  phdrs ← data_at_offset elf ehdr.e_phoff (ehdr.e_phnum * sizeof_phdr)
  loaded ← segment_loop dirt elf phdrs ehdr.e_phnum 0 [] none
  dynamic ← found (loaded.1)
  done (loaded.0, dynamic)

-- The magic number is `\x7f` and `ELF`; ELFCLASS64 is 2, ELFDATA2LSB 1, ET_EXEC 2, ET_DYN 3 and
-- EM_X86_64 62.
unfoldable pub has_magic : Bytes → Bool
has_magic s = get_or s 0 0 == 0x7f && get_or s 1 0 == 69 && get_or s 2 0 == 76 && get_or s 3 0 == 70

unfoldable pub valid_ehdr : Elf64Ehdr → Outcome (Unit {0})
valid_ehdr ehdr = do
  assert_msg (has_magic ehdr.e_ident)
  assert_msg (get_or ehdr.e_ident 4 0 == 2)
  assert_msg (get_or ehdr.e_ident 5 0 == 1)
  assert_msg (ehdr.e_type == 3 || ehdr.e_type == 2)
  assert_msg (ehdr.e_machine == 62)
  assert_msg (ehdr.e_ehsize == sizeof_ehdr)
  assert_msg (ehdr.e_phentsize == sizeof_phdr)
  done tt
