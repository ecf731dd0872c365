-- ===== src/Elf2Efi/Executable.antt =====
-- The executable in memory: its segments, the relocations read from the two tables of the ELF file,
-- and where a virtual address stands.
pub mod Sorted
use loli_loader.Base.{
  ℕ, zero, suc, ◌+◌, ◌-◌, ◌*◌, ◌/◌, ◌%◌, ◌^◌, Bool, true, false, ◌&&◌, Option, none, some, List, [],
  ◌∷◌, ◌++◌, leb, ◌==◌, if◌then◌else◌, Bytes, length, take, drop, get_elem?,
}
use loli_loader.Base.Int.{ℤ, signed32, is_negative}
use loli_loader.Elf2Efi.{
  Outcome, done, exits, fault, ◌>>=◌, ◌>>◌, assert_msg, field, bytes_at, fresh, SizedData,
  data_at_offset,
}
use loli_loader.Elf2Efi.Elf.{Segment}
use loli_loader.Elf2Efi.Dynamic.{dynamic_lookup_tag}

pub record ExecReloc : Type 0 where
  pub vaddr : ℕ
  pub addend : ℕ

-- The relocations are the first `relocnum` of the source's array.
pub record Executable : Type 0 where
  pub entry_addr : ℕ
  pub segments : List Segment
  pub dynamic : Segment
  pub relocs : List ExecReloc
  pub executable_alignment : ℕ

-- The first segment with `vaddr <= addr && addr <= vaddr + memsize`, and the offset in its data: the
-- pointer is the pair of them.
unfoldable pub data_at_vaddr_from : List Segment → ℕ → ℕ → Outcome (ℕ × ℕ)
data_at_vaddr_from [] addr i = exits 1
data_at_vaddr_from (segment ∷ rest) addr i =
    if leb segment.vaddr addr && leb addr ((segment.vaddr + segment.memsize) % 2 ^ 64)
    then done (i, addr - segment.vaddr)
    else data_at_vaddr_from rest addr (suc i)

unfoldable pub data_at_vaddr : List Segment → ℕ → Outcome (ℕ × ℕ)
unfolding data_at_vaddr_from
data_at_vaddr segments addr = data_at_vaddr_from segments addr 0

abbrev pub or_fault {ℓ} : {A : Type ℓ} → Option A → Outcome A
or_fault none = fault
or_fault (some a) = done a

-- An array with another element at `i`.
abbrev pub set_elem {ℓ} : {A : Type ℓ} → List A → ℕ → A → Outcome (List A)
set_elem [] i a = fault
set_elem (x ∷ xs) zero a = done (a ∷ xs)
set_elem (x ∷ xs) (suc i) a = set_elem xs i a >>= λ rest. done (x ∷ rest)

-- `ELF64_R_TYPE`, R_X86_64_NONE and R_X86_64_RELATIVE.
unfoldable pub r_type : Bytes → ℕ
r_type r = field 8 8 r % 2 ^ 32

abbrev pub r_none : ℕ
r_none = 0

abbrev pub r_relative : ℕ
r_relative = 8

abbrev pub sizeof_rela : ℕ
sizeof_rela = 24

abbrev pub sizeof_rel : ℕ
sizeof_rel = 16

-- The loop over the entries of a table at `base`, from the entry `i` on, and what it leaves: the output
-- and the number of entries that count. The entry `i` is stored at `i`, whatever was left out before it.
module _ (reloc_of : Bytes → Outcome ExecReloc) (raw : Bytes) (base entry_size : ℕ) where
  unfoldable pub reloc_loop : ℕ → ℕ → ℕ → List ExecReloc → ℕ → Outcome (List ExecReloc × ℕ)
  unfolding bytes_at r_type
  reloc_loop zero i first output effective_num = done (output, effective_num)
  reloc_loop (suc n) i first output effective_num =
      let next = reloc_loop n (suc i) first in
      do
        r ← bytes_at raw (base + entry_size * i) entry_size
        if r_type r == r_none
            then next output effective_num
            else if r_type r == r_relative
            then (do
              reloc ← reloc_of r
              output' ← set_elem output (first + i) reloc
              next output' (suc effective_num))
            else exits 1

-- The addend of a RELA entry stands in the entry.
unfoldable pub rela_reloc : Bytes → Outcome ExecReloc
rela_reloc r = done (record { vaddr = field 0 8 r; addend = field 16 8 r })

-- The addend of a REL entry stands at the place that it relocates.
unfoldable pub rel_reloc : List Segment → Bytes → Outcome ExecReloc
unfolding data_at_vaddr bytes_at
rel_reloc segments r = do
  p ← data_at_vaddr segments (field 0 8 r)
  segment ← or_fault (get_elem? segments (p.0))
  word ← bytes_at segment.contents.raw_data (p.1) 8
  done (record { vaddr = field 0 8 r; addend = field 0 8 word })

unfoldable pub load_rela_relocs : Bytes → ℕ → ℕ → List ExecReloc → Outcome (List ExecReloc × ℕ)
unfolding reloc_loop rela_reloc
load_rela_relocs raw rela num output = reloc_loop rela_reloc raw rela sizeof_rela num 0 0 output 0

-- The output is the array of the relocations from its element `first` on.
unfoldable pub load_rel_relocs :
    List Segment → Bytes → ℕ → ℕ → ℕ → List ExecReloc → Outcome (List ExecReloc × ℕ)
unfolding reloc_loop rel_reloc
load_rel_relocs segments raw rel num first output =
    reloc_loop (rel_reloc segments) raw rel sizeof_rel num 0 first output 0

-- The difference of two addresses, as the `int` that it is cut to.
unfoldable pub vaddr_difference : ℕ → ℕ → ℤ
vaddr_difference a b = signed32 ((a + 2 ^ 64 - b) % 2 ^ 32)

unfoldable pub reloc_compare : ExecReloc → ExecReloc → ℤ
unfolding vaddr_difference
reloc_compare r1 r2 = vaddr_difference r1.vaddr r2.vaddr

unfoldable pub segment_compare : Segment → Segment → ℤ
unfolding vaddr_difference
segment_compare s1 s2 = vaddr_difference s1.vaddr s2.vaddr

-- `qsort` of the C library, as an insertion sort.
module _ {ℓ} {A : Type ℓ} (compare : A → A → ℤ) where
  unfoldable pub insert : A → List A → List A
  insert x [] = x ∷ []
  insert x (y ∷ ys) =
      let rest = insert x ys in if is_negative (compare y x) then y ∷ rest else x ∷ y ∷ ys

  unfoldable pub qsort : List A → List A
  unfolding insert
  qsort [] = []
  qsort (x ∷ xs) = insert x (qsort xs)

abbrev pub dt_rela : ℕ
dt_rela = 7

abbrev pub dt_relasz : ℕ
dt_relasz = 8

abbrev pub dt_rel : ℕ
dt_rel = 17

abbrev pub dt_relsz : ℕ
dt_relsz = 18

abbrev pub required : Option ℕ → Outcome ℕ
required none = exits 1
required (some n) = done n

-- The RELA table, at the offset that DT_RELA gives, if there is one.
unfoldable pub rela_part :
    (ℕ → ExecReloc) → SizedData → Segment → Option ℕ → Outcome (List ExecReloc × ℕ)
unfolding dynamic_lookup_tag data_at_offset load_rela_relocs
rela_part dirt elf dynamic none = done ([], 0)
rela_part dirt elf dynamic (some offset) = do
  found ← dynamic_lookup_tag dynamic dt_relasz
  size ← required found
  let num = size / sizeof_rela
  rela ← data_at_offset elf offset (sizeof_rela * num)
  load_rela_relocs elf.raw_data rela num (fresh dirt num)

-- The REL table behind the `relocnum` relocations so far, in the array resized for both.
unfoldable pub rel_part :
    (ℕ → ExecReloc)
    → List Segment
    → SizedData
    → Segment
    → List ExecReloc
    → ℕ
    → Option ℕ
    → Outcome (List ExecReloc × ℕ)
unfolding dynamic_lookup_tag data_at_offset load_rel_relocs
rel_part dirt segments elf dynamic relocs relocnum none = done (relocs, relocnum)
rel_part dirt segments elf dynamic relocs relocnum (some offset) = do
  found ← dynamic_lookup_tag dynamic dt_relsz
  size ← required found
  let num = size / sizeof_rel
  rel ← data_at_offset elf offset (sizeof_rel * num)
  let old = take (num + relocnum) relocs
  let grown = old ++ fresh dirt (num + relocnum - length old)
  loaded ← load_rel_relocs segments elf.raw_data rel num relocnum grown
  done (loaded.0, relocnum + loaded.1)

-- `dirt` is what the array holds before it is written.
unfoldable pub load_relocs :
    (ℕ → ExecReloc) → List Segment → SizedData → Segment → Outcome (List ExecReloc)
unfolding dynamic_lookup_tag rela_part rel_part qsort reloc_compare
load_relocs dirt segments elf dynamic = do
  rela ← dynamic_lookup_tag dynamic dt_rela
  first ← rela_part dirt elf dynamic rela
  rel ← dynamic_lookup_tag dynamic dt_rel
  both ← rel_part dirt segments elf dynamic (first.0) (first.1) rel
  done (qsort reloc_compare (take (both.1) (both.0)))
