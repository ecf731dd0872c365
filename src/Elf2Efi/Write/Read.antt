-- ===== src/Elf2Efi/Write/Read.antt =====
-- The written file, read back through its section table.
use loli_loader.Base.{
  ℕ, ◌+◌, ◌-◌, ◌*◌, ◌^◌, ◌≤◌, ◌<◌, ◌≡◌, refl, sym, ap, ◌∙◌, Bool, true, false, some, List, [], ◌∷◌,
  ◌++◌, arith, if◌then◌else◌, Bytes, length, drop, length-append, take_all, drop-append, get_elem?,
  Bool-cases, inl, inr,
}
use mathlib.Core.List.{append_assoc, append-nil}
use loli_loader.Elf2Efi.{done, align_up, replicate, SizedData, to_le}
use loli_loader.Elf2Efi.Elf.{Segment}
use loli_loader.Elf2Efi.Executable.{Executable}
use loli_loader.Elf2Efi.Pe.{
  section_header, pe_dos_header, pe_header, pe32plus_optional_header,
  pe32plus_optional_windows_header, data_directory_header, data_directory,
}
use loli_loader.Elf2Efi.Layout.{layout_of, layout_loop, has_pe_reloc}
use loli_loader.Elf2Efi.Output.{Output}
use loli_loader.Elf2Efi.Output.Extended.{extended, extended-nil, write_chunk_lem}
use loli_loader.Elf2Efi.Sections.{reloc_header}
use loli_loader.Elf2Efi.Sections.Read.{
  padded, AreRead, aligned_size, length-padded, section_header-fields, read_section_lem,
}
use loli_loader.Elf2Efi.Sections.Written.{
  section_data, AreStored, extent, sections_bytes, layout-size, next-offset, write_section_lem,
  length-sections_bytes,
}
use loli_loader.Elf2Efi.Write.{write_reloc_header, write_reloc_section, file_headers}

-- The section of the relocations, if there are any.
abbrev pub reloc_data : Bool → SizedData → List (Bytes × ℕ)
reloc_data true d = (d.raw_data, d.size) ∷ []
reloc_data false d = []

-- All sections of the file, in turn.
abbrev pub all_data : Executable → SizedData → List (Bytes × ℕ)
all_data exec d = section_data exec.segments ++ reloc_data (has_pe_reloc exec.relocs) d

-- A bound on the size of the file.
abbrev pub file_extent : Executable → SizedData → ℕ
file_extent exec d =
    328 + 40 * (length exec.segments + 1) + 512 + extent exec.segments + (d.size + 512)

pub reloc_head : Bool → ℕ → SizedData → ℕ → Bytes
reloc_head true rva d end = section_header (reloc_header rva d (layout_of end d.size 512))
reloc_head false rva d end = []

pub reloc_body : Bool → SizedData → Bytes
reloc_body true d = padded d.raw_data d.size
reloc_body false d = []

pub length-file_headers :
    (exec : Executable) (base : ℕ) (d : SizedData) (headers image rva : ℕ)
    → length (file_headers exec base d headers image rva) ≡ 328
unfolding file_headers pe_dos_header pe_header pe32plus_optional_header
    pe32plus_optional_windows_header data_directory_header data_directory to_le replicate
length-file_headers exec base d headers image rva = refl

-- The layout of the section of the relocations stands behind those of the segments.
last_layout :
    (segments : List Segment) (offset size : ℕ)
    → AreStored segments
    → offset + extent segments < 2 ^ 32
    → get_elem? (layout_loop offset segments true size 512) (length segments)
      ≡ some (layout_of (offset + length (sections_bytes segments)) size 512)
unfolding layout_loop
last_layout [] offset size st h =
    let e : offset ≡ offset + 0 = omega arith in ap (λ o. some (layout_of o size 512)) e
last_layout (s ∷ rest) offset size st h =
    let raw = s.contents.raw_data in
    let (low, high, _) = aligned_size s.filesize (omega arith) in
    let e : offset + align_up s.filesize 512 + length (sections_bytes rest)
        ≡ offset + length (padded raw s.filesize ++ sections_bytes rest) =
      omega (
        arith,
        length-append (padded raw s.filesize) (sections_bytes rest),
        length-padded raw s.filesize (omega arith) st.0,
      ) in
    rw
      (
        next-offset offset s.filesize (omega arith) (omega arith),
        last_layout rest (offset + align_up s.filesize 512) size st.1 (omega arith),
      )
      (ap (λ o. some (layout_of o size 512)) e)

-- The header of the relocations' section has 40 bytes.
reloc_header-IsSound :
    (rva : ℕ) (d : SizedData) (end : ℕ)
    → d.size < 2 ^ 32 - 512
    → end < 2 ^ 32
    → (length (section_header (reloc_header rva d (layout_of end d.size 512))) ≡ 40)
      × ((reloc_header rva d (layout_of end d.size 512)).size_of_raw_data ≡ align_up d.size 512)
      × ((reloc_header rva d (layout_of end d.size 512)).pointer_to_raw_data ≡ end)
unfolding reloc_header layout_of
reloc_header-IsSound rva d end z l =
    let (_, high, _) = aligned_size d.size (omega arith) in
    let same = layout-size end d.size z in
    (
      (section_header-fields (reloc_header rva d (layout_of end d.size 512)) refl
          (omega (arith, same)) l).0,
      same,
      refl,
    )

pub write_reloc_header_lem :
    (exec : Executable) (rva : ℕ) (d : SizedData) (offset : ℕ) (fp : Output)
    → AreStored exec.segments
    → offset + extent exec.segments < 2 ^ 32
    → d.size < 2 ^ 32 - 512
    → 40 ≤ fp.room
    → write_reloc_header exec rva d
        (layout_loop offset exec.segments (has_pe_reloc exec.relocs) d.size 512)
        fp
      ≡ done (
          extended fp (
            reloc_head
              (has_pe_reloc exec.relocs)
              rva
              d
              (offset + length (sections_bytes exec.segments))))
unfolding write_reloc_header reloc_head
write_reloc_header_lem exec rva d offset fp st h z r =
    elim (Bool-cases (has_pe_reloc exec.relocs)) [
      | inl some_reloc ↦
          let end = offset + length (sections_bytes exec.segments) in
          let bytes = section_header (reloc_header rva d (layout_of end d.size 512)) in
          let (n, _, _) =
            reloc_header-IsSound rva d end z
              (omega (arith, (length-sections_bytes exec.segments st (omega arith)).0)) in
          rw (some_reloc, last_layout exec.segments offset d.size st h)
            (write_chunk_lem fp bytes 40 (omega (arith, n)) r
              ∙ ap (λ t. done (extended fp t)) (take_all bytes 40 (omega (arith, n))))
      | inr no_reloc ↦ rw no_reloc (ap (λ o. done o) (sym (extended-nil fp)))
    ]

pub write_reloc_section_lem :
    (exec : Executable) (d : SizedData) (offset : ℕ) (fp : Output)
    → AreStored exec.segments
    → offset + extent exec.segments < 2 ^ 32
    → d.size < 2 ^ 32 - 512
    → d.size ≤ length d.raw_data
    → d.size + 512 ≤ fp.room
    → write_reloc_section exec d
        (layout_loop offset exec.segments (has_pe_reloc exec.relocs) d.size 512)
        fp
      ≡ done (extended fp (reloc_body (has_pe_reloc exec.relocs) d))
unfolding write_reloc_section reloc_body
write_reloc_section_lem exec d offset fp st h z l r = elim (Bool-cases (has_pe_reloc exec.relocs)) [
  | inl some_reloc ↦
      rw (some_reloc, last_layout exec.segments offset d.size st h)
        (write_section_lem d.raw_data d.size (offset + length (sections_bytes exec.segments)) fp l z
          r)
  | inr no_reloc ↦ rw no_reloc (ap (λ o. done o) (sym (extended-nil fp)))
]

pub length-reloc_head :
    (has : Bool) (rva : ℕ) (d : SizedData) (end : ℕ)
    → d.size < 2 ^ 32 - 512
    → end < 2 ^ 32
    → length (reloc_head has rva d end) ≡ 40 * (if has then 1 else 0)
unfolding reloc_head
length-reloc_head true rva d end z l = (reloc_header-IsSound rva d end z l).0
length-reloc_head false rva d end z l = refl

-- The section of the relocations, read back.
pub reloc-AreRead :
    (has : Bool) (rva : ℕ) (d : SizedData) (pos end : ℕ) (file more : Bytes)
    → d.size < 2 ^ 32 - 512
    → d.size ≤ length d.raw_data
    → end < 2 ^ 32
    → drop pos file ≡ reloc_head has rva d end ++ more
    → drop end file ≡ reloc_body has d
    → AreRead file pos (reloc_data has d)
unfolding reloc_head reloc_body reloc_header layout_of
reloc-AreRead true rva d pos end file more z l h e b =
    let (n, s, p) = reloc_header-IsSound rva d end z h in
    (
      read_section_lem file pos (reloc_header rva d (layout_of end d.size 512)) d.raw_data more []
          d.size refl s h z l e (b ∙ sym (append-nil (padded d.raw_data d.size))),
      tt,
    )
reloc-AreRead false rva d pos end file more z l h e b = tt

-- The six parts of the file.
abbrev pub six : Bytes → Bytes → Bytes → Bytes → Bytes → Bytes → Bytes
six a b c p s r = a ++ b ++ c ++ p ++ s ++ r

pub drop-six :
    (a b c p s r : Bytes)
    → (drop (length a) (six a b c p s r) ≡ b ++ (c ++ p ++ s ++ r))
      × (drop (length (a ++ b)) (six a b c p s r) ≡ c ++ (p ++ s ++ r))
      × (drop (length (a ++ b ++ c ++ p)) (six a b c p s r) ≡ s ++ r)
      × (drop (length (a ++ b ++ c ++ p ++ s)) (six a b c p s r) ≡ r)
drop-six a b c p s r =
    let e1 : six a b c p s r ≡ a ++ (b ++ (c ++ p ++ s ++ r)) = simp append_assoc in
    let e2 : six a b c p s r ≡ a ++ b ++ (c ++ (p ++ s ++ r)) = simp append_assoc in
    let e3 : six a b c p s r ≡ a ++ b ++ c ++ p ++ (s ++ r) = append_assoc (a ++ b ++ c ++ p) s r in
    (
      ap (drop (length a)) e1 ∙ drop-append a (b ++ (c ++ p ++ s ++ r)) (length a) refl,
      ap (drop (length (a ++ b))) e2
          ∙ drop-append (a ++ b) (c ++ (p ++ s ++ r)) (length (a ++ b)) refl,
      ap (drop (length (a ++ b ++ c ++ p))) e3
          ∙ drop-append (a ++ b ++ c ++ p) (s ++ r) (length (a ++ b ++ c ++ p)) refl,
      drop-append (a ++ b ++ c ++ p ++ s) r (length (a ++ b ++ c ++ p ++ s)) refl,
    )
