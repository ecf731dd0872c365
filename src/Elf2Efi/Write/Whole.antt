-- ===== src/Elf2Efi/Write/Whole.antt =====
-- The whole file: every section of the executable is found through the section table.
use loli_loader.Base.{
  ℕ, zero, suc, ◌+◌, ◌-◌, ◌*◌, ◌%◌, ◌^◌, ◌≤◌, ◌<◌, ◌≡◌, refl, sym, ap, ◌∙◌, Bool, true, false, some,
  List, [], ◌∷◌, ◌++◌, arith, if◌then◌else◌, Bytes, length, take, drop, length-append, take_all,
}
use loli_loader.Elf2Efi.{done, align_up, replicate, SizedData, divisor}
use loli_loader.Elf2Efi.Block.{length-replicate}
use loli_loader.Elf2Efi.Elf.{Segment}
use loli_loader.Elf2Efi.Executable.{Executable}
use loli_loader.Elf2Efi.Layout.{layout_pe_file, has_pe_reloc, pe_section_num}
use loli_loader.Elf2Efi.Output.{Output}
use loli_loader.Elf2Efi.Output.Extended.{
  extended, extended-extended, write_chunk_lem, write_padding-extended,
}
use loli_loader.Elf2Efi.Relocate.{pe32plus_image_header_size}
use loli_loader.Elf2Efi.Sections.Read.{AreRead, AreRead-append, aligned_size}
use loli_loader.Elf2Efi.Sections.Written.{
  section_data, AreStored, sections_bytes, headers_bytes, section_headers_lem, write_sections_lem,
  length-headers_bytes, length-sections_bytes, segments-AreRead,
}
use loli_loader.Elf2Efi.Write.{file_headers, last_of, write_pe}
use loli_loader.Elf2Efi.Write.Read.{
  reloc_data, all_data, file_extent, reloc_head, reloc_body, length-file_headers,
  write_reloc_header_lem, write_reloc_section_lem, length-reloc_head, reloc-AreRead, six, drop-six,
}

last_of_lem :
    (segments : List Segment) → 0 < length segments → (s : Segment) × (last_of segments ≡ done s)
last_of_lem [] h = absurd (omega arith)
last_of_lem (s ∷ []) h = (s, refl)
last_of_lem (s ∷ t ∷ rest) h = last_of_lem (t ∷ rest) (omega arith)

divisor_lem : (n : ℕ) → 0 < n → divisor n ≡ done tt
divisor_lem zero h = absurd (omega arith)
divisor_lem (suc n) h = refl

length-section_data : (segments : List Segment) → length (section_data segments) ≡ length segments
length-section_data [] = refl
length-section_data (s ∷ rest) = omega (arith, length-section_data rest)

-- The size of the headers, from the number of the sections.
abbrev header_size : ℕ → Bool → ℕ
header_size n has = pe32plus_image_header_size (n + (if has then 1 else 0))

header_size_lem :
    (n : ℕ) (has : Bool)
    → (header_size n has ≡ 328 + 40 * n + 40 * (if has then 1 else 0))
      × (header_size n has ≤ 328 + 40 * (n + 1))
unfolding pe32plus_image_header_size
header_size_lem n true = (omega arith, omega arith)
header_size_lem n false = (omega arith, omega arith)

-- The file's parts, from the numbers that the code computes on the way.
module _ (dirt : ℕ → ℕ) (exec : Executable) (base : ℕ) (d : SizedData) (image rva soh : ℕ) where
  abbrev end : ℕ
  end = soh + length (sections_bytes exec.segments)

  abbrev file : Bytes
  file =
      six (file_headers exec base d soh image rva) (headers_bytes dirt base 0 soh exec.segments)
        (reloc_head (has_pe_reloc exec.relocs) rva d end)
        (replicate (soh - header_size (length exec.segments) (has_pe_reloc exec.relocs)) 0)
        (sections_bytes exec.segments) (reloc_body (has_pe_reloc exec.relocs) d)

  file-AreRead :
      AreStored exec.segments
      → d.size ≤ length d.raw_data
      → file_extent exec d < 2 ^ 32
      → soh ≡ align_up (header_size (length exec.segments) (has_pe_reloc exec.relocs)) 512
      → AreRead file 328 (all_data exec d)
  file-AreRead st l h e =
      let has = has_pe_reloc exec.relocs in
      let n = length exec.segments in
      let (hs, hb) = header_size_lem n has in
      let (low, high, _) = aligned_size (header_size n has) (omega arith) in
      let (se, _) = length-sections_bytes exec.segments st (omega arith) in
      let a = file_headers exec base d soh image rva in
      let b = headers_bytes dirt base 0 soh exec.segments in
      let c = reloc_head has rva d end in
      let p : Bytes = replicate (soh - header_size n has) 0 in
      let s = sections_bytes exec.segments in
      let r = reloc_body has d in
      let (at1, at2, at3, at4) = drop-six a b c p s r in
      let la = length-file_headers exec base d soh image rva in
      let lab : length (a ++ b) ≡ 328 + 40 * n = omega (
        arith,
        length-append a b,
        la,
        length-headers_bytes dirt base 0 soh exec.segments (omega arith),
      ) in
      let labcp : length (a ++ b ++ c ++ p) ≡ soh = omega (
        arith,
        length-append (a ++ b ++ c) p,
        length-append (a ++ b) c,
        lab,
        length-reloc_head has rva d end (omega arith) (omega arith),
        length-replicate (soh - header_size n has) 0,
      ) in
      let labcps : length (a ++ b ++ c ++ p ++ s) ≡ end =
        omega (arith, length-append (a ++ b ++ c ++ p) s, labcp) in
      AreRead-append file 328 (328 + 40 * n) (section_data exec.segments) (reloc_data has d)
        (omega (arith, length-section_data exec.segments))
        (segments-AreRead dirt base 0 328 soh exec.segments file (c ++ p ++ s ++ r) r st
          (omega arith) (ap (λ k. drop k file) (sym la) ∙ at1)
          (ap (λ k. drop k file) (sym labcp) ∙ at3))
        (reloc-AreRead has rva d (328 + 40 * n) end file (p ++ s ++ r) (omega arith) l (omega arith)
          (ap (λ k. drop k file) (sym lab) ∙ at2) (ap (λ k. drop k file) (sym labcps) ∙ at4))

chunks :
    (out : Output) (a b c p s r : Bytes)
    → extended (extended (extended (extended (extended (extended out a) b) c) p) s) r
      ≡ extended out (six a b c p s r)
chunks out a b c p s r =
    ap (λ o. extended (extended (extended (extended o c) p) s) r) (extended-extended out a b)
    ∙ ap (λ o. extended (extended (extended o p) s) r) (extended-extended out (a ++ b) c)
    ∙ ap (λ o. extended (extended o s) r) (extended-extended out (a ++ b ++ c) p)
    ∙ ap (λ o. extended o r) (extended-extended out (a ++ b ++ c ++ p) s)
    ∙ extended-extended out (a ++ b ++ c ++ p ++ s) r

-- If the executable has a segment and a positive alignment that is a multiple of 512, each segment's
-- part for the file is in its block, the table of relocations too, and the file stays below 4 GiB and
-- within the room of an empty output, then write_pe writes a file whose section headers, one for each
-- segment in order and one more for the relocations where there are any, lead to exactly the
-- sections' data, each padded with zeros to a multiple of 512 bytes.
pub write_pe-AreRead :
    (dirt : ℕ → ℕ) (exec : Executable) (base : ℕ) (d : SizedData) (room : ℕ)
    → 0 < length exec.segments
    → 0 < exec.executable_alignment
    → exec.executable_alignment % 512 ≡ 0
    → AreStored exec.segments
    → d.size ≤ length d.raw_data
    → file_extent exec d < 2 ^ 32
    → file_extent exec d ≤ room
    → (o : Output) × (write_pe dirt (some (record { written = []; room = room })) exec base d
        ≡ done o)
      × AreRead o.written 328 (all_data exec d)
unfolding write_pe layout_pe_file pe_section_num
write_pe-AreRead dirt exec base d room some_segment pos al st l h r =
    let has = has_pe_reloc exec.relocs in
    let n = length exec.segments in
    let (last, last_eq) = last_of_lem exec.segments some_segment in
    let (hs, hb) = header_size_lem n has in
    let hz = header_size n has in
    let soh = align_up hz 512 in
    let (low, high, _) = aligned_size hz (omega arith) in
    let (se, _) = length-sections_bytes exec.segments st (omega arith) in
    let rva =
      (align_up ((last.vaddr + last.memsize) % 2 ^ 64) exec.executable_alignment + 2 ^ 64 - base)
      % 2 ^ 64 in
    let image = align_up ((rva + d.size) % 2 ^ 64) exec.executable_alignment in
    let a = file_headers exec base d soh image rva in
    let b = headers_bytes dirt base 0 soh exec.segments in
    let end = soh + length (sections_bytes exec.segments) in
    let c = reloc_head has rva d end in
    let p : Bytes = replicate (soh - hz) 0 in
    let s = sections_bytes exec.segments in
    let out : Output = record { written = []; room = room } in
    let la = length-file_headers exec base d soh image rva in
    let lb = length-headers_bytes dirt base 0 soh exec.segments (omega arith) in
    let lc = length-reloc_head has rva d end (omega arith) (omega arith) in
    let lp = length-replicate (soh - hz) 0 in
    let small : soh % 2 ^ 32 ≡ soh = omega arith in
    let pad : (soh + 2 ^ 64 - hz) % 2 ^ 64 ≡ soh - hz = omega arith in
    let whole : take 328 a ≡ a = take_all a 328 (omega (arith, la)) in
    let fp1 = extended out a in
    let fp2 = extended fp1 b in
    let fp3 = extended fp2 c in
    let fp4 = extended fp3 p in
    let fp5 = extended fp4 s in
    (
      extended out (file dirt exec base d image rva soh),
      rw
          (
            al,
            last_eq,
            divisor_lem exec.executable_alignment pos,
            small,
            write_chunk_lem out a 328 (omega (arith, la)) (omega arith),
            whole,
            section_headers_lem dirt base 0 exec.segments soh d.size has fp1 (omega arith)
                (omega (arith, la)),
            write_reloc_header_lem exec rva d soh fp2 st (omega arith) (omega arith)
                (omega (arith, la, lb)),
            pad,
            write_padding-extended fp3 (soh - hz) (omega (arith, la, lb, lc)),
            write_sections_lem exec.segments soh d.size has fp4 st (omega arith)
                (omega (arith, la, lb, lc, lp)),
            write_reloc_section_lem exec d soh fp5 st (omega arith) (omega arith) l
                (omega (arith, la, lb, lc, lp)),
          )
          (ap (λ o. done o) (chunks out a b c p s (reloc_body has d))),
      file-AreRead dirt exec base d image rva soh st l h refl,
    )
