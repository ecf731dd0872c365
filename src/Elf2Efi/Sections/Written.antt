-- ===== src/Elf2Efi/Sections/Written.antt =====
-- The section headers and the sections' data of the segments, as they are written and as they are read.
use loli_loader.Base.{
  ℕ, suc, ◌+◌, ◌-◌, ◌*◌, ◌%◌, ◌^◌, ◌≤◌, ◌<◌, ◌≡◌, refl, sym, ap, ◌∙◌, Bool, List, [], ◌∷◌, ◌++◌,
  map, arith, ==_false, Bytes, codes, length, take, drop, length-append, length-take_le,
  drop-append, drop-drop, take_all, ℕ_discrete,
}
use mathlib.Core.List.{append_assoc}
use loli_loader.Elf2Efi.{done, align_up, align_down, replicate, fresh}
use loli_loader.Elf2Efi.Block.{length-fresh}
use loli_loader.Elf2Efi.Elf.{Segment}
use loli_loader.Elf2Efi.Pe.{section_header}
use loli_loader.Elf2Efi.Layout.{layout_of, layout_loop}
use loli_loader.Elf2Efi.Output.{Output}
use loli_loader.Elf2Efi.Output.Extended.{
  extended, extended-extended, extended-nil, write_chunk_lem, write_padding-extended,
}
use loli_loader.Elf2Efi.Sections.{
  section_name, unsigned_text, segment_header, section_headers, write_section, write_sections,
}
use loli_loader.Elf2Efi.Sections.Read.{
  padded, AreRead, aligned_size, length-padded, section_header-fields, read_section_lem,
}

-- What each segment's section holds, and its size.
abbrev pub section_data : List Segment → List (Bytes × ℕ)
section_data = map (λ (s : Segment). (s.contents.raw_data, s.filesize))

-- The part of a segment that goes to the file is in its block.
abbrev pub AreStored : List Segment → Type 0
AreStored [] = Unit
AreStored (s ∷ rest) = (s.filesize ≤ length s.contents.raw_data) × AreStored rest

-- A bound on the size of the sections in the file.
abbrev pub extent : List Segment → ℕ
extent [] = 0
extent (s ∷ rest) = s.filesize + 512 + extent rest

abbrev pub sections_bytes : List Segment → Bytes
sections_bytes [] = []
sections_bytes (s ∷ rest) = padded s.contents.raw_data s.filesize ++ sections_bytes rest

-- The headers' bytes, for sections from `offset` on.
abbrev pub headers_bytes : (ℕ → ℕ) → ℕ → ℕ → ℕ → List Segment → Bytes
headers_bytes dirt base i offset [] = []
headers_bytes dirt base i offset (s ∷ rest) =
    section_header (segment_header dirt base i s (layout_of offset s.filesize 512))
    ++ headers_bytes dirt base (suc i) (offset + align_up s.filesize 512) rest

length-section_name : (dirt : ℕ → ℕ) (i : ℕ) → length (section_name dirt i) ≡ 8
unfolding section_name
length-section_name dirt i =
    let text = take 8 (codes ".seg" ++ unsigned_text 10 (i % 2 ^ 32)) in
    length-take_le 8 (text ++ 0 ∷ fresh dirt 8)
      (omega (arith, length-append text (0 ∷ fresh dirt 8), length-fresh dirt 8))

-- The size of a layout.
pub layout-size :
    (offset size : ℕ) → size < 2 ^ 32 - 512 → (layout_of offset size 512).size ≡ align_up size 512
unfolding layout_of
layout-size offset size h = let (_, high, _) = aligned_size size (omega arith) in omega arith

-- The header of a segment's section has a name of 8 bytes, the size of its layout, and a place below
-- 2 ^ 32.
header-IsSound :
    (dirt : ℕ → ℕ) (base i offset : ℕ) (s : Segment)
    → s.filesize < 2 ^ 32 - 512
    → offset < 2 ^ 32
    → (length (segment_header dirt base i s (layout_of offset s.filesize 512)).name ≡ 8)
      × ((segment_header dirt base i s (layout_of offset s.filesize 512)).size_of_raw_data
          ≡ align_up s.filesize 512)
      × ((segment_header dirt base i s (layout_of offset s.filesize 512)).pointer_to_raw_data
          < 2 ^ 32)
unfolding segment_header layout_of
header-IsSound dirt base i offset s h o =
    let (_, high, _) = aligned_size s.filesize (omega arith) in
    (length-section_name dirt i, omega arith, ground arith)

header-length :
    (dirt : ℕ → ℕ) (base i offset : ℕ) (s : Segment)
    → s.filesize < 2 ^ 32 - 512
    → offset < 2 ^ 32
    → length (section_header (segment_header dirt base i s (layout_of offset s.filesize 512))) ≡ 40
header-length dirt base i offset s h o =
    let (n, z, p) = header-IsSound dirt base i offset s h o in
    let (_, high, _) = aligned_size s.filesize (omega arith) in
    (section_header-fields (segment_header dirt base i s (layout_of offset s.filesize 512)) n
      (omega arith) p).0

pub write_section_lem :
    (raw : Bytes) (size offset : ℕ) (fp : Output)
    → size ≤ length raw
    → size < 2 ^ 32 - 512
    → size + 512 ≤ fp.room
    → write_section raw size (layout_of offset size 512) fp ≡ done (extended fp (padded raw size))
unfolding write_section
write_section_lem raw size offset fp l h r =
    let (low, high, _) = aligned_size size (omega arith) in
    let z : (align_up size 512 + 2 ^ 64 - size) % 2 ^ 64 ≡ align_up size 512 - size = omega arith in
    rw (layout-size offset size h, z, write_chunk_lem fp raw size l (omega arith))
      (write_padding-extended (extended fp (take size raw)) (align_up size 512 - size)
          (omega (arith, length-take_le size raw l))
        ∙ ap (λ o. done o)
            (extended-extended fp (take size raw) (replicate (align_up size 512 - size) 0)))

pub next-offset :
    (offset size : ℕ)
    → size < 2 ^ 32 - 512
    → offset + size + 512 < 2 ^ 32
    → (offset + (layout_of offset size 512).size) % 2 ^ 32 ≡ offset + align_up size 512
next-offset offset size h o =
    let (low, high, _) = aligned_size size (omega arith) in omega (arith, layout-size offset size h)

pub write_sections_lem :
    (segments : List Segment) (offset size : ℕ) (has : Bool) (fp : Output)
    → AreStored segments
    → offset + extent segments < 2 ^ 32
    → extent segments ≤ fp.room
    → write_sections segments (layout_loop offset segments has size 512) fp
      ≡ done (extended fp (sections_bytes segments))
unfolding write_sections layout_loop
write_sections_lem [] offset size has fp st h r = ap (λ o. done o) (sym (extended-nil fp))
write_sections_lem (s ∷ rest) offset size has fp st h r =
    let raw = s.contents.raw_data in
    let (low, high, _) = aligned_size s.filesize (omega arith) in
    let next = extended fp (padded raw s.filesize) in
    rw
      (
        write_section_lem raw s.filesize offset fp st.0 (omega arith) (omega arith),
        next-offset offset s.filesize (omega arith) (omega arith),
        write_sections_lem rest (offset + align_up s.filesize 512) size has next st.1 (omega arith)
            (omega (arith, length-padded raw s.filesize (omega arith) st.0)),
      )
      (ap (λ o. done o) (extended-extended fp (padded raw s.filesize) (sections_bytes rest)))

pub section_headers_lem :
    (dirt : ℕ → ℕ) (base i : ℕ) (segments : List Segment) (offset size : ℕ) (has : Bool)
    (fp : Output)
    → offset + extent segments < 2 ^ 32
    → 40 * length segments ≤ fp.room
    → section_headers dirt base i segments (layout_loop offset segments has size 512) fp
      ≡ done (extended fp (headers_bytes dirt base i offset segments))
unfolding section_headers layout_loop
section_headers_lem dirt base i [] offset size has fp h r = ap (λ o. done o) (sym (extended-nil fp))
section_headers_lem dirt base i (s ∷ rest) offset size has fp h r =
    let (low, high, _) = aligned_size s.filesize (omega arith) in
    let head = section_header (segment_header dirt base i s (layout_of offset s.filesize 512)) in
    let len = header-length dirt base i offset s (omega arith) (omega arith) in
    let whole : take 40 head ≡ head = take_all head 40 (omega (arith, len)) in
    rw
      (
        write_chunk_lem fp head 40 (omega (arith, len)) (omega arith),
        whole,
        next-offset offset s.filesize (omega arith) (omega arith),
        section_headers_lem dirt base (suc i) rest (offset + align_up s.filesize 512) size has
            (extended fp head) (omega arith) (omega (arith, len)),
      )
      (ap (λ o. done o)
        (extended-extended fp head
          (headers_bytes dirt base (suc i) (offset + align_up s.filesize 512) rest)))

pub length-headers_bytes :
    (dirt : ℕ → ℕ) (base i offset : ℕ) (segments : List Segment)
    → offset + extent segments < 2 ^ 32
    → length (headers_bytes dirt base i offset segments) ≡ 40 * length segments
length-headers_bytes dirt base i offset [] h = refl
length-headers_bytes dirt base i offset (s ∷ rest) h =
    let (low, high, _) = aligned_size s.filesize (omega arith) in
    let next = offset + align_up s.filesize 512 in
    omega (
      arith,
      length-append
          (section_header (segment_header dirt base i s (layout_of offset s.filesize 512)))
          (headers_bytes dirt base (suc i) next rest),
      header-length dirt base i offset s (omega arith) (omega arith),
      length-headers_bytes dirt base (suc i) next rest (omega arith),
    )

pub length-sections_bytes :
    (segments : List Segment)
    → AreStored segments
    → extent segments < 2 ^ 32
    → (length (sections_bytes segments) ≤ extent segments)
      × (length (sections_bytes segments) % 512 ≡ 0)
length-sections_bytes [] st h = (omega arith, refl)
length-sections_bytes (s ∷ rest) st h =
    let (low, high, al) = aligned_size s.filesize (omega arith) in
    let (a, b) = length-sections_bytes rest st.1 (omega arith) in
    let l = length-padded s.contents.raw_data s.filesize (omega arith) st.0 in
    let e = length-append (padded s.contents.raw_data s.filesize) (sections_bytes rest) in
    (omega (arith, e, l, a), omega (arith, e, l, al, b))

no_padding : replicate (align_up 0 512 - 0) 0 ≡ []
unfolding replicate align_up align_down
no_padding = refl

pointed :
    (dirt : ℕ → ℕ) (base i offset : ℕ) (s : Segment) (file rest : Bytes)
    → s.filesize < 2 ^ 32 - 512
    → drop offset file ≡ padded s.contents.raw_data s.filesize ++ rest
    → (after : Bytes) × (drop
          (segment_header dirt base i s (layout_of offset s.filesize 512)).pointer_to_raw_data
          file
        ≡ padded s.contents.raw_data s.filesize ++ after)
unfolding segment_header layout_of
pointed dirt base i offset s file rest h d = elim (ℕ_discrete s.filesize 0) [
  | yes empty ↦ (file, rw (empty, no_padding) refl)
  | no full ↦ (rest, rw (==_false s.filesize 0 full) d)
]

-- In a file that has the headers of these segments at `pos` and their data at `offset`, the headers lead
-- to the data.
pub segments-AreRead :
    (dirt : ℕ → ℕ) (base i pos offset : ℕ) (segments : List Segment) (file more rest : Bytes)
    → AreStored segments
    → offset + extent segments < 2 ^ 32
    → drop pos file ≡ headers_bytes dirt base i offset segments ++ more
    → drop offset file ≡ sections_bytes segments ++ rest
    → AreRead file pos (section_data segments)
segments-AreRead dirt base i pos offset [] file more rest st h e d = tt
segments-AreRead dirt base i pos offset (s ∷ segments) file more rest st h e d =
    let raw = s.contents.raw_data in
    let (low, high, _) = aligned_size s.filesize (omega arith) in
    let header = segment_header dirt base i s (layout_of offset s.filesize 512) in
    let next = offset + align_up s.filesize 512 in
    let others : Bytes = headers_bytes dirt base (suc i) next segments in
    let (n, z, p) = header-IsSound dirt base i offset s (omega arith) (omega arith) in
    let e' = e ∙ append_assoc (section_header header) others more in
    let d' = d ∙ append_assoc (padded raw s.filesize) (sections_bytes segments) rest in
    let (after, at) =
      pointed dirt base i offset s file (sections_bytes segments ++ rest) (omega arith) d' in
    (
      read_section_lem file pos header raw (others ++ more) after s.filesize n z p (omega arith)
          st.0 e' at,
      segments-AreRead dirt base (suc i) (pos + 40) next segments file more rest st.1 (omega arith)
          (sym (drop-drop 40 pos file)
            ∙ ap (drop 40) e'
            ∙ drop-append (section_header header) (others ++ more) 40
                (sym (header-length dirt base i offset s (omega arith) (omega arith))))
          (sym (drop-drop (align_up s.filesize 512) offset file)
            ∙ ap (drop (align_up s.filesize 512)) d'
            ∙ drop-append (padded raw s.filesize) (sections_bytes segments ++ rest)
                (align_up s.filesize 512) (sym (length-padded raw s.filesize (omega arith) st.0))),
    )
