-- ===== src/Elf2Efi/PeReloc/Steps.antt =====
-- The building of the table, a relocation at a time: the buffer holds the complete blocks and then the
-- current one, whose size is not filled in.
use loli_loader.Base.{
  ℕ, ◌+◌, ◌-◌, ◌*◌, ◌%◌, ◌^◌, ◌≤◌, ◌<◌, ◌≡◌, refl, sym, ap, ◌∙◌, List, [], ◌∷◌, ◌++◌, arith, Bytes,
  length, length-take_le, length-append,
}
use mathlib.Core.List.{append_assoc, append-nil}
use loli_loader.Elf2Efi.{done, to_le}
use loli_loader.Elf2Efi.Block.{length-to_le, store_over}
use loli_loader.Elf2Efi.Buffer.{DynamicBuffer, buffer_append}
use loli_loader.Elf2Efi.Buffer.Append.{content, IsBuffer, buffer_append-Appended}
use loli_loader.Elf2Efi.PeReloc.{RelocState, backfill, pe32_base_reloc_raw, block_bytes}
use loli_loader.Elf2Efi.PeReloc.Raw.{pe32_base_reloc_raw_lem}
use loli_loader.Elf2Efi.PeReloc.Table.{
  Page, entry, entries, page_bytes, table_bytes, length-entries, entries-append, table_bytes-append,
}

-- The bytes of a table whose last block has the size 0.
abbrev pub open_table : List Page → Page → Bytes
open_table ps p = table_bytes ps ++ to_le 4 p.rva ++ to_le 4 0 ++ entries p.offsets

-- A buffer of at most `n` bytes with the complete blocks and the current one.
pub record IsState (base : ℕ) (s : RelocState) (ps : List Page) (p : Page) (n : ℕ) : Type 0 where
  pub is_buffer : IsBuffer s.buf
  pub content_eq : content s.buf ≡ open_table ps p
  pub offset_eq : s.block_offset ≡ length (table_bytes ps)
  pub entries_eq : s.block_entries ≡ length p.offsets
  pub vaddr_eq : s.block_vaddr ≡ base + p.rva
  pub size : s.buf.effective_size ≤ n
  pub allocated : 0 < s.buf.allocated_size

abbrev pub with_offset : Page → ℕ → Page
with_offset p o = record p { offsets = p.offsets ++ o ∷ [] }

-- An entry joins the current block.
pub add_entry :
    (dirt : ℕ → ℕ) (base : ℕ) (s : RelocState) (ps : List Page) (p : Page) (n o : ℕ)
    → IsState base s ps p n
    → n < 2 ^ 31
    → o < 4096
    → (s.block_vaddr + o < 2 ^ 64)
    → (b : DynamicBuffer) × (buffer_append dirt s.buf
          (to_le 2 (pe32_base_reloc_raw 10 ((s.block_vaddr + o + 2 ^ 64 - s.block_vaddr) % 2 ^ 64)))
        ≡ done b)
      × IsBuffer b
      × (content b ≡ open_table ps (with_offset p o))
      × (b.effective_size ≡ s.buf.effective_size + 2)
add_entry dirt base s ps p n o h hn ho hv =
    let off : (s.block_vaddr + o + 2 ^ 64 - s.block_vaddr) % 2 ^ 64 ≡ o = omega arith in
    let l = length-to_le 2 (40960 + o) in
    let (b, e, a) =
      buffer_append-Appended dirt s.buf (entry o) h.is_buffer (omega (arith, h.size, l)) in
    let front : Bytes = table_bytes ps ++ to_le 4 p.rva ++ to_le 4 0 in
    let tail : entry o ≡ entries (o ∷ []) = sym (append-nil (entry o)) in
    let whole : open_table ps p ++ entry o ≡ open_table ps (with_offset p o) =
      append_assoc front (entries p.offsets) (entry o)
      ∙ ap (λ t. front ++ (entries p.offsets ++ t)) tail
      ∙ ap (λ t. front ++ t) (sym (entries-append p.offsets (o ∷ []))) in
    (
      b,
      rw (off, pe32_base_reloc_raw_lem o ho) e,
      a.is_buffer,
      a.content_eq ∙ ap (λ t. t ++ entry o) h.content_eq ∙ whole,
      omega (arith, a.size_eq, l),
    )

length-open_table :
    (ps : List Page) (p : Page)
    → length (open_table ps p) ≡ length (table_bytes ps) + 8 + 2 * length p.offsets
length-open_table ps p =
    let front : Bytes = table_bytes ps ++ to_le 4 p.rva in
    omega (
      arith,
      length-append (front ++ to_le 4 0) (entries p.offsets),
      length-append front (to_le 4 0),
      length-append (table_bytes ps) (to_le 4 p.rva),
      length-to_le 4 p.rva,
      length-to_le 4 0,
      length-entries p.offsets,
    )

pub IsState-length :
    {base : ℕ} {s : RelocState} {ps : List Page} {p : Page} {n : ℕ}
    → IsState base s ps p n
    → s.buf.effective_size ≡ length (table_bytes ps) + 8 + 2 * length p.offsets
IsState-length {s} {ps} {p} h =
    sym (
      length-take_le s.buf.effective_size s.buf.data_block
        (omega (arith, h.is_buffer.held, h.is_buffer.fits)))
    ∙ ap length h.content_eq
    ∙ length-open_table ps p

close_page :
    (ps : List Page) (p : Page)
    → table_bytes ps ++ to_le 4 p.rva ++ to_le 4 (length p.offsets * 2 + 8) ++ entries p.offsets
      ≡ table_bytes (ps ++ p ∷ [])
close_page ps p =
    let size : Bytes = to_le 4 (length p.offsets * 2 + 8) in
    ap (λ t. t ++ entries p.offsets) (append_assoc (table_bytes ps) (to_le 4 p.rva) size)
    ∙ append_assoc (table_bytes ps) (to_le 4 p.rva ++ size) (entries p.offsets)
    ∙ ap (λ t. table_bytes ps ++ t) (sym (append-nil (page_bytes p)))
    ∙ sym (table_bytes-append ps (p ∷ []))

-- The size of the current block is filled in.
pub backfill_lem :
    (base : ℕ) (s : RelocState) (ps : List Page) (p : Page) (n : ℕ)
    → IsState base s ps p n
    → n < 2 ^ 31
    → (b : DynamicBuffer) × (backfill s ≡ done b)
      × IsBuffer b
      × (content b ≡ table_bytes (ps ++ p ∷ []))
      × (b.effective_size ≡ s.buf.effective_size)
unfolding backfill
backfill_lem base s ps p n h hn =
    let front : Bytes = table_bytes ps ++ to_le 4 p.rva in
    let size = length p.offsets * 2 + 8 in
    let at : s.block_offset + 4 ≡ length front =
      omega (
        arith,
        h.offset_eq,
        length-append (table_bytes ps) (to_le 4 p.rva),
        length-to_le 4 p.rva,
      ) in
    let small : (s.block_entries * 2 + 8) % 2 ^ 32 ≡ size =
      omega (arith, h.entries_eq, h.size, IsState-length h) in
    let (t, stored, len, c) =
      store_over s.buf.data_block front (to_le 4 0) (entries p.offsets) (to_le 4 size)
        s.buf.effective_size (omega (arith, h.is_buffer.held, h.is_buffer.fits)) h.content_eq
        (length-to_le 4 0 ∙ sym (length-to_le 4 size)) in
    (
      _,
      rw (at, small, stored) refl,
      record { held = len ∙ h.is_buffer.held; fits = h.is_buffer.fits; slack = h.is_buffer.slack },
      c ∙ close_page ps p,
      refl,
    )

-- A block's head is appended: a page with no entries yet.
pub open_page :
    (dirt : ℕ → ℕ) (b : DynamicBuffer) (ps : List Page) (rva : ℕ)
    → IsBuffer b
    → b.effective_size < 2 ^ 32
    → content b ≡ table_bytes ps
    → (b' : DynamicBuffer) × (buffer_append dirt b (block_bytes (record { rva = rva; size = 0 }))
        ≡ done b')
      × IsBuffer b'
      × (content b' ≡ open_table ps (record { rva = rva; offsets = [] }))
      × (b'.effective_size ≡ b.effective_size + 8)
unfolding block_bytes
open_page dirt b ps rva h l c =
    let head : Bytes = to_le 4 rva ++ to_le 4 0 in
    let n : length head ≡ 8 =
      omega
        (arith, length-append (to_le 4 rva) (to_le 4 0), length-to_le 4 rva, length-to_le 4 0) in
    let (b', e, a) = buffer_append-Appended dirt b head h (omega arith) in
    (
      b',
      e,
      a.is_buffer,
      a.content_eq
          ∙ ap (λ t. t ++ head) c
          ∙ sym (append_assoc (table_bytes ps) (to_le 4 rva) (to_le 4 0))
          ∙ sym (append-nil (table_bytes ps ++ to_le 4 rva ++ to_le 4 0)),
      omega (arith, a.size_eq, n),
    )
