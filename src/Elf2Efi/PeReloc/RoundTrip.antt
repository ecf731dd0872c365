-- ===== src/Elf2Efi/PeReloc/RoundTrip.antt =====
-- The table that `create_pe_reloc` builds is read back as the relocated addresses.
use loli_loader.Base.{
  ℕ, suc, ◌+◌, ◌-◌, ◌%◌, ◌^◌, ◌≤◌, ◌<◌, ◌≡◌, refl, sym, ap, ◌∙◌, List, [], ◌∷◌, ◌++◌, arith,
  ltb-false, lt→ltb, ==_false, length, length-append, dec_lt, map, subst, length-take_le,
}
use mathlib.Core.List.{append_assoc, append-nil, map-append}
use loli_loader.Elf2Efi.{done, to_le, align_down}
use loli_loader.Elf2Efi.Executable.{ExecReloc}
use loli_loader.Elf2Efi.Buffer.{DynamicBuffer, buffer_append}
use loli_loader.Elf2Efi.Buffer.Append.{content, IsBuffer}
use loli_loader.Elf2Efi.PeReloc.{RelocState, new_block, add_reloc, block_bytes, pe32_base_reloc_raw}
use loli_loader.Elf2Efi.PeReloc.Steps.{
  IsState, IsState-length, with_offset, add_entry, backfill_lem, open_page,
}
use loli_loader.Elf2Efi.PeReloc.Table.{
  Page, AreOffsets, ArePages, table_bytes, addresses, addresses-append,
}

abbrev pub built : List Page → Page → List ℕ
built ps p = addresses ps ++ map (λ o. p.rva + o) p.offsets

-- What stands after some relocations, the last one at `low`: the addresses `found`, in at most `n` bytes.
pub record Built (base low n : ℕ) (s : RelocState) (found : List ℕ) : Type 0 where
  pub pages : List Page
  pub page : Page
  pub state : IsState base s pages page n
  pub aligned : page.rva % 4096 ≡ 0
  pub below : s.block_vaddr ≤ low
  pub entered : 0 < s.block_entries
  pub rva_fits : page.rva < 2 ^ 32
  pub are_pages : ArePages pages
  pub are_offsets : AreOffsets page.offsets
  pub addresses_eq : built pages page ≡ found

-- What is asked of a relocation: it stands from `low` on, within 4 GiB behind the base.
abbrev pub InRange : ℕ → ℕ → ℕ → Type 0
InRange base low vaddr = (low ≤ vaddr) × (base ≤ vaddr) × (vaddr < base + 2 ^ 32) × (vaddr < 2 ^ 64)

-- The relocations ascend.
abbrev pub AreInRange : ℕ → ℕ → List ExecReloc → Type 0
AreInRange base low [] = Unit
AreInRange base low (r ∷ rs) =
    (low ≤ r.vaddr)
    × (base ≤ r.vaddr)
    × (r.vaddr < base + 2 ^ 32)
    × (r.vaddr < 2 ^ 64)
    × AreInRange base r.vaddr rs

AreOffsets-snoc : (os : List ℕ) (o : ℕ) → AreOffsets os → o < 4096 → AreOffsets (os ++ o ∷ [])
AreOffsets-snoc [] o h l = (l, tt)
AreOffsets-snoc (x ∷ os) o h l = (h.0, AreOffsets-snoc os o h.1 l)

pub ArePages-snoc :
    (ps : List Page) (p : Page)
    → ArePages ps
    → p.rva < 2 ^ 32
    → length p.offsets < 2 ^ 30
    → AreOffsets p.offsets
    → ArePages (ps ++ p ∷ [])
ArePages-snoc [] p h r n o = (r, n, o, tt)
ArePages-snoc (q ∷ ps) p (a, b, c, d) r n o = (a, b, c, ArePages-snoc ps p d r n o)

pub addresses-close : (ps : List Page) (p : Page) → addresses (ps ++ p ∷ []) ≡ built ps p
addresses-close ps p =
    addresses-append ps (p ∷ [])
    ∙ ap (λ t. addresses ps ++ t) (append-nil (map (λ o. p.rva + o) p.offsets))

built-with_offset :
    (ps : List Page) (p : Page) (o : ℕ)
    → built ps (with_offset p o) ≡ built ps p ++ (p.rva + o) ∷ []
built-with_offset ps p o =
    ap (λ t. addresses ps ++ t) (map-append (λ o. p.rva + o) p.offsets (o ∷ []))
    ∙ sym (append_assoc (addresses ps) (map (λ o. p.rva + o) p.offsets) ((p.rva + o) ∷ []))

-- The entry of an address of the current page.
enter :
    (dirt : ℕ → ℕ) (base vaddr n : ℕ) (s : RelocState) (ps : List Page) (p : Page)
    → IsState base s ps p n
    → n < 2 ^ 31
    → p.rva % 4096 ≡ 0
    → p.rva < 2 ^ 32
    → ArePages ps
    → AreOffsets p.offsets
    → s.block_vaddr ≤ vaddr
    → vaddr < s.block_vaddr + 4096
    → vaddr < 2 ^ 64
    → (b : DynamicBuffer) × (buffer_append dirt s.buf
          (to_le 2 (pe32_base_reloc_raw 10 ((vaddr + 2 ^ 64 - s.block_vaddr) % 2 ^ 64)))
        ≡ done b)
      × Built base vaddr
          (n + 2)
          (record s { buf = b; block_entries = suc s.block_entries })
          (built ps p ++ (vaddr - base) ∷ [])
enter dirt base vaddr n s ps p h hn al rf hp ho low high big =
    let o = vaddr - s.block_vaddr in
    let sum : s.block_vaddr + o ≡ vaddr = omega arith in
    let (b, e, ib, c, z) = add_entry dirt base s ps p n o h hn (omega arith) (omega arith) in
    let place : p.rva + o ≡ vaddr - base = omega (arith, h.vaddr_eq) in
    (
      b,
      subst
          (λ v.
            buffer_append dirt s.buf
              (to_le 2 (pe32_base_reloc_raw 10 ((v + 2 ^ 64 - s.block_vaddr) % 2 ^ 64)))
            ≡ done b)
          sum e,
      record {
        pages = ps;
        page = with_offset p o;
        state = record {
          is_buffer = ib;
          content_eq = c;
          offset_eq = h.offset_eq;
          entries_eq = omega (arith, h.entries_eq, length-append p.offsets (o ∷ []));
          vaddr_eq = h.vaddr_eq;
          size = omega (arith, z, h.size);
          allocated = omega (arith, z, ib.fits);
        };
        aligned = al;
        below = low;
        entered = omega arith;
        rva_fits = rf;
        are_pages = hp;
        are_offsets = AreOffsets-snoc p.offsets o ho (omega arith);
        addresses_eq = built-with_offset ps p o ∙ ap (λ x. built ps p ++ x ∷ []) place;
      },
    )

-- The state at the head of a page that is opened behind complete blocks.
opened :
    (dirt : ℕ → ℕ) (base n lower : ℕ) (b : DynamicBuffer) (ps : List Page)
    → IsBuffer b
    → b.effective_size ≤ n
    → n < 2 ^ 31
    → content b ≡ table_bytes ps
    → base ≤ lower
    → lower < base + 2 ^ 32
    → lower < 2 ^ 64
    → (b' : DynamicBuffer) × (buffer_append dirt b
          (block_bytes (record { rva = (lower + 2 ^ 64 - base) % 2 ^ 32; size = 0 }))
        ≡ done b')
      × IsState base
          (record {
            buf = b';
            block_offset = b.effective_size;
            block_vaddr = lower;
            block_entries = 0;
          })
          ps
          (record { rva = lower - base; offsets = [] })
          (n + 8)
opened dirt base n lower b ps h l hn c hb hf hw =
    let rva : (lower + 2 ^ 64 - base) % 2 ^ 32 ≡ lower - base = omega arith in
    let (b', e, ib, c', z) = open_page dirt b ps (lower - base) h (omega arith) c in
    (
      b',
      rw rva e,
      record {
        is_buffer = ib;
        content_eq = c';
        offset_eq =
            sym (length-take_le b.effective_size b.data_block (omega (arith, h.held, h.fits)))
            ∙ ap length c;
        entries_eq = refl;
        vaddr_eq = omega arith;
        size = omega (arith, z);
        allocated = omega (arith, z, ib.fits);
      },
    )

-- More room for the bytes, and the addresses under another name.
Built-weaken :
    {base low n : ℕ} {s : RelocState} {f g : List ℕ} (x k : ℕ)
    → n ≤ k
    → f ≡ g
    → Built base low n s (f ++ x ∷ [])
    → Built base low k s (g ++ x ∷ [])
Built-weaken x k h e b = record {
  pages = b.pages;
  page = b.page;
  state = record {
    is_buffer = b.state.is_buffer;
    content_eq = b.state.content_eq;
    offset_eq = b.state.offset_eq;
    entries_eq = b.state.entries_eq;
    vaddr_eq = b.state.vaddr_eq;
    size = omega (arith, b.state.size);
    allocated = b.state.allocated;
  };
  aligned = b.aligned;
  below = b.below;
  entered = b.entered;
  rva_fits = b.rva_fits;
  are_pages = b.are_pages;
  are_offsets = b.are_offsets;
  addresses_eq = b.addresses_eq ∙ ap (λ t. t ++ x ∷ []) e;
}

-- The page of an address above the base.
page_of :
    (base vaddr : ℕ)
    → base % 4096 ≡ 0
    → base ≤ vaddr
    → (base ≤ align_down vaddr 4096)
      × (align_down vaddr 4096 ≤ vaddr)
      × (vaddr < align_down vaddr 4096 + 4096)
      × ((align_down vaddr 4096 - base) % 4096 ≡ 0)
unfolding align_down
page_of base vaddr m h = (omega arith, omega arith, omega arith, omega arith)

-- A relocation behind complete blocks opens its page and joins it.
pub open_and_enter :
    (dirt : ℕ → ℕ) (base vaddr n : ℕ) (b : DynamicBuffer) (ps : List Page) (found : List ℕ)
    → base % 4096 ≡ 0
    → IsBuffer b
    → b.effective_size ≤ n
    → n + 8 < 2 ^ 31
    → content b ≡ table_bytes ps
    → ArePages ps
    → addresses ps ≡ found
    → InRange base 0 vaddr
    → (opened_buf : DynamicBuffer) × (buf : DynamicBuffer) × (buffer_append dirt b (
          block_bytes (record { rva = (align_down vaddr 4096 + 2 ^ 64 - base) % 2 ^ 32; size = 0 }))
        ≡ done opened_buf)
      × (buffer_append dirt opened_buf
            (to_le 2 (pe32_base_reloc_raw 10 ((vaddr + 2 ^ 64 - align_down vaddr 4096) % 2 ^ 64)))
          ≡ done buf)
      × Built base vaddr
          (n + 10)
          (record {
            buf = buf;
            block_offset = b.effective_size;
            block_vaddr = align_down vaddr 4096;
            block_entries = 1;
          })
          (found ++ (vaddr - base) ∷ [])
open_and_enter dirt base vaddr n b ps found m ib l hn c hp ha (_, hb, hf, hw) =
    let (lo, at, up, al) = page_of base vaddr m hb in
    let (b1, e1, state) =
      opened dirt base n (align_down vaddr 4096) b ps ib l (omega arith) c lo (omega arith)
        (omega arith) in
    let (b2, e2, done_state) =
      enter dirt base vaddr (n + 8) _ ps _ state hn al (omega arith) hp tt at up hw in
    let none_yet : built ps (record { rva = align_down vaddr 4096 - base; offsets = [] }) ≡ found =
      append-nil (addresses ps) ∙ ha in
    (b1, b2, e1, e2, Built-weaken (vaddr - base) (n + 10) (omega arith) none_yet done_state)

pub add_reloc_lem :
    (dirt : ℕ → ℕ) (base low n : ℕ) (s : RelocState) (found : List ℕ) (r : ExecReloc)
    → base % 4096 ≡ 0
    → Built base low n s found
    → n + 8 < 2 ^ 31
    → InRange base low r.vaddr
    → (s' : RelocState) × (add_reloc dirt base s r ≡ done s')
      × Built base r.vaddr (n + 10) s' (found ++ (r.vaddr - base) ∷ [])
unfolding add_reloc new_block
add_reloc_lem dirt base low n s found r m h hn (hl, hb, hf, hw) =
    let (lo, at, up, al) = page_of base r.vaddr m hb in
    elim (dec_lt s.block_vaddr (align_down r.vaddr 4096)) [
      | yes fresh_page ↦
          let (b0, e0, ib, c, z) = backfill_lem base s h.pages h.page n h.state (omega arith) in
          let closed =
            ArePages-snoc h.pages h.page h.are_pages h.rva_fits
              (omega (arith, IsState-length h.state, h.state.size)) h.are_offsets in
          let (b1, b2, e1, e2, w) =
            open_and_enter dirt base r.vaddr n b0 (h.pages ++ h.page ∷ []) found m ib
              (omega (arith, z, h.state.size)) hn c closed
              (addresses-close h.pages h.page ∙ h.addresses_eq) (omega arith, hb, hf, hw) in
          let taken = ==_false s.buf.allocated_size 0 (omega (arith, h.state.allocated)) in
          (_, rw (lt→ltb _ _ fresh_page, taken, e0, e1, e2) refl, w)
      | no same_page ↦
          let (b, e, w) =
            enter dirt base r.vaddr n s h.pages h.page h.state (omega arith) h.aligned h.rva_fits
              h.are_pages h.are_offsets (omega (arith, h.below)) (omega arith) hw in
          (
            _,
            rw (ltb-false s.block_vaddr (align_down r.vaddr 4096) (omega arith), e) refl,
            Built-weaken (r.vaddr - base) (n + 10) (omega arith) h.addresses_eq w,
          )
    ]
