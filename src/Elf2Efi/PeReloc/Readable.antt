-- ===== src/Elf2Efi/PeReloc/Readable.antt =====
-- The table of all relocations, read back by a reader of PE files.
use loli_loader.Base.{
  ℕ, suc, ◌+◌, ◌-◌, ◌*◌, ◌%◌, ◌^◌, ◌≤◌, ◌<◌, ◌≡◌, refl, sym, ap, ◌∙◌, some, List, [], ◌∷◌, ◌++◌,
  arith, lt→ltb, ==_false, Bytes, length, take, length-append, map, length-take_le, subst,
}
use mathlib.Core.List.{append_assoc, append-nil}
use loli_loader.Elf2Efi.{done, SizedData, align_down, to_le}
use loli_loader.Elf2Efi.Align.{align_down_lem}
use loli_loader.Elf2Efi.Block.{length-to_le}
use loli_loader.Elf2Efi.Executable.{ExecReloc}
use loli_loader.Elf2Efi.Buffer.{empty_dynamic_buffer}
use loli_loader.Elf2Efi.Buffer.Append.{empty-IsBuffer}
use loli_loader.Elf2Efi.PeReloc.{
  RelocState, start_state, new_block, add_reloc, add_relocs, create_pe_reloc,
}
use loli_loader.Elf2Efi.PeReloc.Steps.{IsState-length, backfill_lem}
use loli_loader.Elf2Efi.PeReloc.RoundTrip.{
  Built, AreInRange, ArePages-snoc, addresses-close, open_and_enter, add_reloc_lem,
}
use loli_loader.Elf2Efi.PeReloc.Table.{
  Page, entries, table_bytes, page_bytes, read_table, read_table-table_bytes,
}

-- The addresses from the base on.
abbrev pub rvas : ℕ → List ExecReloc → List ℕ
rvas base relocs = map (λ (r : ExecReloc). r.vaddr - base) relocs

add_relocs_lem :
    (dirt : ℕ → ℕ) (base low n : ℕ) (s : RelocState) (found : List ℕ) (rs : List ExecReloc)
    → base % 4096 ≡ 0
    → Built base low n s found
    → n + 10 * length rs < 2 ^ 31
    → AreInRange base low rs
    → (s' : RelocState) × (last : ℕ) × (add_relocs dirt base s rs ≡ done s')
      × Built base last (n + 10 * length rs) s' (found ++ rvas base rs)
unfolding add_relocs
add_relocs_lem dirt base low n s found [] m h hn hr =
    let e : n + 10 * 0 ≡ n = omega arith in (s, low, refl, rw (e, append-nil found) h)
add_relocs_lem dirt base low n s found (r ∷ rs) m h hn (hl, hb, hf, hw, hr) =
    let (s1, e1, h1) = add_reloc_lem dirt base low n s found r m h (omega arith) (hl, hb, hf, hw) in
    let (s2, last, e2, h2) =
      add_relocs_lem dirt base r.vaddr (n + 10) s1 (found ++ (r.vaddr - base) ∷ []) rs m h1
        (omega arith) hr in
    let size : n + 10 + 10 * length rs ≡ n + 10 * suc (length rs) = omega arith in
    (
      s2,
      last,
      rw (e1, e2) refl,
      retype size (append_assoc found ((r.vaddr - base) ∷ []) (rvas base rs)) h2,
    )
  where
    retype :
        {base last k k' : ℕ} {s : RelocState} {f g : List ℕ}
        → k ≡ k'
        → f ≡ g
        → Built base last k s f
        → Built base last k' s g
    retype {base} {last} {k} {s} {g} e e' h =
        subst (λ n. Built base last n s g) e (subst (λ t. Built base last k s t) e' h)

first_reloc :
    (dirt : ℕ → ℕ) (base : ℕ) (r : ExecReloc)
    → base % 4096 ≡ 0
    → 4096 ≤ r.vaddr
    → base ≤ r.vaddr
    → r.vaddr < base + 2 ^ 32
    → r.vaddr < 2 ^ 64
    → (s : RelocState) × (add_reloc dirt base start_state r ≡ done s)
      × Built base r.vaddr 10 s ((r.vaddr - base) ∷ [])
unfolding add_reloc new_block
first_reloc dirt base r m hl hb hf hw =
    let (b1, b2, e1, e2, w) =
      open_and_enter dirt base r.vaddr 0 empty_dynamic_buffer [] [] m empty-IsBuffer (omega arith)
        (omega arith) refl tt refl (omega arith, hb, hf, hw) in
    let (_, _, high) = align_down_lem r.vaddr 4096 (omega arith) in
    (_, rw (lt→ltb 0 (align_down r.vaddr 4096) (omega arith), e1, e2) refl, w)

length-table_bytes : (ps : List Page) → length ps ≤ length (table_bytes ps)
length-table_bytes [] = omega arith
length-table_bytes (p ∷ ps) =
    let head : Bytes = to_le 4 p.rva ++ to_le 4 (length p.offsets * 2 + 8) in
    omega (
      arith,
      length-append (page_bytes p) (table_bytes ps),
      length-append head (entries p.offsets),
      length-append (to_le 4 p.rva) (to_le 4 (length p.offsets * 2 + 8)),
      length-to_le 4 p.rva,
      length-table_bytes ps,
    )

-- On relocations in ascending order, from the address 4096 and from the base on, less than 4 GiB behind
-- the base and fewer than 2 ^ 27, with a base that is a multiple of 4096, create_pe_reloc returns
-- a table, which a reader of PE files reads as exactly the relocations' addresses from the base on,
-- in order.
pub create_pe_reloc-read :
    (dirt : ℕ → ℕ) (base : ℕ) (relocs : List ExecReloc)
    → base % 4096 ≡ 0
    → length relocs < 2 ^ 27
    → AreInRange base 4096 relocs
    → (d : SizedData) × (create_pe_reloc dirt base relocs ≡ done d)
      × (d.size ≤ length d.raw_data)
      × (read_table d.size (take d.size d.raw_data) ≡ some (rvas base relocs))
unfolding create_pe_reloc add_relocs read_table
create_pe_reloc-read dirt base [] m hn h = (_, refl, omega arith, refl)
create_pe_reloc-read dirt base (r ∷ rs) m hn (hl, hb, hf, hw, hr) =
    let (s1, e1, h1) = first_reloc dirt base r m hl hb hf hw in
    let (s2, last, e2, h2) =
      add_relocs_lem dirt base r.vaddr 10 s1 ((r.vaddr - base) ∷ []) rs m h1 (omega arith) hr in
    let (b, e3, ib, c, z) = backfill_lem base s2 h2.pages h2.page _ h2.state (omega arith) in
    let pages : List Page = h2.pages ++ h2.page ∷ [] in
    let closed =
      ArePages-snoc h2.pages h2.page h2.are_pages h2.rva_fits
        (omega (arith, IsState-length h2.state, h2.state.size)) h2.are_offsets in
    let size : length (table_bytes pages) ≡ b.effective_size =
      ap length (sym c)
      ∙ length-take_le b.effective_size b.data_block (omega (arith, ib.held, ib.fits)) in
    let some_entries = ==_false s2.block_entries 0 (omega (arith, h2.entered)) in
    (
      _,
      rw (e1, e2, some_entries, e3) refl,
      omega (arith, ib.held, ib.fits),
      ap (read_table b.effective_size) c
          ∙ read_table-table_bytes b.effective_size pages closed
              (omega (arith, length-table_bytes pages))
          ∙ ap some (addresses-close h2.pages h2.page ∙ h2.addresses_eq),
    )
