-- ===== src/Elf2Efi/Sections/Read.antt =====
-- The section table and the sections' data, as a reader of PE files finds them.
use loli_loader.Base.{
  ℕ, ◌+◌, ◌-◌, ◌*◌, ◌%◌, ◌^◌, ◌≤◌, ◌<◌, ◌≡◌, refl, sym, ap, ◌∙◌, List, [], ◌∷◌, ◌++◌, arith, Bytes,
  length, take, drop, length-append, length-take_le, take-append, subst,
}
use loli_loader.Elf2Efi.{align_up, align_down, field, to_le, replicate}
use loli_loader.Elf2Efi.Block.{le-to_le4, length-replicate}
use loli_loader.Elf2Efi.Pe.{Pe32SectionHeader, section_header}

-- A section's data, with zeros up to a multiple of 512 bytes.
abbrev pub padded : Bytes → ℕ → Bytes
padded raw size = take size raw ++ replicate (align_up size 512 - size) 0

-- The raw data of the section whose header stands at `pos`: as many bytes as the header tells, from
-- where it tells.
abbrev pub read_section : Bytes → ℕ → Bytes
read_section file pos =
    let h = take 40 (drop pos file) in take (field 16 4 h) (drop (field 20 4 h) file)

-- The headers from `pos` on lead to the data of these sections, in turn.
abbrev pub AreRead : Bytes → ℕ → List (Bytes × ℕ) → Type 0
AreRead file pos [] = Unit
AreRead file pos (d ∷ ds) =
    (read_section file pos ≡ padded (d.0) (d.1)) × AreRead file (pos + 40) ds

pub AreRead-append :
    (file : Bytes) (pos end : ℕ) (xs ys : List (Bytes × ℕ))
    → end ≡ pos + 40 * length xs
    → AreRead file pos xs
    → AreRead file end ys
    → AreRead file pos (xs ++ ys)
AreRead-append file pos end [] ys e h k =
    let z : end ≡ pos = omega arith in subst (λ p. AreRead file p ys) z k
AreRead-append file pos end (x ∷ xs) ys e h k =
    (h.0, AreRead-append file (pos + 40) end xs ys (omega arith) h.1 k)

-- The size that a section takes in the file.
pub aligned_size :
    (size : ℕ)
    → size < 2 ^ 32
    → (size ≤ align_up size 512) × (align_up size 512 ≤ size + 511) × (align_up size 512 % 512 ≡ 0)
unfolding align_up align_down
aligned_size size h = (omega arith, omega arith, omega arith)

pub length-padded :
    (raw : Bytes) (size : ℕ)
    → size < 2 ^ 32
    → size ≤ length raw
    → length (padded raw size) ≡ align_up size 512
length-padded raw size h l =
    let (low, _, _) = aligned_size size h in
    omega (
      arith,
      length-append (take size raw) (replicate (align_up size 512 - size) 0),
      length-take_le size raw l,
      length-replicate (align_up size 512 - size) 0,
    )

eight :
    (s : Bytes)
    → length s ≡ 8
    → (a : ℕ) × (b : ℕ) × (c : ℕ) × (d : ℕ) × (e : ℕ) × (f : ℕ) × (g : ℕ) × (h : ℕ) × (s
        ≡ a ∷ b ∷ c ∷ d ∷ e ∷ f ∷ g ∷ h ∷ [])
eight (a ∷ b ∷ c ∷ d ∷ e ∷ f ∷ g ∷ h ∷ []) l = (a, b, c, d, e, f, g, h, refl)
eight _ l = absurd (omega arith)

-- Where a header tells the size and the place of its section's data.
pub section_header-fields :
    (h : Pe32SectionHeader)
    → length h.name ≡ 8
    → h.size_of_raw_data < 2 ^ 32
    → h.pointer_to_raw_data < 2 ^ 32
    → (length (section_header h) ≡ 40)
      × (field 16 4 (section_header h) ≡ h.size_of_raw_data)
      × (field 20 4 (section_header h) ≡ h.pointer_to_raw_data)
unfolding section_header to_le
section_header-fields h n s p =
    let (_, _, _, _, _, _, _, _, e) = eight h.name n in
    (rw e refl, rw e (le-to_le4 h.size_of_raw_data s), rw e (le-to_le4 h.pointer_to_raw_data p))

-- A header at `pos` leads to the data at its pointer.
pub read_section_lem :
    (file : Bytes) (pos : ℕ) (h : Pe32SectionHeader) (raw more rest : Bytes) (size : ℕ)
    → length h.name ≡ 8
    → h.size_of_raw_data ≡ align_up size 512
    → h.pointer_to_raw_data < 2 ^ 32
    → size < 2 ^ 32 - 512
    → size ≤ length raw
    → drop pos file ≡ section_header h ++ more
    → drop h.pointer_to_raw_data file ≡ padded raw size ++ rest
    → read_section file pos ≡ padded raw size
read_section_lem file pos h raw more rest size n s p b l e d =
    let (_, high, _) = aligned_size size (omega arith) in
    let (len, fs, fp) = section_header-fields h n (omega arith) p in
    let head : take 40 (drop pos file) ≡ section_header h =
      ap (take 40) e ∙ take-append (section_header h) more 40 (sym len) in
    rw (head, fs, fp, d, s)
      (take-append (padded raw size) rest (align_up size 512)
        (sym (length-padded raw size (omega arith) l)))
