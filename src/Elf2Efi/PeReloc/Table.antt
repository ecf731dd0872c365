-- ===== src/Elf2Efi/PeReloc/Table.antt =====
-- The base relocation table as a reader of PE files sees it: pages of addresses, and how they are read
-- back from the bytes.
use loli_loader.Base.{
  ℕ, zero, suc, ◌+◌, ◌-◌, ◌*◌, ◌/◌, ◌%◌, ◌^◌, ◌≤◌, ◌<◌, ◌≡◌, refl, sym, ap, ◌∙◌, ◌||◌, Option, none,
  some, List, [], ◌∷◌, ◌++◌, map, arith, ltb, ltb-false, ◌==◌, if◌then◌else◌, Bytes, length, take,
  drop, length-append, take-append, drop-append,
}
use mathlib.Core.List.{append_assoc}
use loli_loader.Elf2Efi.{to_le, le, field}
use loli_loader.Elf2Efi.Block.{le-to_le4}

infixl 5 ◌>>=◌
abbrev ◌>>=◌ {ℓ κ} : {A : Type ℓ} {B : Type κ} → Option A → (A → Option B) → Option B
none >>= f = none
some a >>= f = f a

-- The addresses of a block's entries, all of type IMAGE_REL_BASED_DIR64, from the address of its page.
unfoldable pub read_entries : ℕ → Bytes → Option (List ℕ)
read_entries rva [] = some []
read_entries rva (a ∷ []) = none
read_entries rva (a ∷ b ∷ s) = do
  rest ← read_entries rva s
  if (a + 256 * b) / 4096 == 10 then some ((rva + (a + 256 * b) % 4096) ∷ rest) else none

-- The addresses of a table: a block is its page's address, its size and its entries.
unfoldable pub read_table : ℕ → Bytes → Option (List ℕ)
unfolding read_entries
read_table fuel [] = some []
read_table zero (c ∷ s) = none
read_table (suc fuel) (c ∷ s) =
    let size = field 4 4 (c ∷ s) in
    let rest = read_table fuel (drop size (c ∷ s)) in
    if ltb size 8 || ltb (length (c ∷ s)) size then none else (do
      here ← read_entries (field 0 4 (c ∷ s)) (take (size - 8) (drop 8 (c ∷ s)))
      others ← rest
      some (here ++ others))

pub record Page : Type 0 where
  pub rva : ℕ
  pub offsets : List ℕ

abbrev pub entry : ℕ → Bytes
entry o = to_le 2 (40960 + o)

abbrev pub entries : List ℕ → Bytes
entries [] = []
entries (o ∷ os) = entry o ++ entries os

abbrev pub page_bytes : Page → Bytes
page_bytes p = to_le 4 p.rva ++ to_le 4 (length p.offsets * 2 + 8) ++ entries p.offsets

abbrev pub table_bytes : List Page → Bytes
table_bytes [] = []
table_bytes (p ∷ ps) = page_bytes p ++ table_bytes ps

abbrev pub addresses : List Page → List ℕ
addresses [] = []
addresses (p ∷ ps) = map (λ o. p.rva + o) p.offsets ++ addresses ps

abbrev pub AreOffsets : List ℕ → Type 0
AreOffsets [] = Unit
AreOffsets (o ∷ os) = (o < 4096) × AreOffsets os

abbrev pub ArePages : List Page → Type 0
ArePages [] = Unit
ArePages (p ∷ ps) =
    (p.rva < 2 ^ 32) × (length p.offsets < 2 ^ 30) × AreOffsets p.offsets × ArePages ps

pub length-entries : (os : List ℕ) → length (entries os) ≡ 2 * length os
unfolding to_le
length-entries [] = refl
length-entries (o ∷ os) = omega (arith, length-entries os)

pub entries-append : (os ps : List ℕ) → entries (os ++ ps) ≡ entries os ++ entries ps
unfolding to_le
entries-append [] ps = refl
entries-append (o ∷ os) ps =
    ap (λ t. (40960 + o) % 256 ∷ (40960 + o) / 256 % 256 ∷ t) (entries-append os ps)

pub table_bytes-append :
    (ps qs : List Page) → table_bytes (ps ++ qs) ≡ table_bytes ps ++ table_bytes qs
table_bytes-append [] qs = refl
table_bytes-append (p ∷ ps) qs =
    ap (λ t. page_bytes p ++ t) (table_bytes-append ps qs)
    ∙ sym (append_assoc (page_bytes p) (table_bytes ps) (table_bytes qs))

pub addresses-append : (ps qs : List Page) → addresses (ps ++ qs) ≡ addresses ps ++ addresses qs
addresses-append [] qs = refl
addresses-append (p ∷ ps) qs =
    ap (λ t. map (λ o. p.rva + o) p.offsets ++ t) (addresses-append ps qs)
    ∙ sym (append_assoc (map (λ o. p.rva + o) p.offsets) (addresses ps) (addresses qs))

read_entries-entries :
    (rva : ℕ) (os : List ℕ)
    → AreOffsets os
    → read_entries rva (entries os) ≡ some (map (λ o. rva + o) os)
unfolding read_entries to_le
read_entries-entries rva [] h = refl
read_entries-entries rva (o ∷ os) h =
    let (t, l) = raw o h.0 in rw (read_entries-entries rva os h.1, t, l) refl
  where
    raw :
        (o : ℕ)
        → o < 4096
        → (((40960 + o) % 256 + 256 * ((40960 + o) / 256 % 256)) / 4096 ≡ 10)
          × (((40960 + o) % 256 + 256 * ((40960 + o) / 256 % 256)) % 4096 ≡ o)
    raw o h = (omega arith, omega arith)

read_table-block :
    (fuel x0 x1 x2 x3 x4 x5 x6 x7 rva size : ℕ) (body rest : Bytes) (here others : List ℕ)
    → le (x0 ∷ x1 ∷ x2 ∷ x3 ∷ []) ≡ rva
    → le (x4 ∷ x5 ∷ x6 ∷ x7 ∷ []) ≡ size
    → size ≡ length body + 8
    → read_entries rva body ≡ some here
    → read_table fuel rest ≡ some others
    → read_table (suc fuel) (x0 ∷ x1 ∷ x2 ∷ x3 ∷ x4 ∷ x5 ∷ x6 ∷ x7 ∷ (body ++ rest))
      ≡ some (here ++ others)
unfolding read_table
read_table-block fuel x0 x1 x2 x3 x4 x5 x6 x7 rva size body rest here others r s e h o =
    let long =
      ltb-false (length (x0 ∷ x1 ∷ x2 ∷ x3 ∷ x4 ∷ x5 ∷ x6 ∷ x7 ∷ (body ++ rest))) (length body + 8)
        (omega (arith, length-append body rest)) in
    let low = ltb-false (length body + 8) 8 (omega arith) in
    let minus : length body + 8 - 8 ≡ length body = omega arith in
    let plus : length body + 8 ≡ suc (suc (suc (suc (suc (suc (suc (suc (length body)))))))) =
      omega arith in
    rw
      (
        s,
        r,
        e,
        low,
        long,
        minus,
        plus,
        take-append body rest (length body) refl,
        drop-append body rest (length body) refl,
        h,
        o,
      )
      refl

read_table-page :
    (fuel : ℕ) (p : Page) (rest : Bytes) (others : List ℕ)
    → p.rva < 2 ^ 32
    → length p.offsets < 2 ^ 30
    → AreOffsets p.offsets
    → read_table fuel rest ≡ some others
    → read_table (suc fuel) (page_bytes p ++ rest) ≡ some (map (λ o. p.rva + o) p.offsets ++ others)
unfolding to_le
read_table-page fuel p rest others hr hn ho o =
    let n = length p.offsets * 2 + 8 in
    read_table-block fuel _ _ _ _ _ _ _ _ p.rva n (entries p.offsets) rest _ others
      (le-to_le4 p.rva hr) (le-to_le4 n (omega arith)) (omega (arith, length-entries p.offsets))
      (read_entries-entries p.rva p.offsets ho) o

-- A table is read back as the addresses of its pages.
pub read_table-table_bytes :
    (fuel : ℕ) (ps : List Page)
    → ArePages ps
    → length ps ≤ fuel
    → read_table fuel (table_bytes ps) ≡ some (addresses ps)
unfolding read_table
read_table-table_bytes fuel [] h l = refl
read_table-table_bytes zero (p ∷ ps) h l = absurd (omega arith)
read_table-table_bytes (suc fuel) (p ∷ ps) (hr, hn, ho, hs) l =
    read_table-page fuel p (table_bytes ps) (addresses ps) hr hn ho
      (read_table-table_bytes fuel ps hs (omega arith))
