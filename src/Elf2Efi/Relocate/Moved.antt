-- ===== src/Elf2Efi/Relocate/Moved.antt =====
-- The move of a segment keeps its bytes at their addresses, counted from the base.
use native.Mathlib.Nat.{mul-mod_left}
use loli_loader.Base.{
  ℕ, zero, suc, ◌+◌, ◌-◌, ◌/◌, ◌%◌, ◌^◌, ◌≤◌, ◌<◌, ◌≡◌, refl, sym, ap, ◌∙◌, some, List, [], ◌∷◌,
  ◌++◌, arith, Bytes, length, take, drop, length-append, take-append, take_all, drop_all,
  length-drop_add, ap₂, map, head_of, leb, Bool-cases, inl, inr,
}
use mathlib.Core.List.{append-nil}
use loli_loader.Elf2Efi.{done, divisor, align_down, align_up, store, replicate, fresh}
use loli_loader.Elf2Efi.Align.{align_down_lem}
use loli_loader.Elf2Efi.Block.{bytes_at_lem, store_lem, length-replicate, length-fresh}
use loli_loader.Elf2Efi.Elf.{Segment}
use loli_loader.Elf2Efi.Executable.{Executable}
use loli_loader.Elf2Efi.Relocate.{
  relocate_segment, relocate_segments, relocate_reloc, relocate_exec, advance_base,
  pe32plus_image_header_size,
}

-- The block of a segment has its size in memory, and the part for the file is in it.
pub record IsSegment (s : Segment) : Type 0 where
  pub held : length s.contents.raw_data ≡ s.memsize
  pub size : s.contents.size ≡ s.memsize
  pub fits : s.filesize ≤ s.memsize

-- A segment after its move: it starts at a multiple of its alignment, zeros stand before its old bytes,
-- which are where they were counted from the base, and so are its ends in the file and in memory.
pub record Moved (base : ℕ) (s t : Segment) : Type 0 where
  pub is_segment : IsSegment t
  pub aligned : t.vaddr % s.alignment ≡ 0
  pub below : t.vaddr ≤ s.vaddr + base
  pub bytes : t.contents.raw_data ≡ replicate (s.vaddr + base - t.vaddr) 0 ++ s.contents.raw_data
  pub file_end : t.vaddr + t.filesize ≡ s.vaddr + base + s.filesize
  pub memory_end : t.vaddr + t.memsize ≡ s.vaddr + base + s.memsize
  pub flags_eq : t.flags ≡ s.flags

divisor_done : (n : ℕ) → 0 < n → divisor n ≡ done tt
divisor_done zero h = absurd (omega arith)
divisor_done (suc n) h = refl

-- Zeros and then old bytes fill a new block.
filled :
    (dirt : ℕ → ℕ) (n o : ℕ) (raw : Bytes)
    → n ≡ length raw + o
    → (t : Bytes) × (store (fresh dirt n) 0 (replicate o 0) ≡ done t)
      × (store t o raw ≡ done (replicate o 0 ++ raw))
filled dirt n o raw e =
    let zeros = replicate o 0 in
    let lz = length-replicate o 0 in
    let lf = length-fresh dirt n in
    let rest = drop (0 + length zeros) (fresh dirt n) in
    let t : Bytes = zeros ++ rest in
    let lr : length t ≡ n = omega (
      arith,
      length-append zeros rest,
      length-drop_add (0 + length zeros) (fresh dirt n) (omega arith),
    ) in
    (
      t,
      store_lem (fresh dirt n) 0 zeros (omega arith),
      store_lem t o raw (omega arith)
          ∙ ap (λ r. done r)
              (ap₂ (λ (a c : Bytes). a ++ raw ++ c) (take-append zeros rest o (sym lz))
                  (drop_all t (o + length raw) (omega arith))
                ∙ append-nil (replicate o 0 ++ raw)),
    )

relocate_segment_lem :
    (dirt : ℕ → ℕ) (base : ℕ) (s : Segment)
    → IsSegment s
    → 0 < s.alignment
    → s.alignment < 2 ^ 32
    → s.vaddr + base + s.memsize < 2 ^ 64
    → (t : Segment) × (relocate_segment dirt base s ≡ done t) × Moved base s t
unfolding relocate_segment
relocate_segment_lem dirt base s h pos small fit =
    let v = s.vaddr + base in
    let (mult, low, high) = align_down_lem v s.alignment pos in
    let a = align_down v s.alignment in
    let o = v - a in
    let ev : (s.vaddr + base) % 2 ^ 64 ≡ v = omega arith in
    let eo : (v - a) % 2 ^ 32 ≡ o = omega arith in
    let em : (s.memsize + o) % 2 ^ 64 ≡ s.memsize + o = omega arith in
    let ef : (s.filesize + o) % 2 ^ 64 ≡ s.filesize + o = omega (arith, h.fits) in
    let raw = s.contents.raw_data in
    let (t, e1, e2) = filled dirt (s.memsize + o) o raw (omega (arith, h.held)) in
    let whole : take s.memsize (drop 0 raw) ≡ raw =
      take_all raw s.memsize (omega (arith, h.held)) in
    let l = length-append (replicate o 0) raw in
    let lz = length-replicate o 0 in
    (
      record s {
        vaddr = a;
        filesize = s.filesize + o;
        memsize = s.memsize + o;
        contents = record {
          raw_data = replicate o 0 ++ raw;
          size = (s.contents.size + o) % 2 ^ 64;
        };
      },
      rw
          (
            ev,
            divisor_done s.alignment pos,
            eo,
            em,
            e1,
            bytes_at_lem raw 0 s.memsize (omega (arith, h.held)),
            whole,
            e2,
            ef,
          )
          refl,
      record {
        is_segment = record {
          held = omega (arith, h.held);
          size = omega (arith, h.size);
          fits = omega (arith, h.fits);
        };
        aligned = ap (λ x. x % s.alignment) mult ∙ mul-mod_left (v / s.alignment) s.alignment;
        below = low;
        bytes = refl;
        file_end = omega (arith, h.fits);
        memory_end = omega arith;
        flags_eq = refl;
      },
    )

-- Each segment is moved in turn.
abbrev pub AllMoved : ℕ → List Segment → List Segment → Type 0
AllMoved base [] [] = Unit
AllMoved base (s ∷ ss) (t ∷ ts) = Moved base s t × AllMoved base ss ts
AllMoved base [] (t ∷ ts) = ⊥
AllMoved base (s ∷ ss) [] = ⊥

-- The segments can be moved by `base`: their alignments are positive 32-bit numbers, and their ends
-- stay below 2 ^ 64.
abbrev pub AreMovable : ℕ → List Segment → Type 0
AreMovable base [] = Unit
AreMovable base (s ∷ rest) =
    IsSegment s
    × (0 < s.alignment)
    × (s.alignment < 2 ^ 32)
    × (s.vaddr + base + s.memsize < 2 ^ 64)
    × AreMovable base rest

relocate_segments_lem :
    (dirt : ℕ → ℕ → ℕ) (base i : ℕ) (segments : List Segment)
    → AreMovable base segments
    → (moved : List Segment) × (relocate_segments dirt base i segments ≡ done moved)
      × AllMoved base segments moved
unfolding relocate_segments
relocate_segments_lem dirt base i [] h = ([], refl, tt)
relocate_segments_lem dirt base i (s ∷ rest) (h, pos, small, fit, more) =
    let (t, e, m) = relocate_segment_lem (dirt i) base s h pos small fit in
    let (ts, e', ms) = relocate_segments_lem dirt base (suc i) rest more in
    (t ∷ ts, rw (e, e') refl, (m, ms))

-- A smaller base.
AreMovable-le :
    (b c : ℕ) (segments : List Segment) → b ≤ c → AreMovable c segments → AreMovable b segments
AreMovable-le b c [] le h = tt
AreMovable-le b c (s ∷ rest) le (h, pos, small, fit, more) =
    (h, pos, small, omega arith, AreMovable-le b c rest le more)

-- The base that is used: at most 2 ^ 32 more, and with room for the headers before a first segment that
-- starts within their size.
advance_base_lem :
    (exec : Executable) (first base : ℕ)
    → 0 < exec.executable_alignment
    → base + 2 ^ 32 < 2 ^ 64
    → (b : ℕ) × (advance_base exec first base ≡ done b) × (base ≤ b) × (b < base + 2 ^ 32)
unfolding advance_base
advance_base_lem exec first base pos fit =
    elim (Bool-cases (leb first (pe32plus_image_header_size (length exec.segments + 1)))) [
      | inl low ↦
          let o =
            align_up (pe32plus_image_header_size (length exec.segments + 1))
              exec.executable_alignment
            % 2 ^ 32 in
          let e : (base + o) % 2 ^ 64 ≡ base + o = omega arith in
          (
            base + o,
            rw (low, divisor_done exec.executable_alignment pos, e) refl,
            omega arith,
            omega arith,
          )
      | inr high ↦ (base, rw high refl, omega arith, omega arith)
    ]

-- If the executable has a segment, its alignment is positive, and its segments are well formed, with
-- positive 32-bit alignments and ends that stay below 2 ^ 64 even 4 GiB above the base, then
-- relocate_exec moves all segments, the entry and the relocations by one number, the base or less than
-- 4 GiB more: each segment then starts at a multiple of its alignment, with zeros and then its old
-- bytes, at their addresses moved by this number.
pub relocate_exec-AllMoved :
    (dirt : ℕ → ℕ → ℕ) (exec : Executable) (base : ℕ)
    → 0 < length exec.segments
    → 0 < exec.executable_alignment
    → base + 2 ^ 32 < 2 ^ 64
    → AreMovable (base + 2 ^ 32) exec.segments
    → (b : ℕ) × (moved : List Segment) × (relocate_exec dirt exec base
        ≡ done (record exec {
          entry_addr = (exec.entry_addr + b) % 2 ^ 64;
          segments = moved;
          relocs = map (relocate_reloc b) exec.relocs;
        }))
      × (base ≤ b)
      × (b < base + 2 ^ 32)
      × AllMoved b exec.segments moved
unfolding relocate_exec
relocate_exec-AllMoved dirt exec base some_segment pos fit h =
    let (first, ef) = first_of exec.segments some_segment in
    let (b, e, lo, hi) = advance_base_lem exec first.vaddr base pos fit in
    let (moved, e', m) =
      relocate_segments_lem dirt b 0 exec.segments
        (AreMovable-le b (base + 2 ^ 32) exec.segments (omega arith) h) in
    (b, moved, rw (ef, e, e') refl, lo, hi, m)
  where
    first_of :
        (segments : List Segment)
        → 0 < length segments
        → (s : Segment) × (head_of segments ≡ some s)
    first_of [] l = absurd (omega arith)
    first_of (s ∷ rest) l = (s, refl)
