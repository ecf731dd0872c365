-- ===== src/Elf2Efi/Relocate/Applied.antt =====
-- The applied relocations: the words they store, read back.
use loli_loader.Base.{
  ℕ, ◌+◌, ◌-◌, ◌%◌, ◌^◌, ◌≤◌, ◌<◌, ◌≡◌, refl, sym, ap, ◌∙◌, ◌⊎◌, inl, inr, true, false, List, [],
  ◌∷◌, ◌++◌, arith, Bytes, length, take, drop, length-append, take-append, drop-append, leb,
  if◌then◌else◌, Bool-cases, length-take_le, length-drop_add, drop-drop, take-drop,
  drop-append_left, take-append_left,
}
use mathlib.Core.List.{append_assoc}
use loli_loader.Elf2Efi.{done, to_le, le}
use loli_loader.Elf2Efi.Block.{store_lem, length-to_le, le-to_le8}
use loli_loader.Elf2Efi.Elf.{Segment}
use loli_loader.Elf2Efi.Executable.{ExecReloc, Executable, data_at_vaddr}
use loli_loader.Elf2Efi.Relocate.{apply_reloc, apply_reloc_loop, apply_relocs}
use loli_loader.Elf2Efi.Relocate.Moved.{IsSegment}
use loli_loader.Elf2Efi.Relocate.Target.{
  IsTarget, index_of, segment_of, replaced, IsTarget-found, IsTarget-at, IsTarget-set,
  IsTarget-Placed, word_at, word_in, word_at_lem, Framed, kept, word-kept, segment_of-kept,
}

-- A block with 8 other bytes at `off`.
abbrev patched : Bytes → ℕ → Bytes → Bytes
patched raw off new = take off raw ++ new ++ drop (off + 8) raw

module _ (raw new : Bytes) (off : ℕ) (n : length new ≡ 8) (h : off + 8 ≤ length raw) where
  length-patched : length (patched raw off new) ≡ length raw
  length-patched = omega (
    arith,
    length-append (take off raw ++ new) (drop (off + 8) raw),
    length-append (take off raw) new,
    length-take_le off raw (omega arith),
    length-drop_add (off + 8) raw h,
  )

  patched-at : take 8 (drop off (patched raw off new)) ≡ new
  patched-at =
      ap (λ t. take 8 (drop off t)) (append_assoc (take off raw) new (drop (off + 8) raw))
      ∙ ap (take 8) (
          drop-append (take off raw) (new ++ drop (off + 8) raw) off
            (sym (length-take_le off raw (omega arith))))
      ∙ take-append new (drop (off + 8) raw) 8 (sym n)

  front :
      (o : ℕ) (rest : Bytes)
      → o + 8 ≤ off
      → take 8 (drop o (take off raw ++ rest)) ≡ take 8 (drop o (take off raw))
  front o rest le =
      let l = length-take_le off raw (omega arith) in
      let d = length-drop_add o (take off raw) (omega (arith, l)) in
      ap (take 8) (drop-append_left o (take off raw) rest (omega (arith, l)))
      ∙ take-append_left 8 (drop o (take off raw)) rest (omega (arith, l, d))

  patched-before :
      (o : ℕ) → o + 8 ≤ off → take 8 (drop o (patched raw off new)) ≡ take 8 (drop o raw)
  patched-before o le =
      ap (λ t. take 8 (drop o t)) (append_assoc (take off raw) new (drop (off + 8) raw))
      ∙ front o (new ++ drop (off + 8) raw) le
      ∙ sym (front o (drop off raw) le)
      ∙ ap (λ t. take 8 (drop o t)) (take-drop off raw)

  patched-behind : (o : ℕ) → off + 8 ≤ o → drop o (patched raw off new) ≡ drop o raw
  patched-behind o le =
      let e : off + 8 + (o - (off + 8)) ≡ o = omega arith in
      let l : off + 8 ≡ length (take off raw ++ new) =
        omega (arith, length-append (take off raw) new, length-take_le off raw (omega arith)) in
      ap (λ k. drop k (patched raw off new)) (sym e)
      ∙ sym (drop-drop (o - (off + 8)) (off + 8) (patched raw off new))
      ∙ ap (drop (o - (off + 8)))
          (drop-append (take off raw ++ new) (drop (off + 8) raw) (off + 8) l)
      ∙ drop-drop (o - (off + 8)) (off + 8) raw
      ∙ ap (λ k. drop k raw) e

  patched_apart :
      (o : ℕ)
      → (o + 8 ≤ off) ⊎ (off + 8 ≤ o)
      → take 8 (drop o (patched raw off new)) ≡ take 8 (drop o raw)
  patched_apart o (inl before) = patched-before o before
  patched_apart o (inr behind) = ap (take 8) (patched-behind o behind)

-- Two addresses behind the start of a segment.
distance :
    (v addr other : ℕ)
    → v ≤ other
    → v ≤ addr
    → (other + 8 ≤ addr) ⊎ (addr + 8 ≤ other)
    → (other - v + 8 ≤ addr - v) ⊎ (addr - v + 8 ≤ other - v)
distance v addr other lo low (inl before) = inl (omega arith)
distance v addr other lo low (inr behind) = inr (omega arith)

-- What one relocation leaves.
record Applied {segments : List Segment} (r : ExecReloc) (t : IsTarget segments r.vaddr)
    (s' : Segment) : Type 0 where
  run : apply_reloc r segments ≡ done (replaced t s')
  framed : Framed (segment_of t) s'
  stored : word_in s' r.vaddr ≡ r.addend
  others :
      (other : ℕ)
      → (segment_of t).vaddr ≤ other
      → other + 8 ≤ (segment_of t).vaddr + (segment_of t).memsize
      → (other + 8 ≤ r.vaddr) ⊎ (r.vaddr + 8 ≤ other)
      → word_in s' other ≡ word_in (segment_of t) other

patched_segment : Segment → ℕ → ℕ → Segment
patched_segment s off addend = record s {
  filesize = if leb s.filesize off then (off + 8) % 2 ^ 64 else s.filesize;
  contents = record {
    raw_data = patched s.contents.raw_data off (to_le 8 addend);
    size = s.contents.size;
  };
}

patched_segment-Framed :
    (s : Segment) (off addend : ℕ)
    → IsSegment s
    → off + 8 ≤ s.memsize
    → s.memsize < 2 ^ 64
    → Framed s (patched_segment s off addend)
unfolding patched_segment
patched_segment-Framed s off addend h le w = record {
  start = refl;
  size = refl;
  whole = record {
    held =
        length-patched s.contents.raw_data (to_le 8 addend) off (length-to_le 8 addend)
          (omega (arith, h.held))
        ∙ h.held;
    size = h.size;
    fits = file_fits (Bool-cases (leb s.filesize off));
  };
}
  where
    file_fits :
        (leb s.filesize off ≡ true) ⊎ (leb s.filesize off ≡ false)
        → (if leb s.filesize off then (off + 8) % 2 ^ 64 else s.filesize) ≤ s.memsize
    file_fits (inl e) = rw e (omega arith)
    file_fits (inr e) = rw e (omega (arith, h.fits))

apply_reloc_lem :
    {segments : List Segment} (r : ExecReloc) (t : IsTarget segments r.vaddr)
    → r.addend < 2 ^ 64
    → Applied r t (patched_segment (segment_of t) (r.vaddr - (segment_of t).vaddr) r.addend)
unfolding apply_reloc data_at_vaddr patched_segment
apply_reloc_lem {segments} r t small =
    let s = segment_of t in
    let p = IsTarget-Placed t in
    let off = r.vaddr - s.vaddr in
    let raw = s.contents.raw_data in
    let new = to_le 8 r.addend in
    let n = length-to_le 8 r.addend in
    let room : off + 8 ≤ length raw = omega (arith, p.low, p.high, p.whole.held) in
    let at : off + length new ≡ off + 8 = omega (arith, n) in
    record {
      run =
          rw
            (
              IsTarget-found t 0 (index_of t) (omega arith),
              IsTarget-at t,
              store_lem raw off new (omega arith),
              at,
            )
            (IsTarget-set t (patched_segment s off r.addend));
      framed =
          patched_segment-Framed s off r.addend p.whole (omega (arith, p.low, p.high))
            (omega (arith, p.fit));
      stored = ap le (patched-at raw new off n room) ∙ le-to_le8 r.addend small;
      others = λ other lo hi apart. ap le (
          patched_apart raw new off n room (other - s.vaddr)
            (distance s.vaddr r.vaddr other lo p.low apart));
    }

-- The relocations ascend by a word's size at least from `low` on, and each has its word in a segment.
abbrev pub AreTargets : List Segment → ℕ → List ExecReloc → Type 0
AreTargets segments low [] = Unit
AreTargets segments low (r ∷ rs) =
    (low ≤ r.vaddr)
    × (r.addend < 2 ^ 64)
    × IsTarget segments r.vaddr
    × AreTargets segments (r.vaddr + 8) rs

-- Each relocation's word is its addend.
abbrev pub AreApplied : List Segment → List ExecReloc → Type 0
AreApplied segments [] = Unit
AreApplied segments (r ∷ rs) = (word_at segments r.vaddr ≡ done r.addend) × AreApplied segments rs

AreTargets-kept :
    {segments : List Segment} {addr : ℕ} (t : IsTarget segments addr) (s' : Segment)
    → Framed (segment_of t) s'
    → (low : ℕ) (rs : List ExecReloc) → AreTargets segments low rs
    → AreTargets (replaced t s') low rs
AreTargets-kept t s' f low [] h = tt
AreTargets-kept t s' f low (r ∷ rs) (lo, small, u, more) =
    (lo, small, kept t s' f u, AreTargets-kept t s' f (r.vaddr + 8) rs more)

-- After the loop: the words of the relocations, and those before them.
record Looped (segments : List Segment) (low : ℕ) (rs : List ExecReloc) (after : List Segment)
    : Type 0 where
  run : apply_reloc_loop rs segments ≡ done after
  applied : AreApplied after rs
  before :
      (other : ℕ)
      → other + 8 ≤ low
      → IsTarget segments other
      → word_at after other ≡ word_at segments other

apply_reloc_loop_lem :
    (segments : List Segment) (low : ℕ) (rs : List ExecReloc)
    → AreTargets segments low rs
    → (after : List Segment) × Looped segments low rs after
unfolding apply_reloc_loop
apply_reloc_loop_lem segments low [] h =
    (segments, record { run = refl; applied = tt; before = λ other le u. refl })
apply_reloc_loop_lem segments low (r ∷ rs) (lo, small, t, more) =
    let s' = patched_segment (segment_of t) (r.vaddr - (segment_of t).vaddr) r.addend in
    let a = apply_reloc_lem r t small in
    let (after, l) =
      apply_reloc_loop_lem (replaced t s') (r.vaddr + 8) rs
        (AreTargets-kept t s' a.framed (r.vaddr + 8) rs more) in
    let word : word_at (replaced t s') r.vaddr ≡ done r.addend =
      word_at_lem (kept t s' a.framed t)
      ∙ ap (λ x. done (word_in x r.vaddr)) (segment_of-kept t s' a.framed)
      ∙ ap (λ x. done x) a.stored in
    (
      after,
      record {
        run = rw a.run l.run;
        applied = (l.before r.vaddr (omega arith) (kept t s' a.framed t) ∙ word, l.applied);
        before = λ other le u.
            l.before other (omega arith) (kept t s' a.framed u)
            ∙ word_at_lem (kept t s' a.framed u)
            ∙ ap (λ x. done x)
                (word-kept t s' a.framed (λ x y. a.others other x y (inl (omega arith))) u)
            ∙ sym (word_at_lem u);
      },
    )

-- If the relocations ascend by at least 8, their addends are 64-bit numbers, and the first segment whose
-- range has a relocation's address, the range's end included, is well formed and holds the whole word,
-- then apply_relocs succeeds, and each relocation's word, read back at its address, is its addend.
pub apply_relocs-AreApplied :
    (exec : Executable)
    → AreTargets exec.segments 0 exec.relocs
    → (after : List Segment) × (apply_relocs exec ≡ done (record exec { segments = after }))
      × AreApplied after exec.relocs
unfolding apply_relocs
apply_relocs-AreApplied exec h =
    let (after, l) = apply_reloc_loop_lem exec.segments 0 exec.relocs h in
    (after, rw l.run refl, l.applied)
