-- ===== src/Elf2Efi/Elf/Loaded.antt =====
-- The loading of a segment: what it refuses, and what the segment holds.
use loli_loader.Base.{
  ℕ, ◌+◌, ◌-◌, ◌%◌, ◌^◌, ◌≤◌, ◌<◌, ◌≡◌, ◌⊎◌, inl, inr, refl, sym, ap, ◌∙◌, [], ◌++◌, arith, Bytes,
  length, take, drop, leb-true, leb-false, ltb-false, lt→ltb, length-take_le, length-drop_add,
  length-append, take-append, drop-append, take-drop, dec_lt,
}
use loli_loader.Elf2Efi.{done, exits, store, replicate, fresh, SizedData, data_at_offset}
use mathlib.Core.List.{append-nil}
use loli_loader.Elf2Efi.Block.{bytes_at_lem, store_lem, length-fresh}
use loli_loader.Elf2Efi.Elf.{Elf64Phdr, Segment, load_segment, segment_flags}
use loli_loader.Elf2Efi.Relocate.Moved.{IsSegment}

-- A segment that was loaded by a header: its block has the size in memory, with the file's bytes first,
-- and behind them what the new block held before.
pub record Loaded (dirt : ℕ → ℕ) (elf : SizedData) (h : Elf64Phdr) (s : Segment) : Type 0 where
  pub is_segment : IsSegment s
  pub start : s.vaddr ≡ h.p_vaddr
  pub memory_size : s.memsize ≡ h.p_memsz
  pub file_size : s.filesize ≡ h.p_filesz
  pub file_bytes :
      take h.p_filesz s.contents.raw_data ≡ take h.p_filesz (drop h.p_offset elf.raw_data)
  pub tail : drop h.p_filesz s.contents.raw_data ≡ drop h.p_filesz (fresh dirt h.p_memsz)

-- What the code asks of a header before it loads.
abbrev pub IsLoadable : SizedData → Elf64Phdr → Type 0
IsLoadable elf h = (h.p_filesz ≤ h.p_memsz) × (h.p_offset + h.p_filesz < elf.size)

-- The two copies: the file's bytes, and no zeros.
copied :
    (dirt : ℕ → ℕ) (n k : ℕ) (bytes : Bytes)
    → length bytes ≡ k
    → k ≤ n
    → (t : Bytes) × (store (fresh dirt n) 0 bytes ≡ done t)
      × (store t k (replicate (n - n) 0) ≡ done t)
      × (length t ≡ n)
      × (take k t ≡ bytes)
      × (drop k t ≡ drop k (fresh dirt n))
unfolding replicate
copied dirt n k bytes l le =
    let lf = length-fresh dirt n in
    let rest = drop (0 + length bytes) (fresh dirt n) in
    let t : Bytes = bytes ++ rest in
    let z : n - n ≡ 0 = omega arith in
    let lt : length t ≡ n = omega (
      arith,
      length-append bytes rest,
      length-drop_add (0 + length bytes) (fresh dirt n) (omega (arith, lf)),
    ) in
    let plus : k + 0 ≡ k = omega arith in
    let same : 0 + length bytes ≡ k = omega arith in
    (
      t,
      store_lem (fresh dirt n) 0 bytes (omega (arith, lf)),
      rw z (
          store_lem t k [] (omega (arith, lt))
          ∙ rw (plus) (
              ap (λ x. done (x ++ drop k t)) (append-nil (take k t))
              ∙ ap (λ x. done x) (take-drop k t))),
      lt,
      take-append bytes rest k (sym l),
      drop-append bytes rest k (sym l) ∙ ap (λ x. drop x (fresh dirt n)) same,
    )

load_segment-refuses :
    (dirt : ℕ → ℕ) (elf : SizedData) (h : Elf64Phdr)
    → h.p_offset + h.p_filesz < 2 ^ 64
    → ¬ (IsLoadable elf h)
    → load_segment dirt elf h ≡ exits 1
unfolding load_segment data_at_offset
load_segment-refuses dirt elf h w no_load = elim (dec_lt h.p_memsz h.p_filesz) [
  | yes small ↦ rw (leb-false h.p_filesz h.p_memsz small) refl
  | no large ↦ elim (dec_lt (h.p_offset + h.p_filesz) elf.size) [
    | yes before ↦ absurd (no_load (omega arith, before))
    | no behind ↦
        let e : (h.p_offset + h.p_filesz) % 2 ^ 64 ≡ h.p_offset + h.p_filesz = omega arith in
        rw
          (
            leb-true h.p_filesz h.p_memsz (omega arith),
            e,
            ltb-false (h.p_offset + h.p_filesz) elf.size (omega arith),
          )
          refl
  ]
]

load_segment-runs :
    (dirt : ℕ → ℕ) (elf : SizedData) (h : Elf64Phdr) (t : Bytes)
    → length elf.raw_data ≡ elf.size
    → elf.size < 2 ^ 64
    → IsLoadable elf h
    → store (fresh dirt h.p_memsz) 0 (take h.p_filesz (drop h.p_offset elf.raw_data)) ≡ done t
    → store t h.p_filesz (replicate (h.p_memsz - h.p_memsz) 0) ≡ done t
    → load_segment dirt elf h
      ≡ done (record {
        vaddr = h.p_vaddr;
        memsize = h.p_memsz;
        alignment = h.p_align % 2 ^ 32;
        flags = segment_flags h.p_flags;
        filesize = h.p_filesz;
        contents = record { raw_data = t; size = h.p_memsz };
      })
unfolding load_segment data_at_offset
load_segment-runs dirt elf h t l w (small, before) e1 e2 =
    let e : (h.p_offset + h.p_filesz) % 2 ^ 64 ≡ h.p_offset + h.p_filesz = omega arith in
    rw
      (
        leb-true h.p_filesz h.p_memsz small,
        e,
        lt→ltb (h.p_offset + h.p_filesz) elf.size before,
        bytes_at_lem elf.raw_data h.p_offset h.p_filesz (omega arith),
        e1,
        e2,
      )
      refl

load_segment-loads :
    (dirt : ℕ → ℕ) (elf : SizedData) (h : Elf64Phdr)
    → length elf.raw_data ≡ elf.size
    → elf.size < 2 ^ 64
    → IsLoadable elf h
    → (s : Segment) × (load_segment dirt elf h ≡ done s) × Loaded dirt elf h s
load_segment-loads dirt elf h l w (small, before) =
    let bytes = take h.p_filesz (drop h.p_offset elf.raw_data) in
    let ld : length bytes ≡ h.p_filesz =
      length-take_le h.p_filesz (drop h.p_offset elf.raw_data)
        (omega (arith, length-drop_add h.p_offset elf.raw_data (omega arith))) in
    let (t, e1, e2, lt, ft, dt) = copied dirt h.p_memsz h.p_filesz bytes ld small in
    (
      _,
      load_segment-runs dirt elf h t l w (small, before) e1 e2,
      record {
        is_segment = record { held = lt; size = refl; fits = small };
        start = refl;
        memory_size = refl;
        file_size = refl;
        file_bytes = ft;
        tail = dt;
      },
    )

-- For a file that is held whole, of less than 2 ^ 64 bytes, and a header whose part of the file ends
-- below 2 ^ 64: either the size in memory is below the size in the file, or the part ends at or behind
-- the end of the file, and load_segment leaves with the status 1; or it returns a well-formed segment
-- with the header's place and sizes, whose block holds the file's bytes first, and behind them what the
-- new block held before, not zeros.
pub load_segment-Loaded :
    (dirt : ℕ → ℕ) (elf : SizedData) (h : Elf64Phdr)
    → length elf.raw_data ≡ elf.size
    → elf.size < 2 ^ 64
    → h.p_offset + h.p_filesz < 2 ^ 64
    → (¬ (IsLoadable elf h) × (load_segment dirt elf h ≡ exits 1))
      ⊎ (IsLoadable elf h
          × ((s : Segment) × (load_segment dirt elf h ≡ done s) × Loaded dirt elf h s))
load_segment-Loaded dirt elf h l w f = elim (dec_lt h.p_memsz h.p_filesz) [
  | yes small ↦
      let no_load : ¬ (IsLoadable elf h) = λ p. absurd (omega (arith, p.0)) in
      inl (no_load, load_segment-refuses dirt elf h f no_load)
  | no large ↦ elim (dec_lt (h.p_offset + h.p_filesz) elf.size) [
    | yes before ↦
        inr ((omega arith, before), load_segment-loads dirt elf h l w (omega arith, before))
    | no behind ↦
        let no_load : ¬ (IsLoadable elf h) = λ p. behind (p.1) in
        inl (no_load, load_segment-refuses dirt elf h f no_load)
  ]
]
