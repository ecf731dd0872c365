-- ===== src/Elf2Efi/Relocate/Target.antt =====
-- Where a relocated word stands, and what replacing its segment leaves of the other words.
use loli_loader.Base.{
  ℕ, suc, ◌+◌, ◌-◌, ◌%◌, ◌^◌, ◌≤◌, ◌<◌, ◌≡◌, refl, ap, ◌⊎◌, true, false, ◌&&◌, some, List, ◌∷◌,
  arith, take, drop, leb, leb-true, leb-false, get_elem?, inl, inr,
}
use loli_loader.Elf2Efi.{Outcome, done, ◌>>=◌, bytes_at, le}
use loli_loader.Elf2Efi.Block.{bytes_at_lem}
use loli_loader.Elf2Efi.Elf.{Segment}
use loli_loader.Elf2Efi.Executable.{data_at_vaddr_from, data_at_vaddr, or_fault, set_elem}
use loli_loader.Elf2Efi.Relocate.Moved.{IsSegment}

-- The 8 bytes at an address, as a number.
abbrev pub word_at : List Segment → ℕ → Outcome ℕ
word_at segments addr = data_at_vaddr segments addr >>= λ (p : ℕ × ℕ).
    or_fault (get_elem? segments (p.0)) >>= λ (s : Segment).
    bytes_at s.contents.raw_data (p.1) 8 >>= λ w. done (le w)

-- The first segment whose range has the address, its end included, is well formed and holds 8 bytes
-- from there on.
pub data IsTarget : List Segment → ℕ → Type 0 where
  inside :
      {s : Segment} {rest : List Segment} {addr : ℕ}
      → s.vaddr ≤ addr
      → addr + 8 ≤ s.vaddr + s.memsize
      → s.vaddr + s.memsize < 2 ^ 64
      → IsSegment s
      → IsTarget (s ∷ rest) addr
  behind :
      {s : Segment} {rest : List Segment} {addr : ℕ}
      → s.vaddr + s.memsize < 2 ^ 64
      → (addr < s.vaddr) ⊎ (s.vaddr + s.memsize < addr)
      → IsTarget rest addr
      → IsTarget (s ∷ rest) addr

abbrev pub index_of : {segments : List Segment} {addr : ℕ} → IsTarget segments addr → ℕ
index_of (inside _ _ _ _) = 0
index_of (behind _ _ t) = suc (index_of t)

abbrev pub segment_of : {segments : List Segment} {addr : ℕ} → IsTarget segments addr → Segment
segment_of (inside {s} {rest} _ _ _ _) = s
segment_of (behind _ _ t) = segment_of t

abbrev pub replaced :
    {segments : List Segment} {addr : ℕ} → IsTarget segments addr → Segment → List Segment
replaced (inside {s} {rest} _ _ _ _) s' = s' ∷ rest
replaced (behind {s} {rest} _ _ t) s' = s ∷ replaced t s'

in_range :
    (low addr size : ℕ)
    → low ≤ addr
    → addr ≤ low + size
    → low + size < 2 ^ 64
    → (leb low addr && leb addr ((low + size) % 2 ^ 64)) ≡ true
in_range low addr size a b c =
    let e : (low + size) % 2 ^ 64 ≡ low + size = omega arith in
    rw (e, leb-true low addr a, leb-true addr (low + size) b) refl

out_of_range :
    (low addr size : ℕ)
    → (addr < low) ⊎ (low + size < addr)
    → low + size < 2 ^ 64
    → (leb low addr && leb addr ((low + size) % 2 ^ 64)) ≡ false
out_of_range low addr size (inl a) c = rw (leb-false low addr a) refl
out_of_range low addr size (inr b) c =
    let e : (low + size) % 2 ^ 64 ≡ low + size = omega arith in
    rw (e, leb-true low addr (omega arith), leb-false addr (low + size) b) refl

pub IsTarget-found :
    {segments : List Segment} {addr : ℕ} (t : IsTarget segments addr) (i j : ℕ)
    → j ≡ i + index_of t
    → data_at_vaddr_from segments addr i ≡ done (j, addr - (segment_of t).vaddr)
unfolding data_at_vaddr_from
IsTarget-found {addr} (inside {s} {rest} a b c w) i j e =
    rw (in_range s.vaddr addr s.memsize a (omega arith) c)
      (ap (λ x. done (x, addr - s.vaddr)) (omega arith))
IsTarget-found {addr} (behind {s} {rest} c o t) i j e =
    rw (out_of_range s.vaddr addr s.memsize o c) (IsTarget-found t (suc i) j (omega arith))

pub IsTarget-at :
    {segments : List Segment} {addr : ℕ} (t : IsTarget segments addr)
    → get_elem? segments (index_of t) ≡ some (segment_of t)
IsTarget-at (inside {s} {rest} a b c w) = refl
IsTarget-at (behind {s} {rest} c o t) = IsTarget-at t

pub IsTarget-set :
    {segments : List Segment} {addr : ℕ} (t : IsTarget segments addr) (s' : Segment)
    → set_elem segments (index_of t) s' ≡ done (replaced t s')
IsTarget-set (inside {s} {rest} a b c w) s' = refl
IsTarget-set (behind {s} {rest} c o t) s' = rw (IsTarget-set t s') refl

-- Where the address stands in its segment.
pub record Placed (s : Segment) (addr : ℕ) : Type 0 where
  pub low : s.vaddr ≤ addr
  pub high : addr + 8 ≤ s.vaddr + s.memsize
  pub fit : s.vaddr + s.memsize < 2 ^ 64
  pub whole : IsSegment s

pub IsTarget-Placed :
    {segments : List Segment} {addr : ℕ} (t : IsTarget segments addr) → Placed (segment_of t) addr
IsTarget-Placed (inside {s} {rest} a b c w) = record { low = a; high = b; fit = c; whole = w }
IsTarget-Placed (behind {s} {rest} c o t) = IsTarget-Placed t

abbrev pub word_in : Segment → ℕ → ℕ
word_in s addr = le (take 8 (drop (addr - s.vaddr) s.contents.raw_data))

pub word_at_lem :
    {segments : List Segment} {addr : ℕ} (t : IsTarget segments addr)
    → word_at segments addr ≡ done (word_in (segment_of t) addr)
unfolding data_at_vaddr
word_at_lem {segments} {addr} t =
    let p = IsTarget-Placed t in
    rw
      (
        IsTarget-found t 0 (index_of t) (omega arith),
        IsTarget-at t,
        bytes_at_lem (segment_of t).contents.raw_data (addr - (segment_of t).vaddr) 8
            (omega (arith, p.whole.held, p.low, p.high)),
      )
      refl

-- Another segment in the same place.
pub record Framed (s s' : Segment) : Type 0 where
  pub start : s'.vaddr ≡ s.vaddr
  pub size : s'.memsize ≡ s.memsize
  pub whole : IsSegment s'

-- A target is one still when a segment is replaced by one in the same place.
pub kept :
    {segments : List Segment} {addr other : ℕ} (t : IsTarget segments addr) (s' : Segment)
    → Framed (segment_of t) s'
    → IsTarget segments other
    → IsTarget (replaced t s') other
kept (inside {s} {rest} a b c w) s' f (inside a' b' c' w') =
    inside (omega (arith, f.start)) (omega (arith, f.start, f.size))
      (omega (arith, f.start, f.size)) f.whole
kept {other} (inside {s} {rest} a b c w) s' f (behind c' o u) =
    behind (omega (arith, f.start, f.size)) (subst2_place o) u
  where
    subst2_place :
        (other < s.vaddr) ⊎ (s.vaddr + s.memsize < other)
        → (other < s'.vaddr) ⊎ (s'.vaddr + s'.memsize < other)
    subst2_place (inl x) = inl (omega (arith, f.start))
    subst2_place (inr x) = inr (omega (arith, f.start, f.size))
kept (behind {s} {rest} c o t) s' f (inside a b c' w) = inside a b c' w
kept (behind {s} {rest} c o t) s' f (behind c' o' u) = behind c' o' (kept t s' f u)

-- The word there is the same, if the new segment has the same word there.
pub word-kept :
    {segments : List Segment} {addr other : ℕ} (t : IsTarget segments addr) (s' : Segment)
    → (f : Framed (segment_of t) s')
    → ((segment_of t).vaddr ≤ other
        → other + 8 ≤ (segment_of t).vaddr + (segment_of t).memsize
        → word_in s' other ≡ word_in (segment_of t) other)
    → (u : IsTarget segments other)
    → word_in (segment_of (kept t s' f u)) other ≡ word_in (segment_of u) other
unfolding kept
word-kept (inside {s} {rest} a b c w) s' f k (inside a' b' c' w') = k a' b'
word-kept (inside {s} {rest} a b c w) s' f k (behind c' o u) = refl
word-kept (behind {s} {rest} c o t) s' f k (inside a b c' w) = refl
word-kept (behind {s} {rest} c o t) s' f k (behind c' o' u) = word-kept t s' f k u

pub segment_of-kept :
    {segments : List Segment} {addr : ℕ} (t : IsTarget segments addr) (s' : Segment)
    → (f : Framed (segment_of t) s') → segment_of (kept t s' f t) ≡ s'
unfolding kept
segment_of-kept (inside {s} {rest} a b c w) s' f = refl
segment_of-kept (behind {s} {rest} c o t) s' f = segment_of-kept t s' f
