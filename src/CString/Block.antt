-- ===== src/CString/Block.antt =====
-- `memcpy`, `memmove` and `memset` of src/string.c.
use loli_loader.Base.{
  ap, inr, Bool-cases, leb, ltb, ◌&&◌, ◌-◌, ℕ, zero, suc, ◌+◌, ◌%◌, ◌≤◌, ◌<◌, ◌≡◌, ◌⊎◌, inl, refl,
  sym, ◌∙◌, some, arith,
}
use loli_loader.Memory.{
  Mem, update, load, IsMapped, IsBlock, SameOutside, store-some, update_ne, IsBlock-head,
  IsBlock-tail, update-IsBlock, SameOutside-update,
}
use loli_loader.CString.{memcpy, memmove, memset}

memcpy-step :
    (m : Mem) (dst src n c : ℕ)
    → m src ≡ some c
    → IsMapped m dst
    → memcpy m dst src (suc n) ≡ memcpy (update m dst c) (dst + 1) (src + 1) n
unfolding memcpy load
memcpy-step m dst src n c e b = rw (e, memcpy, store-some m dst c b) refl

-- What a copy of `n` cells has done: it read the cells at `src` as they were.
abbrev pub CopiedCells : Mem → ℕ → ℕ → ℕ → Mem → Type 0
CopiedCells m dst src n m' = ((i : ℕ) → i < n → m' (dst + i) ≡ m (src + i)) × SameOutside dst n m m'

CopiedCells-cons :
    (m m' : Mem) (dst src n c : ℕ)
    → (dst ≤ src) ⊎ (src + suc n ≤ dst)
    → m src ≡ some c
    → CopiedCells (update m dst c) (dst + 1) (src + 1) n m'
    → CopiedCells m dst src (suc n) m'
CopiedCells-cons m m' dst src n c d e (h, o) =
    let (o', w) = SameOutside-update dst n c m m' o in (cells w, o')
  where
    cells : m' dst ≡ some c → (i : ℕ) → i < suc n → m' (dst + i) ≡ m (src + i)
    cells w zero l =
        let a : dst + 0 ≡ dst = omega arith in
        let b : src + 0 ≡ src = omega arith in rw (a, b) (w ∙ sym e)
    cells w (suc i) l =
        let a : dst + suc i ≡ dst + 1 + i = omega arith in
        let b : src + suc i ≡ src + 1 + i = omega arith in
        rw (a, b) (h i (omega arith) ∙ update_ne m dst c (src + 1 + i) (ground arith))

-- Where the blocks are apart, or the destination lies below the source, `memcpy` copies the cells
-- as they were, and writes no other.
pub memcpy_lem :
    (n : ℕ) (m : Mem) (dst src : ℕ)
    → (dst ≤ src) ⊎ (src + n ≤ dst)
    → IsBlock m dst n
    → IsBlock m src n
    → (m' : Mem) × (memcpy m dst src n ≡ some m') × CopiedCells m dst src n m'
unfolding memcpy
memcpy_lem zero m dst src d bd bs = (m, refl, ((λ i l. absurd (omega arith)), λ x h. refl))
memcpy_lem (suc n) m dst src d bd bs =
    let (c, e) = IsBlock-head m src n bs in
    let (m', r, k) =
      memcpy_lem n (update m dst c) (dst + 1) (src + 1) (ground arith)
        (update-IsBlock m dst c (dst + 1) n (IsBlock-tail m dst n bd))
        (update-IsBlock m dst c (src + 1) n (IsBlock-tail m src n bs)) in
    (
      m',
      memcpy-step m dst src n c e (IsBlock-head m dst n bd) ∙ r,
      CopiedCells-cons m m' dst src n c d e k,
    )

pub memmove_lem :
    (n : ℕ) (m : Mem) (dst src : ℕ)
    → (dst ≤ src) ⊎ (src + n ≤ dst)
    → IsBlock m dst n
    → IsBlock m src n
    → (m' : Mem) × (memmove m dst src n ≡ some m') × CopiedCells m dst src n m'
unfolding memmove
memmove_lem n m dst src = memcpy_lem n m dst src

-- A copy upwards leaves at each cell what then stands at the source of this cell.
abbrev Repeats : Mem → ℕ → ℕ → ℕ → Mem → Type 0
Repeats m dst src n m' = ((i : ℕ) → i < n → m' (dst + i) ≡ m' (src + i)) × SameOutside dst n m m'

Repeats-cons :
    (m m' : Mem) (dst src n c : ℕ)
    → src < dst
    → m src ≡ some c
    → Repeats (update m dst c) (dst + 1) (src + 1) n m'
    → Repeats m dst src (suc n) m'
Repeats-cons m m' dst src n c d e (h, o) =
    let (o', w) = SameOutside-update dst n c m m' o in (cells (w ∙ sym (o' src (inl d) ∙ e)), o')
  where
    cells : m' dst ≡ m' src → (i : ℕ) → i < suc n → m' (dst + i) ≡ m' (src + i)
    cells w zero l =
        let a : dst + 0 ≡ dst = omega arith in let b : src + 0 ≡ src = omega arith in rw (a, b) w
    cells w (suc i) l =
        let a : dst + suc i ≡ dst + 1 + i = omega arith in
        let b : src + suc i ≡ src + 1 + i = omega arith in rw (a, b) (h i (omega arith))

memcpy-Repeats :
    (n : ℕ) (m : Mem) (dst src : ℕ)
    → src < dst
    → IsBlock m dst n
    → IsBlock m src n
    → (m' : Mem) × (memcpy m dst src n ≡ some m') × Repeats m dst src n m'
unfolding memcpy
memcpy-Repeats zero m dst src d bd bs = (m, refl, ((λ i l. absurd (omega arith)), λ x h. refl))
memcpy-Repeats (suc n) m dst src d bd bs =
    let (c, e) = IsBlock-head m src n bs in
    let (m', r, k) =
      memcpy-Repeats n (update m dst c) (dst + 1) (src + 1) (omega arith)
        (update-IsBlock m dst c (dst + 1) n (IsBlock-tail m dst n bd))
        (update-IsBlock m dst c (src + 1) n (IsBlock-tail m src n bs)) in
    (
      m',
      memcpy-step m dst src n c e (IsBlock-head m dst n bd) ∙ r,
      Repeats-cons m m' dst src n c d e k,
    )

-- `memmove` is no move where the destination overlaps the source from above: by `d` cells further
-- on, it stores the first cell of the source once more in place of the cell that stood there.
pub memmove_overlap :
    (m : Mem) (src d n : ℕ)
    → 0 < d
    → d < n
    → IsBlock m (src + d) n
    → IsBlock m src n
    → (m' : Mem) × (memmove m (src + d) src n ≡ some m') × (m' (src + d + d) ≡ m src)
unfolding memmove
memmove_overlap m src d n p l bd bs =
    let (m', r, (h, o)) = memcpy-Repeats n m (src + d) src (omega arith) bd bs in
    let a : src + d + 0 ≡ src + d = omega arith in
    let b : src + 0 ≡ src = omega arith in
    (m', r, h d l ∙ rw (a, b) at (h 0 (omega arith)) ∙ o src (inl (omega arith)))

memset-step :
    (m : Mem) (p c n : ℕ)
    → IsMapped m p
    → memset m p c (suc n) ≡ memset (update m p (c % 256)) (p + 1) c n
unfolding memset
memset-step m p c n b = rw (memset, store-some m p (c % 256) b) refl

-- `memset` stores the low byte of `c` in each cell of the block, and writes no other.
pub memset_lem :
    (n : ℕ) (m : Mem) (p c : ℕ)
    → IsBlock m p n
    → (m' : Mem) × (memset m p c n ≡ some m')
      × ((i : ℕ) → i < n → m' (p + i) ≡ some (c % 256))
      × SameOutside p n m m'
unfolding memset
memset_lem zero m p c b = (m, refl, (λ i l. absurd (omega arith)), λ x h. refl)
memset_lem (suc n) m p c b =
    let (m', r, h, o) =
      memset_lem n (update m p (c % 256)) (p + 1) c
        (update-IsBlock m p (c % 256) (p + 1) n (IsBlock-tail m p n b)) in
    let (o', w) = SameOutside-update p n (c % 256) m m' o in
    (m', memset-step m p c n (IsBlock-head m p n b) ∙ r, cells m' w h, o')
  where
    cells :
        (m' : Mem)
        → m' p ≡ some (c % 256)
        → ((i : ℕ) → i < n → m' (p + 1 + i) ≡ some (c % 256))
        → (i : ℕ) → i < suc n
        → m' (p + i) ≡ some (c % 256)
    cells m' w h zero l = let a : p + 0 ≡ p = omega arith in rw a w
    cells m' w h (suc i) l = let a : p + suc i ≡ p + 1 + i = omega arith in rw a (h i (omega arith))

-- Writes to a block leave every block a block.
within : (a n x : ℕ) → ((x < a) ⊎ (a + n ≤ x)) ⊎ ((i : ℕ) × (i < n) × (a + i ≡ x))
within a n x = elim (Bool-cases (leb a x && ltb x (a + n))) [
  | inl h ↦ inr (x - a, ground arith, ground arith)
  | inr h ↦ inl (ground arith)
]

pub CopiedCells-IsBlock :
    (m : Mem) (dst src n : ℕ) (m' : Mem)
    → IsBlock m src n
    → CopiedCells m dst src n m'
    → (b k : ℕ) → IsBlock m b k
    → IsBlock m' b k
CopiedCells-IsBlock m dst src n m' s (h, o) b k g i l = elim (within dst n (b + i)) [
  | inl out ↦ let (v, e) = g i l in (v, o (b + i) out ∙ e)
  | inr (j, u, e) ↦ let (v, f) = s j u in (v, ap m' (sym e) ∙ h j u ∙ f)
]

pub filled-IsBlock :
    (m : Mem) (p n v : ℕ) (m' : Mem)
    → ((i : ℕ) → i < n → m' (p + i) ≡ some v)
    → SameOutside p n m m'
    → (b k : ℕ) → IsBlock m b k
    → IsBlock m' b k
filled-IsBlock m p n v m' h o b k g i l = elim (within p n (b + i)) [
  | inl out ↦ let (w, e) = g i l in (w, o (b + i) out ∙ e)
  | inr (j, u, e) ↦ (v, ap m' (sym e) ∙ h j u)
]
