-- ===== src/CString/Number/Reverse.antt =====
-- The loop of `itoa_n` that turns the digits round, and what `itoa_n` writes.
use loli_loader.Base.{
  ℕ, zero, suc, ◌+◌, ◌-◌, ◌*◌, ◌/◌, ◌≤◌, ◌<◌, ◌≡◌, refl, ◌∙◌, ap, some, ◌&&◌, ◌||◌, ◌==◌, ltb, leb,
  if◌then◌else◌, arith,
}
use loli_loader.Memory.{
  Mem, update, load, IsBlock, SameOutside, store-some, update_ne, update-IsMapped, update-IsBlock,
}
use loli_loader.CString.Number.{swap_loop}

-- One round: the cells `i` and `len - i - 1` change places.
abbrev swapped : Mem → ℕ → ℕ → ℕ → ℕ → ℕ → Mem
swapped m out len i c tmp = update (update m (out + (len - i - 1)) c) (out + i) tmp

swap_loop-step :
    (m : Mem) (out len i k c tmp : ℕ)
    → m (out + (len - i - 1)) ≡ some tmp
    → m (out + i) ≡ some c
    → swap_loop m out len i (suc k) ≡ swap_loop (swapped m out len i c tmp) out len (i + 1) k
unfolding swap_loop load
swap_loop-step m out len i k c tmp et ec =
    let m1 = update m (out + (len - i - 1)) c in
    rw
      (
        et,
        swap_loop,
        ec,
        store-some m (out + (len - i - 1)) c (tmp, et),
        store-some m1 (out + i) tmp (update-IsMapped m (out + (len - i - 1)) c (out + i) (c, ec)),
      )
      refl

-- The place where the cell `j` of a block of `len` cells stands after the rounds `i` to `i + k - 1`.
abbrev turned : ℕ → ℕ → ℕ → ℕ → ℕ
turned len i k j =
    if (leb i j && ltb j (i + k)) || (leb (len - (i + k)) j && ltb j (len - i))
    then len - 1 - j
    else j

swapped-cell :
    (m : Mem) (out len i c tmp j : ℕ)
    → 2 * i + 2 ≤ len
    → j < len
    → m (out + (len - i - 1)) ≡ some tmp
    → m (out + i) ≡ some c
    → swapped m out len i c tmp (out + j)
      ≡ m (out + (if j == i || j == (len - i - 1) then len - 1 - j else j))
swapped-cell m out len i c tmp j l h et ec = ground arith

turned-lt : (len i k j : ℕ) → j < len → turned len i k j < len
turned-lt len i k j h = ground arith

turned-suc :
    (len i k j : ℕ)
    → 2 * (i + suc k) ≤ len
    → j < len
    → (let t = turned len (i + 1) k j in if t == i || t == (len - i - 1) then len - 1 - t else t)
      ≡ turned len i (suc k) j
turned-suc len i k j l h = ground arith

-- What the rounds do to the cells of the block.
abbrev pub Turns : Mem → ℕ → ℕ → ℕ → ℕ → Mem → Type 0
Turns m out len i k m' =
    ((j : ℕ) → j < len → m' (out + j) ≡ m (out + turned len i k j)) × SameOutside out len m m'

swapped-outside :
    (m : Mem) (out len i c tmp : ℕ)
    → 2 * i + 2 ≤ len
    → SameOutside out len m (swapped m out len i c tmp)
swapped-outside m out len i c tmp l x h =
    update_ne (update m (out + (len - i - 1)) c) (out + i) tmp x (ground arith)
    ∙ update_ne m (out + (len - i - 1)) c x (ground arith)

swap_loop-Turns :
    (k : ℕ) (m : Mem) (out len i : ℕ)
    → 2 * (i + k) ≤ len
    → IsBlock m out len
    → (m' : Mem) × (swap_loop m out len i k ≡ some m') × Turns m out len i k m'
unfolding swap_loop
swap_loop-Turns zero m out len i l b =
    (m, refl, ((λ j h. ap (λ x. m (out + x)) (ground arith)), λ x h. refl))
swap_loop-Turns (suc k) m out len i l b =
    let (tmp, et) = b (len - i - 1) (omega arith) in
    let (c, ec) = b i (omega arith) in
    let m2 = swapped m out len i c tmp in
    let (m', r, (h, o)) = swap_loop-Turns k m2 out len (i + 1) (omega arith) (
      update-IsBlock (update m (out + (len - i - 1)) c) (out + i) tmp out len
        (update-IsBlock m (out + (len - i - 1)) c out len b)) in
    (
      m',
      swap_loop-step m out len i k c tmp et ec ∙ r,
      (
        (λ j lj.
            h j lj
            ∙ swapped-cell m out len i c tmp (turned len (i + 1) k j) (omega arith)
                (turned-lt len (i + 1) k j lj) et ec
            ∙ ap (λ x. m (out + x)) (turned-suc len i k j l lj)),
        λ x hx. o x hx ∙ swapped-outside m out len i c tmp (omega arith) x hx,
      ),
    )

turned-all : (len j : ℕ) → j < len → turned len 0 (len / 2) j ≡ len - 1 - j
turned-all len j h = ground arith

-- The whole loop turns the block round, and writes no cell outside it.
pub swap_loop_lem :
    (m : Mem) (out len : ℕ)
    → IsBlock m out len
    → (m' : Mem) × (swap_loop m out len 0 (len / 2) ≡ some m')
      × ((j : ℕ) → j < len → m' (out + j) ≡ m (out + (len - 1 - j)))
      × SameOutside out len m m'
swap_loop_lem m out len b =
    let (m', r, (h, o)) = swap_loop-Turns (len / 2) m out len 0 (omega arith) b in
    (m', r, (λ j l. h j l ∙ ap (λ x. m (out + x)) (turned-all len j l)), o)
