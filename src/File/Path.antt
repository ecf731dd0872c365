-- ===== src/File/Path.antt =====
-- `fix_path` against its description on lists of characters.
use loli_loader.Base.{
  ℕ, zero, suc, ◌+◌, ◌-◌, ◌<◌, ◌≤◌, ◌≡◌, ◌⊎◌, inl, inr, refl, ◌∙◌, ap, Bool, true, false, ◌&&◌, not,
  Option, some, [], ◌∷◌, arith, ◌==◌, if◌then◌else◌, Bytes, length, Bool-cases, length-append,
  get_or,
}
use loli_loader.Memory.{
  Mem, update, load, Holds, IsMapped, SameOutside, NonZero, IsCString, terminated, store-some,
  update_self, update_ne, update-Holds, update-IsMapped,
}
use loli_loader.Memory.Cells.{Holds-get}
use loli_loader.File.{translated, backslash, slash, advances, fix_loop, fix_path}

-- The path with `\` for `/`, and with one `\` in place of several in a row; the flag says whether a
-- `\` stands in front of the rest.
abbrev pub squeezed : Bool → Bytes → Bytes
squeezed b [] = []
squeezed b (c ∷ s) =
    let d = translated c in
    if b && d == backslash then squeezed true s else d ∷ squeezed (d == backslash) s

-- No `/`, and no two `\` in a row.
abbrev pub IsFixed : Bool → Bytes → Type 0
IsFixed b [] = Unit
IsFixed b (c ∷ s) =
    ((c == slash) ≡ false) × ((b && c == backslash) ≡ false) × IsFixed (c == backslash) s

squeezed-IsFixed : (b : Bool) (s : Bytes) → IsFixed b (squeezed b s)
squeezed-IsFixed b [] = tt
squeezed-IsFixed b (c ∷ s) = elim (Bool-cases (b && translated c == backslash)) [
  | inl e ↦ let t : b ≡ true = ground arith in rw (e, t) (squeezed-IsFixed true s)
  | inr e ↦ rw e (ground arith, e, squeezed-IsFixed (translated c == backslash) s)
]

-- What stands in front of the place where the next character is stored.
abbrev Follows : Mem → ℕ → ℕ → Bool → Type 0
Follows w path cur b =
    ((cur ≡ path) × (b ≡ false))
    ⊎ ((path < cur) × ((v : ℕ) × (w (cur - 1) ≡ some v) × ((v == backslash) ≡ b)))

advances_lem :
    (w : Mem) (path cur d : ℕ) (b : Bool)
    → Follows w path cur b
    → w cur ≡ some d
    → advances w path cur ≡ some (not (b && d == backslash))
unfolding advances load
advances_lem w path cur d b (inl (e, n)) h =
    let s : (cur == path) ≡ true = ground arith in rw (s, n) refl
advances_lem w path cur d b (inr (l, (v, e, n))) h =
    let s : (cur == path) ≡ false = ground arith in rw (s, e, h, n) (ground arith)

Follows-update :
    (w : Mem) (path cur d : ℕ) (b : Bool)
    → Follows w path cur b
    → Follows (update w cur d) path cur b
Follows-update w path cur d b (inl h) = inl h
Follows-update w path cur d b (inr (l, (v, e, n))) =
    inr (l, (v, update_ne w cur d (cur - 1) (ground arith) ∙ e, n))

Follows-stored :
    (w : Mem) (path cur d : ℕ)
    → path ≤ cur
    → Follows (update w cur d) path (cur + 1) (d == backslash)
Follows-stored w path cur d h =
    let e : cur + 1 - 1 ≡ cur = omega arith in
    inr (omega arith, (d, ap (update w cur d) e ∙ update_self w cur d, refl))

-- A run that leaves the text at `cur`, and writes only cells from there up to `last`.
abbrev Leaves : Mem → ℕ → ℕ → Bytes → Option Mem → Type 0
Leaves w cur last t r =
    (w' : Mem) × (r ≡ some w')
    × Holds w' cur (terminated t)
    × ((x : ℕ) → (x < cur) ⊎ (last < x) → w' x ≡ w x)

fix_loop-Leaves :
    (s : Bytes) (f : ℕ) (w : Mem) (path cur p : ℕ) (b : Bool)
    → Holds w p (terminated s)
    → NonZero s
    → length s < f
    → path ≤ cur
    → cur ≤ p
    → ((x : ℕ) → cur ≤ x → x ≤ p + length s → IsMapped w x)
    → Follows w path cur b
    → Leaves w cur (p + length s) (squeezed b s) (fix_loop f w path cur p)
unfolding fix_loop load
fix_loop-Leaves s zero w path cur p b h z l a c k g = absurd (omega arith)
fix_loop-Leaves [] (suc f) w path cur p b h z l a c k g =
    let e = store-some w cur 0 (k cur (omega arith) (omega arith)) in
    (
      update w cur 0,
      rw (h.0, e) refl,
      (update_self w cur 0, tt),
      λ x o. update_ne w cur 0 x (ground arith),
    )
fix_loop-Leaves (q ∷ s) (suc f) w path cur p b h z l a c k g =
    let d = translated q in
    let w1 = update w cur d in
    let e = store-some w cur d (k cur (omega arith) (omega arith)) in
    let v = advances_lem w1 path cur d b (Follows-update w path cur d b g) (update_self w cur d) in
    let again = λ (n : ℕ) (b' : Bool) (i : cur ≤ n) (j : n ≤ p + 1) (y : Follows w1 path n b').
      fix_loop-Leaves s f w1 path n (p + 1) b'
        (update-Holds w cur d (p + 1) (terminated s) (ground (arith, length-append s (0 ∷ []))) h.1)
        z.1 (omega arith) (omega arith) j
        (λ x t u. update-IsMapped w cur d x (k x (omega arith) (omega arith))) y in
    elim (Bool-cases (b && d == backslash)) [
      | inl t ↦
          let y : b ≡ true = ground arith in
          let (w', r, hs, o) =
            again cur true (omega arith) (omega arith)
              (rw y at (Follows-update w path cur d b g)) in
          rw (h.0, z.0, e, v, t)
            (w', r, hs, λ x k. o x (ground arith) ∙ update_ne w cur d x (ground arith))
      | inr t ↦
          let (w', r, hs, o) =
            again (cur + 1) (d == backslash) (omega arith) (omega arith)
              (Follows-stored w path cur d a) in
          rw (h.0, z.0, e, v, t)
            (
              w',
              r,
              (o cur (inl (omega arith)) ∙ update_self w cur d, hs),
              λ x k. o x (ground arith) ∙ update_ne w cur d x (ground arith),
            )
    ]

Holds-IsMapped :
    (w : Mem) (a : ℕ) (t : Bytes) (x : ℕ) → Holds w a t → a ≤ x → x < a + length t → IsMapped w x
Holds-IsMapped w a t x h l u =
    let e : a + (x - a) ≡ x = omega arith in
    (get_or t (x - a) 0, rw e at (Holds-get w a (x - a) t h (omega arith)))

-- On a path that stands in writable cells `fix_path` does not fault. It leaves, in place, the path with
-- `\` for `/` and with one `\` for several separators in a row, and writes no cell outside the path
-- and its terminator; so no `/` and no two `\` in a row are left.
pub fix_path-squeezed :
    (s : Bytes) (f : ℕ) (w : Mem) (path : ℕ)
    → IsCString w path s
    → length s < f
    → (w' : Mem) × (fix_path f w path ≡ some w')
      × Holds w' path (terminated (squeezed false s))
      × IsFixed false (squeezed false s)
      × SameOutside path (length s + 1) w w'
unfolding fix_path
fix_path-squeezed s f w path h l =
    let (w', r, hs, o) =
      fix_loop-Leaves s f w path path path false h.held h.nonzero l (omega arith) (omega arith)
        (λ x a b.
          Holds-IsMapped w path (terminated s) x h.held a
            (omega (arith, length-append s (0 ∷ []), b)))
        (inl (refl, refl)) in
    (w', r, hs, squeezed-IsFixed false s, λ x k. o x (ground arith))
