-- ===== src/Elf2Efi/Executable/Sorted.antt =====
-- The sorting of the segments and of the relocations, by an `int` that an address difference is cut to.
use mathlib.Core.List.{Perm}
use mathlib.Core.List.Perm
use loli_loader.Base.{
  ℕ, ◌+◌, ◌-◌, ◌%◌, ◌^◌, ◌≤◌, ◌<◌, ◌≡◌, refl, List, [], ◌∷◌, arith, dec_lt, ltb, ltb-false, lt→ltb,
}
use loli_loader.Base.Int.{ℤ, is_negative}
use loli_loader.Elf2Efi.Executable.{ExecReloc, vaddr_difference, reloc_compare, insert, qsort}

-- In a window of 2 GiB the sign of the `int` is that of the comparison.
difference_sign :
    (a b low : ℕ)
    → low ≤ a
    → a < low + 2 ^ 31
    → low ≤ b
    → b < low + 2 ^ 31
    → a < 2 ^ 64
    → b < 2 ^ 64
    → is_negative (vaddr_difference a b) ≡ ltb a b
unfolding vaddr_difference
difference_sign a b low a1 a2 b1 b2 a3 b3 = elim (dec_lt a b) [
  | yes less ↦
      let e : (a + 2 ^ 64 - b) % 2 ^ 32 ≡ 2 ^ 32 - (b - a) = omega arith in
      rw (e, lt→ltb a b less, ltb-false (2 ^ 32 - (b - a)) (2 ^ 31) (omega arith)) refl
  | no more ↦
      let e : (a + 2 ^ 64 - b) % 2 ^ 32 ≡ a - b = omega arith in
      rw (e, ltb-false a b (omega arith), lt→ltb (a - b) (2 ^ 31) (omega arith)) refl
]

module _ {A : Type 0} (key : A → ℕ) where
  -- The key lies within 2 GiB from `low` on.
  abbrev pub InWindow : ℕ → A → Type 0
  InWindow low x = (low ≤ key x) × (key x < low + 2 ^ 31) × (key x < 2 ^ 64)

  abbrev pub AllInWindow : ℕ → List A → Type 0
  AllInWindow low [] = Unit
  AllInWindow low (x ∷ xs) = InWindow low x × AllInWindow low xs

  -- Every key is at least `k`, and they ascend.
  abbrev pub Ascends : ℕ → List A → Type 0
  Ascends k [] = Unit
  Ascends k (x ∷ xs) = (k ≤ key x) × Ascends (key x) xs

-- For any comparison that agrees with the order of a key on the elements of a window.
module _ {A : Type 0} (compare : A → A → ℤ) (key : A → ℕ) (low : ℕ) where
  abbrev Agrees : Type 0
  Agrees =
      (x y : A)
      → InWindow key low x
      → InWindow key low y
      → is_negative (compare x y) ≡ ltb (key x) (key y)

  insert_lem :
      Agrees
      → (x : A) (xs : List A) (k : ℕ) → InWindow key low x
      → AllInWindow key low xs
      → k ≤ key x
      → Ascends key k xs
      → AllInWindow key low (insert compare x xs)
        × Ascends key k (insert compare x xs)
        × Perm (insert compare x xs) (x ∷ xs)
  unfolding insert
  insert_lem agrees x [] k w ws le s = ((w, tt), (le, tt), Perm.rfl)
  insert_lem agrees x (y ∷ ys) k w ws le s = elim (dec_lt (key y) (key x)) [
    | yes less ↦
        let (a, b, c) = insert_lem agrees x ys (key y) w ws.1 (omega arith) s.1 in
        rw (agrees y x ws.0 w, lt→ltb (key y) (key x) less)
          ((ws.0, a), (s.0, b), Perm.trans (Perm.cons y c) (Perm.swap x y ys))
    | no more ↦
        rw (agrees y x ws.0 w, ltb-false (key y) (key x) (omega arith))
          ((w, ws), (le, (omega arith, s.1)), Perm.rfl)
  ]

  qsort_lem :
      Agrees
      → (xs : List A) → AllInWindow key low xs
      → AllInWindow key low (qsort compare xs)
        × Ascends key 0 (qsort compare xs)
        × Perm (qsort compare xs) xs
  unfolding qsort
  qsort_lem agrees [] ws = (tt, tt, Perm.rfl)
  qsort_lem agrees (x ∷ xs) ws =
      let (a, b, c) = qsort_lem agrees xs ws.1 in
      let (a', b', c') = insert_lem agrees x (qsort compare xs) 0 ws.0 a (omega arith) b in
      (a', b', Perm.trans c' (Perm.cons x c))

-- If the addresses of the relocations lie within 2 GiB, sorting them by reloc_compare, an `int` that the
-- 64-bit difference of two addresses is cut to, gives the same relocations in ascending order.
pub qsort-reloc_compare :
    (low : ℕ) (relocs : List ExecReloc)
    → AllInWindow (λ (r : ExecReloc). r.vaddr) low relocs
    → Ascends (λ (r : ExecReloc). r.vaddr) 0 (qsort reloc_compare relocs)
      × Perm (qsort reloc_compare relocs) relocs
unfolding reloc_compare
qsort-reloc_compare low relocs h =
    let (_, b, c) =
      qsort_lem reloc_compare (λ (r : ExecReloc). r.vaddr) low
        (λ x y (p : InWindow (λ (r : ExecReloc). r.vaddr) low x)
            (q : InWindow (λ (r : ExecReloc). r.vaddr) low y).
          difference_sign x.vaddr y.vaddr low p.0 p.1 q.0 q.1 p.2 q.2)
        relocs h in
    (b, c)
