-- ===== src/Extlinux/Suffix.antt =====
-- The pointers that src/extlinux.c computes point into the text that it was given.
use loli_loader.Base.{
  ℕ, zero, suc, ◌≤◌, ◌<◌, ◌≡◌, refl, some, [], ◌∷◌, arith, Bool-cases, Option-cases, ◌==◌, inl, inr,
  Bytes, length, IsSuffix, whole, behind, IsSuffix-trans, length-IsSuffix, some_eq,
}
use loli_loader.Extlinux.{blank, skip_space, next_line, entry_loop, is_label}

pub skip_space-IsSuffix : (p : Bytes) → IsSuffix (skip_space p) p
unfolding skip_space
skip_space-IsSuffix [] = whole
skip_space-IsSuffix (c ∷ p) = elim (Bool-cases (blank c)) [
  | inl e ↦ rw e (behind (skip_space-IsSuffix p))
  | inr e ↦ rw e whole
]

pub skip_space_idem : (p : Bytes) → skip_space (skip_space p) ≡ skip_space p
unfolding skip_space
skip_space_idem [] = refl
skip_space_idem (c ∷ p) = ground (arith, skip_space_idem p)

pub length-skip_space : (p : Bytes) → length (skip_space p) ≤ length p
length-skip_space p = length-IsSuffix (skip_space-IsSuffix p)

pub next_line-length : (p q : Bytes) → next_line p ≡ some q → length q < length p
unfolding next_line
next_line-length [] q h = ground arith
next_line-length (c ∷ []) q h = ground arith
next_line-length (c ∷ d ∷ p) q h = ground (arith, next_line-length (d ∷ p) q)

pub next_line-IsSuffix : (p q : Bytes) → next_line p ≡ some q → IsSuffix q p
unfolding next_line
next_line-IsSuffix [] q h = absurd (cc)
next_line-IsSuffix (c ∷ []) q h = absurd (ground arith)
next_line-IsSuffix (c ∷ d ∷ p) q h = elim (Bool-cases (c == b'\n')) [
  | inl e ↦ rw (← some_eq (rw e at h)) (behind whole)
  | inr e ↦ behind (next_line-IsSuffix (d ∷ p) q (rw e at h))
]

pub next_line-skip_space : (p : Bytes) → next_line (skip_space p) ≡ next_line p
unfolding next_line skip_space
next_line-skip_space [] = refl
next_line-skip_space (c ∷ []) = ground arith
next_line-skip_space (c ∷ d ∷ p) = ground (arith, next_line-skip_space (d ∷ p))

-- `entry_loop` returns a line of its text, without its leading blanks.
pub entry_loop-IsSuffix : (f : ℕ) (p e : Bytes) → entry_loop f (some p) ≡ some e → IsSuffix e p
unfolding entry_loop
entry_loop-IsSuffix zero p e h = absurd (cc)
entry_loop-IsSuffix (suc f) p e h = elim (Bool-cases (is_label (skip_space p))) [
  | inl l ↦ rw (← some_eq (rw l at h)) (skip_space-IsSuffix p)
  | inr l ↦ elim (Option-cases (next_line (skip_space p))) [
    | inl n ↦ absurd (ground (arith))
    | inr (q, n) ↦
        IsSuffix-trans (entry_loop-IsSuffix f q e (rw (l, n) at h))
          (next_line-IsSuffix p q (rw next_line-skip_space at n))
  ]
]
