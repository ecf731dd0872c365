-- ===== src/Extlinux/Line.antt =====
-- What every match of `match_key` has: it stays in its line, and is a value.
use loli_loader.Base.{
  ℕ, zero, suc, ◌≡◌, refl, sym, ◌∙◌, false, ◌&&◌, none, some, [], ◌∷◌, arith, Bool-cases, ◌==◌, inl,
  inr, ap, none-ne-some, Bytes, length,
}
use loli_loader.Extlinux.{is_space, skip_space, match_end, match_loop, match_key, next_line}
use loli_loader.Extlinux.Suffix.{next_line-skip_space}
use loli_loader.Extlinux.Key.{IsValue, match_end-some}

-- A key without a newline matches within a line: the value's next line is that of the text.
abbrev pub NoNewline : Bytes → Type 0
NoNewline [] = Unit
NoNewline (c ∷ s) = ((c == b'\n') ≡ false) × NoNewline s

pub skip_space-NoNewline : (s : Bytes) → NoNewline s → NoNewline (skip_space s)
unfolding skip_space
skip_space-NoNewline [] h = tt
skip_space-NoNewline (c ∷ s) h = ground (arith, skip_space-NoNewline s h.1)

next_line-cons : (c : ℕ) (p : Bytes) → (c == b'\n') ≡ false → next_line (c ∷ p) ≡ next_line p
unfolding next_line
next_line-cons c p h = rw h

pub match_loop-nil : (f : ℕ) (p v : Bytes) → match_loop f p [] ≡ some v → match_end p ≡ some v
unfolding match_loop
match_loop-nil f p v h = h

match_loop-next_line :
    (f : ℕ) (p key v : Bytes)
    → NoNewline key
    → match_loop f p key ≡ some v
    → next_line p ≡ next_line v
unfolding match_loop
match_loop-next_line f p [] v n h =
    sym (next_line-skip_space p) ∙ ap next_line (match_end-some p v (match_loop-nil f p v h)).0
match_loop-next_line f [] (k ∷ key) v n h = absurd (ground arith)
match_loop-next_line zero (c ∷ p) (k ∷ key) v n h = absurd (ground arith)
match_loop-next_line (suc f) (c ∷ p) (k ∷ key) v n h = elim (Bool-cases (c == k)) [
  | inr ne ↦ absurd (none-ne-some (rw ne at h))
  | inl e ↦ next_line-cons c p (ground arith) ∙ elim (Bool-cases (is_space key && is_space p)) [
    | inl b ↦
        sym (next_line-skip_space p)
        ∙ match_loop-next_line f (skip_space p) (skip_space key) v (skip_space-NoNewline key n.1)
            (rw (e, b) at h)
    | inr b ↦ match_loop-next_line f p key v n.1 (rw (e, b) at h)
  ]
]

pub match_key-next_line :
    (p key v : Bytes) → NoNewline key → match_key p key ≡ some v → next_line p ≡ next_line v
unfolding match_key
match_key-next_line p key v n h = match_loop-next_line (length key) p key v n h

pub match_loop-end : (f k : ℕ) (key : Bytes) → none ≡ match_loop f [] (k ∷ key)
unfolding match_loop
match_loop-end zero k key = refl
match_loop-end (suc f) k key = refl

match_loop-IsValue : (f : ℕ) (p key v : Bytes) → match_loop f p key ≡ some v → IsValue v
unfolding match_loop
match_loop-IsValue f p [] v h = (match_end-some p v (match_loop-nil f p v h)).1
match_loop-IsValue f [] (k ∷ key) v h = absurd (none-ne-some (match_loop-end f k key ∙ h))
match_loop-IsValue zero (c ∷ p) (k ∷ key) v h = absurd (none-ne-some h)
match_loop-IsValue (suc f) (c ∷ p) (k ∷ key) v h = elim (Bool-cases (c == k)) [
  | inr ne ↦ absurd (none-ne-some (rw ne at h))
  | inl e ↦ elim (Bool-cases (is_space key && is_space p)) [
    | inl b ↦ match_loop-IsValue f (skip_space p) (skip_space key) v (rw (e, b) at h)
    | inr b ↦ match_loop-IsValue f p key v (rw (e, b) at h)
  ]
]

-- Whatever the key, a match is a value.
pub match_key-IsValue : (p key v : Bytes) → match_key p key ≡ some v → IsValue v
unfolding match_key
match_key-IsValue p key v h = match_loop-IsValue (length key) p key v h
