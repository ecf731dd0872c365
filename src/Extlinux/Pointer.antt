-- ===== src/Extlinux/Pointer.antt =====
-- `match_key` and `extlinux_get_value` return pointers into the text that they are given.
use loli_loader.Base.{
  ℕ, zero, suc, ◌≡◌, refl, ◌∙◌, ap, subst, Bool, not, ◌&&◌, Option, none, some, [], ◌∷◌, ◌==◌,
  Bool-cases, Option-cases, inl, inr, Bytes, length, IsSuffix, behind, IsSuffix-trans, some_eq,
  none-ne-some,
}
use loli_loader.Extlinux.{
  is_space, skip_space, match_loop, match_key, next_line, is_label, rounds, value_loop, get_label,
  extlinux_get_value,
}
use loli_loader.Extlinux.Suffix.{skip_space-IsSuffix, next_line-IsSuffix}
use loli_loader.Extlinux.Key.{match_end-some}
use loli_loader.Extlinux.Line.{match_loop-nil, match_loop-end}
use loli_loader.Extlinux.Value.{value_round}

match_loop-IsSuffix : (f : ℕ) (p key v : Bytes) → match_loop f p key ≡ some v → IsSuffix v p
unfolding match_loop
match_loop-IsSuffix f p [] v h =
    rw (← (match_end-some p v (match_loop-nil f p v h)).0) (skip_space-IsSuffix p)
match_loop-IsSuffix f [] (k ∷ key) v h = absurd (none-ne-some (match_loop-end f k key ∙ h))
match_loop-IsSuffix zero (c ∷ p) (k ∷ key) v h = absurd (none-ne-some h)
match_loop-IsSuffix (suc f) (c ∷ p) (k ∷ key) v h = elim (Bool-cases (c == k)) [
  | inr ne ↦ absurd (none-ne-some (rw ne at h))
  | inl e ↦ elim (Bool-cases (is_space key && is_space p)) [
    | inl b ↦ behind (
        IsSuffix-trans (match_loop-IsSuffix f (skip_space p) (skip_space key) v (rw (e, b) at h))
          (skip_space-IsSuffix p))
    | inr b ↦ behind (match_loop-IsSuffix f p key v (rw (e, b) at h))
  ]
]

pub match_key-IsSuffix : (p key v : Bytes) → match_key p key ≡ some v → IsSuffix v p
unfolding match_key
match_key-IsSuffix p key v h = match_loop-IsSuffix (length key) p key v h

value_round-IsSuffix :
    (key : Bytes) (want : Bool) (q v : Bytes) (n : ℕ) (rest : Option (Bytes × ℕ))
    → (rest ≡ some (v, n) → IsSuffix v q)
    → value_round key want q rest ≡ some (v, n)
    → IsSuffix v q
value_round-IsSuffix key want [] v n rest ih h = absurd (none-ne-some h)
value_round-IsSuffix key want (c ∷ q) v n rest ih h =
    elim (Bool-cases (is_label (c ∷ q) && not want)) [
      | inl l ↦ absurd (none-ne-some (rw l at h))
      | inr l ↦ elim (Option-cases (match_key (c ∷ q) key)) [
        | inl m ↦ ih (rw (l, m) at h)
        | inr (w, m) ↦
            let e = ap (λ x. x.0) (some_eq (rw (l, m) at h)) in
            rw (← e) (match_key-IsSuffix (c ∷ q) key w m)
      ]
    ]

-- What a search from the next line finds lies behind this line.
from_next :
    (q v : Bytes) (n : ℕ) (search : Option Bytes → Option (Bytes × ℕ))
    → search none ≡ none
    → ((r : Bytes) → search (some r) ≡ some (v, n) → IsSuffix v r)
    → search (next_line q) ≡ some (v, n)
    → IsSuffix v q
from_next q v n search z ih h = elim (Option-cases (next_line q)) [
  | inl e ↦
      absurd
        (none-ne-some (subst (λ x. x ≡ some (v, n)) z (subst (λ x. search x ≡ some (v, n)) e h)))
  | inr (r, e) ↦
      IsSuffix-trans (ih r (subst (λ x. search x ≡ some (v, n)) e h)) (next_line-IsSuffix q r e)
]

value_loop-none : (f : ℕ) (key : Bytes) (want : Bool) → value_loop f key want none ≡ none
unfolding value_loop
value_loop-none zero key want = refl
value_loop-none (suc f) key want = refl

value_loop-IsSuffix :
    (f : ℕ) (key : Bytes) (want : Bool) (v : Bytes) (n : ℕ) (p : Bytes)
    → value_loop f key want (some p) ≡ some (v, n)
    → IsSuffix v p
unfolding value_loop
value_loop-IsSuffix zero key want v n p h = absurd (none-ne-some h)
value_loop-IsSuffix (suc f) key want v n p h =
    IsSuffix-trans
      (value_round-IsSuffix key want (skip_space p) v n
        (value_loop f key want (next_line (skip_space p)))
        (from_next (skip_space p) v n (value_loop f key want) (value_loop-none f key want)
          (value_loop-IsSuffix f key want v n))
        h)
      (skip_space-IsSuffix p)

-- A value that is found stands in the text from `p` on.
pub extlinux_get_value-IsSuffix :
    (p key v : Bytes) (n : ℕ) → extlinux_get_value p key ≡ some (v, n) → IsSuffix v p
unfolding extlinux_get_value
extlinux_get_value-IsSuffix p key v n h = elim (Bool-cases (not (get_label key) && is_label p)) [
  | inl b ↦
      from_next p v n (λ o. value_loop (rounds o) key (get_label key) o)
        (value_loop-none 0 key (get_label key))
        (λ r. value_loop-IsSuffix (suc (length r)) key (get_label key) v n r) (rw b at h)
  | inr b ↦ value_loop-IsSuffix (suc (length p)) key (get_label key) v n p (rw b at h)
]
