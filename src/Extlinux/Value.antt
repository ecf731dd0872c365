-- ===== src/Extlinux/Value.antt =====
-- `extlinux_get_value` against the lines of one entry, and the extent of the value.
use loli_loader.Base.{
  ℕ, zero, suc, ◌≤◌, ◌≡◌, refl, ◌∙◌, Bool, true, false, not, ◌&&◌, Option, none, some, List, [],
  ◌∷◌, map, arith, Bool-cases, if◌then◌else◌, inl, inr, ap, Bytes, length,
}
use loli_loader.Extlinux.{
  skip_space, match_key, next_line, is_label, rounds, value_loop, value_len, get_label,
  extlinux_get_value,
}
use loli_loader.Extlinux.Lines.{
  later, lines_of, lines_of-next_line, later-skip_space, later-nil, rounds-next_line,
}
use loli_loader.Extlinux.Key.{match_key-end}

-- The value of the first of the lines that has the key.
abbrev pub first_match : Bytes → List Bytes → Option Bytes
first_match key [] = none
first_match key (q ∷ qs) =
    let rest = first_match key qs in elim (match_key q key) [ some v ↦ some v | none ↦ rest ]

-- The lines in front of the first label line.
abbrev pub until_label : List Bytes → List Bytes
until_label [] = []
until_label (q ∷ qs) = let rest = until_label qs in if is_label q then [] else q ∷ rest

-- The lines that belong to an entry, or to the head of the file: a label line at `p` itself is
-- passed over. A search for "label" takes all the lines.
abbrev pub block : Bytes → Bytes → List Bytes
block p key =
    if get_label key
    then map skip_space (p ∷ later p)
    else until_label (map skip_space (if is_label p then later p else p ∷ later p))

abbrev pub sized : Option Bytes → Option (Bytes × ℕ)
sized none = none
sized (some v) = some (v, value_len v)

abbrev searched : Bool → List Bytes → List Bytes
searched want qs = if want then qs else until_label qs

is_label-nil : is_label [] ≡ false
is_label-nil = rw match_key-end refl

-- One round of the loop: the line `q`, with what the later rounds return.
abbrev pub value_round : Bytes → Bool → Bytes → Option (Bytes × ℕ) → Option (Bytes × ℕ)
value_round key want q rest = elim q [
  | [] ↦ none
  | c ∷ r ↦
      if is_label (c ∷ r) && not want
      then none
      else elim (match_key (c ∷ r) key) [ some value ↦ some (value, value_len value) | none ↦ rest ]
]

value_round-first_match :
    (k : ℕ) (key : Bytes) (want : Bool) (q : Bytes) (qs : List Bytes) (rest : Option (Bytes × ℕ))
    → (q ≡ [] → qs ≡ [])
    → rest ≡ sized (first_match (k ∷ key) (searched want qs))
    → value_round (k ∷ key) want q rest ≡ sized (first_match (k ∷ key) (searched want (q ∷ qs)))
value_round-first_match k key true [] qs rest e h =
    rw (e refl) (ground (arith, match_key-end k key))
value_round-first_match k key false [] qs rest e h =
    rw (e refl, is_label-nil) (ground (arith, match_key-end k key))
value_round-first_match k key true (c ∷ q) qs rest e h = ground arith
value_round-first_match k key false (c ∷ q) qs rest e h = ground arith

value_loop-first_match :
    (f : ℕ) (k : ℕ) (key : Bytes) (want : Bool) (p : Option Bytes)
    → rounds p ≤ f
    → value_loop f (k ∷ key) want p
      ≡ sized (first_match (k ∷ key) (searched want (map skip_space (lines_of p))))
unfolding value_loop
value_loop-first_match f k key true none h = refl
value_loop-first_match f k key false none h = refl
value_loop-first_match zero k key want (some p) h = absurd (omega arith)
value_loop-first_match (suc f) k key want (some p) h =
    value_round-first_match k key want (skip_space p) (map skip_space (later p)) _
      (λ e. ap (map skip_space) (later-nil p e))
      (value_loop-first_match f k key want (next_line (skip_space p))
          (omega (arith, rounds-next_line p))
        ∙ ap (λ ls. sized (first_match (k ∷ key) (searched want (map skip_space ls))))
            (lines_of-next_line (skip_space p) ∙ later-skip_space p))

-- For a key that is not empty, the value is that of the first line of the block with the key.
pub extlinux_get_value-first_match :
    (p : Bytes) (k : ℕ) (key : Bytes)
    → extlinux_get_value p (k ∷ key) ≡ sized (first_match (k ∷ key) (block p (k ∷ key)))
unfolding extlinux_get_value
extlinux_get_value-first_match p k key = elim (Bool-cases (get_label (k ∷ key))) [
  | inl w ↦ rw w (value_loop-first_match (suc (length p)) k key true (some p) (omega arith))
  | inr w ↦ rw w (elim (Bool-cases (is_label p)) [
    | inl l ↦
        rw (l, ← lines_of-next_line p)
          (value_loop-first_match (rounds (next_line p)) k key false (next_line p) (omega arith))
    | inr l ↦ rw l (value_loop-first_match (suc (length p)) k key false (some p) (omega arith))
  ])
]
