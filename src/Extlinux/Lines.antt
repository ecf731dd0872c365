-- ===== src/Extlinux/Lines.antt =====
-- `extlinux_next_entry` against the list of the lines of the text: its loop needs no more fuel than
-- it is given, and successive calls visit the label lines one by one.
use loli_loader.Base.{
  ℕ, zero, suc, ◌≤◌, ◌≡◌, refl, ◌∙◌, Option, none, some, List, [], ◌∷◌, map, arith, Bool-cases,
  Option-cases, ◌==◌, if◌then◌else◌, inl, inr, ap, Bytes, length, keep,
}
use loli_loader.Extlinux.{skip_space, next_line, entry_loop, rounds, is_label, extlinux_next_entry}
use loli_loader.Extlinux.Suffix.{length-skip_space, next_line-length}

-- The starts of the lines behind the first one; the end of the text starts no line.
unfoldable pub later : Bytes → List Bytes
later [] = []
later (c ∷ p) =
    let rest = later p in if c == b'\n' then elim p [ [] ↦ [] | d ∷ q ↦ (d ∷ q) ∷ rest ] else rest

abbrev pub lines_of : Option Bytes → List Bytes
lines_of none = []
lines_of (some p) = p ∷ later p

-- The label lines among lines, without their leading blanks.
abbrev pub labels : List Bytes → List Bytes
labels ps = keep (λ p. is_label p) (map skip_space ps)

-- The entries of a configuration.
abbrev pub entries : Bytes → List Bytes
entries conf = labels (lines_of (some conf))

-- An entry that a call returned, and the entries that calls from there on still have to return.
abbrev pub visits : Option Bytes → List Bytes
visits none = []
visits (some e) = e ∷ labels (later e)

pub lines_of-next_line : (p : Bytes) → lines_of (next_line p) ≡ later p
unfolding next_line later
lines_of-next_line [] = refl
lines_of-next_line (c ∷ []) = ground arith
lines_of-next_line (c ∷ d ∷ p) = ground (arith, lines_of-next_line (d ∷ p))

pub later-skip_space : (p : Bytes) → later (skip_space p) ≡ later p
unfolding later skip_space
later-skip_space [] = refl
later-skip_space (c ∷ []) = ground arith
later-skip_space (c ∷ d ∷ p) = ground (arith, later-skip_space (d ∷ p))

pub later-nil : (p : Bytes) → skip_space p ≡ [] → later p ≡ []
unfolding later
later-nil p e = rw (← later-skip_space p, e) refl

pub rounds-next_line : (p : Bytes) → rounds (next_line (skip_space p)) ≤ length p
rounds-next_line p = elim (Option-cases (next_line (skip_space p))) [
  | inl n ↦ rw n (omega arith)
  | inr (q, n) ↦ rw n (omega (arith, next_line-length (skip_space p) q n, length-skip_space p))
]

entry_loop-visits :
    (f : ℕ) (p : Option Bytes) → rounds p ≤ f → visits (entry_loop f p) ≡ labels (lines_of p)
unfolding entry_loop
entry_loop-visits f none h = refl
entry_loop-visits zero (some p) h = absurd (omega arith)
entry_loop-visits (suc f) (some p) h = elim (Bool-cases (is_label (skip_space p))) [
  | inl l ↦ rw (l, later-skip_space p) refl
  | inr l ↦ rw l (
      entry_loop-visits f (next_line (skip_space p)) (omega (arith, rounds-next_line p))
      ∙ ap labels (lines_of-next_line (skip_space p) ∙ later-skip_space p))
]

-- The first call returns the first entry, and leaves the rest to the calls from there.
pub next_entry-first : (conf : Bytes) → visits (extlinux_next_entry (some conf) none) ≡ entries conf
unfolding extlinux_next_entry
next_entry-first conf = entry_loop-visits (suc (length conf)) (some conf) (omega arith)

-- A call from an entry returns the next one.
pub next_entry-next :
    (last : Bytes) → visits (extlinux_next_entry none (some last)) ≡ labels (later last)
unfolding extlinux_next_entry
next_entry-next last =
    entry_loop-visits (rounds (next_line last)) (next_line last) (omega arith)
    ∙ ap labels (lines_of-next_line last)

pub length-later : (p : Bytes) → length (later p) ≤ length p
unfolding later
length-later [] = omega arith
length-later (c ∷ []) = ground arith
length-later (c ∷ d ∷ p) = ground (arith, length-later (d ∷ p))

pub length-labels : (ps : List Bytes) → length (labels ps) ≤ length ps
length-labels [] = omega arith
length-labels (p ∷ ps) = ground (arith, length-labels ps)
