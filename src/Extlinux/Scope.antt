-- ===== src/Extlinux/Scope.antt =====
-- A value never comes from another entry: it ends in front of the next label line.
use loli_loader.Base.{
  ℕ, zero, suc, ◌+◌, ◌≤◌, ◌<◌, ◌≡◌, refl, sym, ◌∙◌, false, Option, none, some, [], ◌∷◌, arith,
  Bool-cases, Option-cases, inl, inr, ap, Bytes, length, some_eq, none-ne-some, length-IsSuffix,
  if◌then◌else◌,
}
use loli_loader.Extlinux.{
  skip_space, match_key, next_line, entry_loop, rounds, is_label, extlinux_next_entry, value_loop,
  value_len, get_label, extlinux_get_value,
}
use loli_loader.Extlinux.Suffix.{entry_loop-IsSuffix}
use loli_loader.Extlinux.Line.{NoNewline, match_key-next_line}
use loli_loader.Extlinux.Value.{value_round}
use loli_loader.Extlinux.Extent.{value_len-le, line_end-next_line}

-- The value that begins at `v` with length `n` ends in front of `e`, both in one text.
abbrev pub EndsBefore : Bytes → ℕ → Bytes → Type 0
EndsBefore v n e = length e + n < length v

entry_from :
    (g : ℕ) (o : Option Bytes) (e : Bytes)
    → entry_loop g o ≡ some e
    → (r : Bytes) × (o ≡ some r) × (length e ≤ length r)
unfolding entry_loop
entry_from g none e h = absurd (none-ne-some h)
entry_from g (some r) e h = (r, refl, length-IsSuffix (entry_loop-IsSuffix g r e h))

matched_before :
    (g : ℕ) (q key v e : Bytes)
    → NoNewline key
    → match_key q key ≡ some v
    → entry_loop g (next_line q) ≡ some e
    → EndsBefore v (value_len v) e
matched_before g q key v e n m h =
    let (r, next, le) = entry_from g (next_line q) e h in
    omega
      (arith, value_len-le v, line_end-next_line v r (sym (match_key-next_line q key v n m) ∙ next))

-- One round of both loops, on the line `q`.
loops_round :
    (f g : ℕ) (key q v e : Bytes) (n : ℕ)
    → NoNewline key
    → (value_loop f key false (next_line q) ≡ some (v, n)
        → entry_loop g (next_line q) ≡ some e
        → EndsBefore v n e)
    → value_round key false q (value_loop f key false (next_line q)) ≡ some (v, n)
    → (if is_label q then some q else entry_loop g (next_line q)) ≡ some e
    → EndsBefore v n e
loops_round f g key [] v e n nn ih hv he = absurd (none-ne-some hv)
loops_round f g key (c ∷ r) v e n nn ih hv he = elim (Bool-cases (is_label (c ∷ r))) [
  | inl l ↦ absurd (none-ne-some (rw l at hv))
  | inr l ↦ elim (Option-cases (match_key (c ∷ r) key)) [
    | inl m ↦ ih (rw (l, m) at hv) (rw l at he)
    | inr (w, m) ↦
        let found = some_eq (rw (l, m) at hv) in
        let same = ap (λ x. x.0) found in
        let len = ap (λ x. x.1) found in
        rw (← same, ← len) (matched_before g (c ∷ r) key w e nn m (rw l at he))
  ]
]

value_loop-EndsBefore :
    (f g : ℕ) (key v e : Bytes) (n : ℕ) (p : Option Bytes)
    → NoNewline key
    → value_loop f key false p ≡ some (v, n)
    → entry_loop g p ≡ some e
    → EndsBefore v n e
unfolding value_loop entry_loop
value_loop-EndsBefore f g key v e n none nn hv he = absurd (none-ne-some hv)
value_loop-EndsBefore zero g key v e n (some p) nn hv he = absurd (none-ne-some hv)
value_loop-EndsBefore (suc f) zero key v e n (some p) nn hv he = absurd (none-ne-some he)
value_loop-EndsBefore (suc f) (suc g) key v e n (some p) nn hv he =
    loops_round f g key (skip_space p) v e n nn
      (value_loop-EndsBefore f g key v e n (next_line (skip_space p)) nn) hv he

-- The entry that follows the place `p`: an entry, or the head of the configuration.
abbrev pub following : Bytes → Option Bytes
following p =
    if is_label p then extlinux_next_entry none (some p) else extlinux_next_entry (some p) none

-- For a key other than "label" and without a newline, a value that is found at an entry, or at the
-- head of the file, ends in front of the entry that follows.
pub extlinux_get_value-EndsBefore :
    (p key v e : Bytes) (n : ℕ)
    → get_label key ≡ false
    → NoNewline key
    → extlinux_get_value p key ≡ some (v, n)
    → following p ≡ some e
    → EndsBefore v n e
unfolding extlinux_get_value extlinux_next_entry
extlinux_get_value-EndsBefore p key v e n l nn hv he = elim (Bool-cases (is_label p)) [
  | inl b ↦
      value_loop-EndsBefore (rounds (next_line p)) (rounds (next_line p)) key v e n (next_line p) nn
        (rw (l, b) at hv) (rw b at he)
  | inr b ↦
      value_loop-EndsBefore (suc (length p)) (suc (length p)) key v e n (some p) nn
        (rw (l, b) at hv) (rw b at he)
]
