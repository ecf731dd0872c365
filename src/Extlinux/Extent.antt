-- ===== src/Extlinux/Extent.antt =====
-- The extent of the value that `extlinux_get_value` returns.
use loli_loader.Base.{
  ℕ, zero, suc, ◌+◌, ◌≤◌, ◌<◌, ◌≡◌, refl, sym, ◌∙◌, true, false, Option, none, some, List, [], ◌∷◌,
  arith, Bool-cases, Option-cases, ◌==◌, inl, inr, ap, Bytes, length, get_or, dec_lt, some_eq,
  none-ne-some,
}
use loli_loader.Extlinux.{
  blank, match_key, next_line, value_len, line_end, strip_end, extlinux_get_value,
}
use loli_loader.Extlinux.Key.{IsValue}
use loli_loader.Extlinux.Line.{match_key-IsValue}
use loli_loader.Extlinux.Value.{first_match, block, sized, extlinux_get_value-first_match}

strip_end-le : (v : Bytes) (n : ℕ) → strip_end v n ≤ n
unfolding strip_end
strip_end-le v zero = omega arith
strip_end-le v (suc n) = ground (arith, strip_end-le v n)

-- The last byte that is kept is no blank, and those behind it, up to `n`, are.
strip_end-kept : (v : Bytes) (n : ℕ) {m : ℕ} → strip_end v n ≡ suc m → blank (get_or v m 0) ≡ false
unfolding strip_end
strip_end-kept v zero h = absurd (omega arith)
strip_end-kept v (suc n) {m} h = elim (Bool-cases (blank (get_or v n 0))) [
  | inl b ↦ strip_end-kept v n (rw b at h)
  | inr b ↦ let e : n ≡ m = omega (arith, rw b at h) in rw (← e) b
]

strip_end-stripped : (v : Bytes) (n i : ℕ) → strip_end v n ≤ i → i < n → blank (get_or v i 0) ≡ true
unfolding strip_end
strip_end-stripped v zero i h b = absurd (omega arith)
strip_end-stripped v (suc n) i h b = elim (Bool-cases (blank (get_or v n 0))) [
  | inr s ↦ absurd (omega (arith, rw s at h))
  | inl s ↦ elim (dec_lt i n) [
    | yes l ↦ strip_end-stripped v n i (rw s at h) l
    | no l ↦ let e : n ≡ i = omega arith in rw (← e) s
  ]
]

line_end-newline : (v : Bytes) (i : ℕ) → i < line_end v → (get_or v i 0 == b'\n') ≡ false
unfolding line_end
line_end-newline [] i h = absurd (omega arith)
line_end-newline (c ∷ v) zero h = ground arith
line_end-newline (c ∷ v) (suc i) h = ground (arith, line_end-newline v i)

line_end-stop : (v : Bytes) → (get_or v (line_end v) b'\n' == b'\n') ≡ true
unfolding line_end
line_end-stop [] = refl
line_end-stop (c ∷ v) = ground (arith, line_end-stop v)

line_end-le : (v : Bytes) → line_end v ≤ length v
unfolding line_end
line_end-le [] = omega arith
line_end-le (c ∷ v) = ground (arith, line_end-le v)

pub value_len-le : (v : Bytes) → value_len v ≤ line_end v
unfolding value_len
value_len-le v = strip_end-le v (line_end v)

-- The next line begins behind the newline that ends this one.
pub line_end-next_line : (v q : Bytes) → next_line v ≡ some q → length q + line_end v < length v
unfolding next_line line_end
line_end-next_line [] q h = absurd (none-ne-some h)
line_end-next_line (c ∷ []) q h = absurd (ground arith)
line_end-next_line (c ∷ d ∷ v) q h = ground (arith, line_end-next_line (d ∷ v) q)

-- `n` is the length of the rest of the line at `v`, without the blanks at its end.
pub record IsExtent (v : Bytes) (n : ℕ) : Type 0 where
  pub stop : ℕ
  pub nonempty : 0 < n
  pub within : n ≤ stop
  pub inside : stop ≤ length v
  pub one_line : (i : ℕ) → i < stop → (get_or v i 0 == b'\n') ≡ false
  pub at_end : (get_or v stop b'\n' == b'\n') ≡ true
  pub stripped : (i : ℕ) → n ≤ i → i < stop → blank (get_or v i 0) ≡ true
  pub tight : (i : ℕ) → suc i ≡ n → blank (get_or v i 0) ≡ false

strip_end_positive : (v : Bytes) (n : ℕ) → blank (get_or v 0 0) ≡ false → 0 < n → 0 < strip_end v n
unfolding strip_end
strip_end_positive v zero b h = absurd (omega arith)
strip_end_positive v (suc zero) b h = rw b (omega arith)
strip_end_positive v (suc (suc n)) b h = ground (arith, strip_end_positive v (suc n) b)

line_end_positive : (v : Bytes) → IsValue v → (0 < line_end v) × (blank (get_or v 0 0) ≡ false)
unfolding line_end
line_end_positive [] i = elim i [ ]
line_end_positive (c ∷ v) i = (rw (i.1) (omega arith), i.0)

pub value_len-IsExtent : (v : Bytes) → IsValue v → IsExtent v (value_len v)
unfolding value_len
value_len-IsExtent v i =
    let (pos, first) = line_end_positive v i in
    record {
      stop = line_end v;
      nonempty = strip_end_positive v (line_end v) first pos;
      within = strip_end-le v (line_end v);
      inside = line_end-le v;
      one_line = line_end-newline v;
      at_end = line_end-stop v;
      stripped = strip_end-stripped v (line_end v);
      tight = λ k e. strip_end-kept v (line_end v) (sym e);
    }

first_match-IsValue :
    (key : Bytes) (qs : List Bytes) (v : Bytes) → first_match key qs ≡ some v → IsValue v
first_match-IsValue key [] v h = absurd (none-ne-some h)
first_match-IsValue key (q ∷ qs) v h = elim (Option-cases (match_key q key)) [
  | inl n ↦ first_match-IsValue key qs v (rw (n, first_match) at h)
  | inr (w, m) ↦ rw (← some_eq (rw (m, first_match) at h)) (match_key-IsValue q key w m)
]

sized-some :
    (o : Option Bytes) (v : Bytes) (n : ℕ)
    → sized o ≡ some (v, n)
    → (o ≡ some v) × (n ≡ value_len v)
sized-some none v n h = absurd (none-ne-some h)
sized-some (some w) v n h =
    let e = some_eq h in (ap (λ x. some x.0) e, sym (ap (λ x. x.1) e) ∙ ap (λ x. value_len x.0) e)

-- A value that is found is not empty and lies within one line, and the length that is stored is
-- that of the rest of this line without its trailing blanks.
pub extlinux_get_value-IsExtent :
    (p : Bytes) (k : ℕ) (key v : Bytes) (n : ℕ)
    → extlinux_get_value p (k ∷ key) ≡ some (v, n)
    → IsExtent v n
extlinux_get_value-IsExtent p k key v n h =
    let (m, e) =
      sized-some (first_match (k ∷ key) (block p (k ∷ key))) v n
        (sym (extlinux_get_value-first_match p k key) ∙ h) in
    rw e (value_len-IsExtent v (first_match-IsValue (k ∷ key) (block p (k ∷ key)) v m))
