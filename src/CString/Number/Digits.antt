-- ===== src/CString/Number/Digits.antt =====
-- `atou` against the value of a decimal numeral.
use native.Mathlib.Nat.{div-add-mod}
use loli_loader.Base.{
  ℕ, zero, suc, ◌+◌, ◌-◌, ◌*◌, ◌%◌, ◌^◌, ◌≤◌, ◌<◌, ◌≡◌, ◌≢◌, refl, ◌∙◌, ap, Bool, true, false, ◌||◌,
  [], ◌∷◌, ltb, Bool-cases, inl, inr, arith, Bytes, length, get_or, take, dec_lt, take_all,
}
use loli_loader.Base.Int.{pos, negsuc, signed32}
use loli_loader.CString.Number.{atou_loop, atou}

-- `*p < '0' || *p > '9'`
abbrev pub no_digit : ℕ → Bool
no_digit c = ltb c b'0' || ltb b'9' c

abbrev pub AreDigits : Bytes → Type 0
AreDigits [] = Unit
AreDigits (c ∷ s) = (b'0' ≤ c) × (c ≤ b'9') × AreDigits s

-- The value of a decimal numeral, read from the left.
abbrev pub decimal_from : ℕ → Bytes → ℕ
decimal_from acc [] = acc
decimal_from acc (c ∷ s) = decimal_from (10 * acc + (c - b'0')) s

abbrev pub decimal : Bytes → ℕ
decimal s = decimal_from 0 s

abbrev pub int_mod : ℕ
int_mod = 2 ^ 32

wrap_mul : (w v r : ℕ) → (r % int_mod + w % int_mod * v) % int_mod ≡ (r + w * v) % int_mod
wrap_mul w v r = omega (arith, ap (λ (t : ℕ). t * v) (div-add-mod w int_mod))

decimal_from-take :
    (s : Bytes) (k acc : ℕ)
    → k < length s
    → decimal_from acc (take (suc k) s) ≡ 10 * decimal_from acc (take k s) + (get_or s k 0 - b'0')
decimal_from-take [] k acc h = absurd (omega arith)
decimal_from-take (c ∷ s) zero acc h = refl
decimal_from-take (c ∷ s) (suc k) acc h =
    decimal_from-take s k (10 * acc + (c - b'0')) (omega arith)

AreDigits-get : (s : Bytes) (k : ℕ) → AreDigits s → k < length s → no_digit (get_or s k 0) ≡ false
AreDigits-get [] k h l = absurd (omega arith)
AreDigits-get (c ∷ s) zero h l = ground arith
AreDigits-get (c ∷ s) (suc k) h l = AreDigits-get s k h.2 (omega arith)

atou_loop-step :
    (s : Bytes) (k w r : ℕ)
    → no_digit (get_or s k 0) ≡ false
    → atou_loop s (suc k) (w % int_mod) (r % int_mod)
      ≡ atou_loop s k ((w * 10) % int_mod) ((r + w * (get_or s k 0 - b'0')) % int_mod)
unfolding atou_loop
atou_loop-step s k w r h =
    let weight : (w % int_mod * 10) % int_mod ≡ (w * 10) % int_mod = omega arith in
    rw (h, weight, wrap_mul w (get_or s k 0 - b'0') r) refl

atou_loop-decimal :
    (s : Bytes) (k w r : ℕ)
    → AreDigits s
    → k ≤ length s
    → atou_loop s k (w % int_mod) (r % int_mod) ≡ signed32 ((r + w * decimal (take k s)) % int_mod)
unfolding atou_loop
atou_loop-decimal s zero w r h l = ap signed32 (omega arith)
atou_loop-decimal s (suc k) w r h l =
    let d = get_or s k 0 - b'0' in
    let v = decimal (take k s) in
    let same : r + w * d + w * 10 * v ≡ r + w * (10 * v + d) = grind arith in
    atou_loop-step s k w r (AreDigits-get s k h (omega arith))
    ∙ atou_loop-decimal s k (w * 10) (r + w * d) h (omega arith)
    ∙ ap (λ x. signed32 (x % int_mod)) (rw (decimal_from-take s k 0 (omega arith)) same)

-- On a decimal numeral whose value an `int` can hold, `atou` returns this value.
pub atou-decimal :
    (s : Bytes) → s ≢ [] → AreDigits s → decimal s < 2 ^ 31 → atou s ≡ pos (decimal s)
unfolding atou
atou-decimal [] n h l = absurd (n refl)
atou-decimal (c ∷ s) n h l =
    atou_loop-decimal (c ∷ s) (length (c ∷ s)) 1 0 h (omega arith)
    ∙ rw (take_all (c ∷ s) (length (c ∷ s)) (omega arith))
        (ap signed32 (small (decimal (c ∷ s)) l) ∙ ground arith)
  where
    small : (v : ℕ) → v < 2 ^ 31 → (0 + 1 * v) % int_mod ≡ v
    small v b = omega arith

atou_loop-no_digit :
    (s : Bytes) (k i w r : ℕ)
    → i < k
    → no_digit (get_or s i 0) ≡ true
    → atou_loop s k w r ≡ negsuc 0
unfolding atou_loop
atou_loop-no_digit s zero i w r l h = absurd (omega arith)
atou_loop-no_digit s (suc k) i w r l h = elim (Bool-cases (no_digit (get_or s k 0))) [
  | inl b ↦ rw b
  | inr b ↦ rw b (elim (dec_lt i k) [
    | yes below ↦ atou_loop-no_digit s k i _ _ below h
    | no above ↦ let e : k ≡ i = omega arith in absurd (cc)
  ])
]

-- A byte that is no digit, anywhere in the text, makes `atou` return -1.
pub atou-no_digit :
    (s : Bytes) (i : ℕ) → i < length s → no_digit (get_or s i 0) ≡ true → atou s ≡ negsuc 0
unfolding atou
atou-no_digit [] i l h = absurd (omega arith)
atou-no_digit (c ∷ s) i l h = atou_loop-no_digit (c ∷ s) (length (c ∷ s)) i 1 0 l h
