-- ===== src/CString/Number/Print.antt =====
-- What `itoa_n` writes: the numeral of its argument, which `atou` reads back.
use native.Mathlib.Nat.{div-lt_self, mod-eq_of_lt}
use loli_loader.Base.{
  ℕ, zero, suc, ◌+◌, ◌/◌, ◌%◌, ◌≤◌, ◌<◌, ◌≡◌, refl, sym, ◌∙◌, ap, false, some, [], ◌∷◌, ◌++◌, ◌==◌,
  ltb, if◌then◌else◌, Bool-cases, inl, inr, arith, Bytes, length, get_or, rev, subst, length-rev,
}
use loli_loader.Memory.{
  Mem, update, Holds, IsMapped, IsBlock, SameOutside, store-some, update_self, update_ne,
  update-IsBlock, IsBlock-head, IsBlock-tail, SameOutside-update,
}
use loli_loader.Memory.Cells.{Holds-rev, Holds-get}
use loli_loader.CString.Number.{digit, digit_loop, swap_loop, itoa_n}
use loli_loader.CString.Number.Reverse.{swap_loop_lem}

-- The digits of a number, the lowest first; there are none for 0.
abbrev pub low_digits : ℕ → ℕ → ℕ → Bytes
low_digits zero b n = []
low_digits (suc f) b zero = []
low_digits (suc f) b (suc n) = digit (suc n % b) ∷ low_digits f b (suc n / b)

-- The numeral of a number to the base `b`, the highest digit first.
abbrev pub numeral_fuel : ℕ → ℕ → ℕ → Bytes
numeral_fuel zero b n = digit n ∷ []
numeral_fuel (suc f) b n =
    let high = numeral_fuel f b (n / b) in
    if ltb n b then digit n ∷ [] else high ++ digit (n % b) ∷ []

abbrev pub numeral : ℕ → ℕ → Bytes
numeral b n = numeral_fuel n b n

low_digits_zero : (f b : ℕ) → low_digits f b 0 ≡ []
low_digits_zero zero b = refl
low_digits_zero (suc f) b = refl

low_digits-suc :
    (f b n : ℕ) → 0 < n → low_digits (suc f) b n ≡ digit (n % b) ∷ low_digits f b (n / b)
low_digits-suc f b zero h = absurd (omega arith)
low_digits-suc f b (suc n) h = refl

div-zero : (n b : ℕ) → n < b → n / b ≡ 0
div-zero n b h = grind arith

div-pos : (n b : ℕ) → 1 < b → b ≤ n → 0 < n / b
div-pos n b h l = grind arith

rev-low_digits :
    (f b n : ℕ) → 1 < b → 0 < n → n ≤ f → rev (low_digits (suc f) b n) ≡ numeral_fuel f b n
rev-low_digits zero b n hb hn h = absurd (omega arith)
rev-low_digits (suc f) b n hb hn h = elim (Bool-cases (ltb n b)) [
  | inl small ↦
      let l : n < b = ground arith in
      rw (small, low_digits-suc (suc f) b n hn, div-zero n b l, low_digits_zero (suc f) b)
        (ap (λ x. digit x ∷ []) (mod-eq_of_lt l))
  | inr large ↦
      let l : b ≤ n = ground arith in
      let less : n / b < n = div-lt_self hn hb in
      rw (large, low_digits-suc (suc f) b n hn)
        (ap (λ x. x ++ digit (n % b) ∷ [])
          (rev-low_digits f b (n / b) hb (div-pos n b hb l) (omega arith)))
]

digit_loop-step :
    (f : ℕ) (m : Mem) (out n base len : ℕ)
    → 0 < n
    → IsMapped m (out + len)
    → digit_loop (suc f) m out n base len
      ≡ digit_loop f (update m (out + len) (digit (n % base))) out (n / base) base (len + 1)
unfolding digit_loop
digit_loop-step f m out n base len h b =
    let z : (n == 0) ≡ false = ground arith in
    rw (z, digit_loop, store-some m (out + len) (digit (n % base)) b) refl

-- What a loop that writes the bytes `s` at `a` has done.
abbrev Wrote : Mem → ℕ → Bytes → Mem → Type 0
Wrote m a s m' = Holds m' a s × SameOutside a (length s) m m'

Wrote-cons :
    (m m' : Mem) (a c : ℕ) (s : Bytes) → Wrote (update m a c) (a + 1) s m' → Wrote m a (c ∷ s) m'
Wrote-cons m m' a c s (h, o) =
    let (o', e) = SameOutside-update a (length s) c m m' o in ((e, h), o')

digit_loop_zero :
    (f : ℕ) (m : Mem) (out base len : ℕ) → digit_loop (suc f) m out 0 base len ≡ some (len, m)
unfolding digit_loop
digit_loop_zero f m out base len = refl

digit_loop_lem :
    (f : ℕ) (m : Mem) (out n base len : ℕ)
    → 1 < base
    → n < f
    → IsBlock m (out + len) (length (low_digits f base n))
    → (m' : Mem) × (digit_loop f m out n base len ≡ some (len + length (low_digits f base n), m'))
      × Wrote m (out + len) (low_digits f base n) m'
digit_loop_lem zero m out n base len hb h b = absurd (omega arith)
digit_loop_lem (suc f) m out zero base len hb h b =
    (m, digit_loop_zero f m out base len ∙ ap (λ x. some (x, m)) (omega arith), (tt, λ x l. refl))
digit_loop_lem (suc f) m out (suc n) base len hb h b =
    let d = digit (suc n % base) in
    let ds = low_digits f base (suc n / base) in
    let less : suc n / base < suc n = div-lt_self (omega arith) hb in
    let a : out + len + 1 ≡ out + (len + 1) = omega arith in
    let count : len + 1 + length ds ≡ len + suc (length ds) = omega arith in
    let (m', e, w) =
      digit_loop_lem f (update m (out + len) d) out (suc n / base) base (len + 1) hb (omega arith) (
        update-IsBlock m (out + len) d (out + (len + 1)) (length ds)
          (rw a at (IsBlock-tail m (out + len) (length ds) b))) in
    (
      m',
      digit_loop-step f m out (suc n) base len (omega arith)
            (IsBlock-head m (out + len) (length ds) b)
          ∙ rw count at e,
      Wrote-cons m m' (out + len) d ds
          (subst (λ x. Wrote (update m (out + len) d) x ds m') (sym a) w),
    )

-- What a call of `itoa_n` at `out` has done, if it printed `s`.
abbrev pub Prints : Mem → ℕ → ℕ → ℕ → Bytes → Type 0
Prints m out n base s =
    (m' : Mem) × (itoa_n m out n base ≡ some (length s, m'))
    × Holds m' out s
    × SameOutside out (length s) m m'

abbrev HasRoom : Mem → ℕ → Bytes → Type 0
HasRoom m out s = IsBlock m out (length s)

itoa_n_zero :
    (m : Mem) (out base : ℕ) → IsMapped m out → itoa_n m out 0 base ≡ some (1, update m out b'0')
unfolding itoa_n
itoa_n_zero m out base b = rw (store-some m out b'0' b) refl

itoa_n-steps :
    (m m1 m2 : Mem) (out n base len : ℕ)
    → 0 < n
    → digit_loop (suc n) m out n base 0 ≡ some (len, m1)
    → swap_loop m1 out len 0 (len / 2) ≡ some m2
    → itoa_n m out n base ≡ some (len, m2)
unfolding itoa_n
itoa_n-steps m m1 m2 out n base len h e1 e2 =
    let z : (n == 0) ≡ false = ground arith in rw (z, e1, e2) refl

itoa_n-rev :
    (m : Mem) (out n base : ℕ)
    → 1 < base
    → 0 < n
    → HasRoom m out (low_digits (suc n) base n)
    → Prints m out n base (rev (low_digits (suc n) base n))
itoa_n-rev m out n base hb hn b =
    let ds = low_digits (suc n) base n in
    let a : out + 0 ≡ out = omega arith in
    let (m1, e1, (h1, o1)) =
      digit_loop_lem (suc n) m out n base 0 hb (omega arith)
        (subst (λ x. HasRoom m x ds) (sym a) b) in
    let held = subst (λ x. Holds m1 x ds) a h1 in
    let (m2, e2, t, o2) = swap_loop_lem m1 out (length ds) (keeps m1 ds held) in
    let step = e1 ∙ ap (λ x. some (x, m1)) (zero-plus (length ds)) in
    (
      m2,
      itoa_n-steps m m1 m2 out n base (length ds) hn step e2
          ∙ ap (λ x. some (x, m2)) (sym (length-rev ds)),
      Holds-rev m1 m2 out ds held t,
      subst (λ x. SameOutside out x m m2) (sym (length-rev ds))
          (λ x h. o2 x h ∙ subst (λ y. SameOutside y (length ds) m m1) a o1 x h),
    )
  where
    keeps : (m1 : Mem) (ds : Bytes) → Holds m1 out ds → IsBlock m1 out (length ds)
    keeps m1 ds h i l = (get_or ds i 0, Holds-get m1 out i ds h l)

    zero-plus : (k : ℕ) → 0 + k ≡ k
    zero-plus k = omega arith

-- `itoa_n` writes the numeral of `n` to the base at `out`, the highest digit first, returns its
-- length, and writes no other cell, if the block at `out` has room for it.
pub itoa_n-Prints :
    (m : Mem) (out n base : ℕ)
    → 1 < base
    → IsBlock m out (length (numeral base n))
    → Prints m out n base (numeral base n)
itoa_n-Prints m out zero base hb b = itoa_zero m out base (IsBlock-head m out 0 b)
  where
    itoa_zero : (m : Mem) (out base : ℕ) → IsMapped m out → Prints m out 0 base (digit 0 ∷ [])
    itoa_zero m out base b = (
      update m out b'0',
      itoa_n_zero m out base b,
      (update_self m out b'0', tt),
      λ x h. update_ne m out b'0' x (ground arith),
    )
itoa_n-Prints m out (suc n) base hb b =
    let ds = low_digits (suc (suc n)) base (suc n) in
    let turned : rev ds ≡ numeral base (suc n) =
      rev-low_digits (suc n) base (suc n) hb (omega arith) (omega arith) in
    let room : HasRoom m out ds =
      subst (IsBlock m out) (ap length (sym turned) ∙ length-rev ds) b in
    subst (Prints m out (suc n) base) turned (itoa_n-rev m out (suc n) base hb (omega arith) room)
