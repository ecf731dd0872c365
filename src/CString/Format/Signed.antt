-- ===== src/CString/Format/Signed.antt =====
-- What `vsprintf` prints for "%d".
use loli_loader.Base.{
  ℕ, suc, ◌+◌, ◌-◌, ◌%◌, ◌^◌, ◌<◌, ◌≤◌, ◌≡◌, refl, ◌∙◌, true, false, Option, some, [], ◌∷◌, arith,
  ltb, Bool-cases, inl, inr, Bytes, length, codes,
}
use loli_loader.Base.Int.{ℤ, pos, negsuc, signed32}
use loli_loader.Memory.{
  Mem, update, Holds, IsMapped, IsBlock, SameOutside, terminated, store-some, update_self,
  update_ne, update-Holds, append-Holds, update-IsMapped,
}
use loli_loader.CString.Number.{itoa_n}
use loli_loader.CString.Number.Print.{numeral, itoa_n-Prints}
use loli_loader.CString.Format.{sign_extend, is_minus, prefix, convert, format_loop, vsprintf}

-- The decimal text of an integer.
abbrev pub decimal_text : ℤ → Bytes
decimal_text (pos n) = numeral 10 n
decimal_text (negsuc n) = b'-' ∷ numeral 10 (suc n)

convert_plain :
    (m m' : Mem) (p value n len : ℕ)
    → is_minus value ≡ false
    → value % 2 ^ 32 ≡ n
    → itoa_n m p n 10 ≡ some (len, m')
    → convert m p b'd' false value 10 ≡ some (m', p + len, 10)
unfolding convert prefix
convert_plain m m' p value n len a b h = rw (a, b, h) refl

convert_minus :
    (m m' : Mem) (p value n len : ℕ)
    → is_minus value ≡ true
    → (2 ^ 64 - value) % 2 ^ 32 ≡ n
    → IsMapped m p
    → itoa_n (update m p b'-') (p + 1) n 10 ≡ some (len, m')
    → convert m p b'd' false value 10 ≡ some (m', p + 1 + len, 10)
unfolding convert prefix
convert_minus m m' p value n len a b k h = rw (a, store-some m p b'-' k, b, h) refl

vsprintf_d :
    (f : ℕ) (m m' : Mem) (p w q base : ℕ)
    → convert m p b'd' false (sign_extend w) 10 ≡ some (m', q, base)
    → IsMapped m' q
    → vsprintf f m p (codes "%d") (w ∷ []) ≡ some (update m' q 0)
unfolding vsprintf format_loop
vsprintf_d f m m' p w q base h k = rw (h, store-some m' q 0 k) refl

-- A run that leaves the text and a terminator at `p`, and writes no other cell.
abbrev pub Formats : Mem → ℕ → Bytes → Option Mem → Type 0
Formats m p t r =
    (m' : Mem) × (r ≡ some m') × Holds m' p (terminated t) × SameOutside p (length t + 1) m m'

Formats-plain :
    (f : ℕ) (m : Mem) (p w : ℕ)
    → w < 2 ^ 31
    → IsBlock m p (length (numeral 10 w) + 1)
    → Formats m p (numeral 10 w) (vsprintf f m p (codes "%d") (w ∷ []))
Formats-plain f m p w l b =
    let (m', e, h, o) = itoa_n-Prints m p w 10 (omega arith) (λ i k. b i (omega arith)) in
    let q = p + length (numeral 10 w) in
    let (v, g) = b (length (numeral 10 w)) (omega arith) in
    (
      update m' q 0,
      vsprintf_d f m m' p w q 10
          (convert_plain m m' p (sign_extend w) w (length (numeral 10 w)) (ground arith)
            (ground arith) e)
          (v, o q (inr (omega arith)) ∙ g),
      append-Holds (update m' q 0) p (numeral 10 w) (0 ∷ [])
          (update-Holds m' q 0 p (numeral 10 w) (inr (omega arith)) h) (update_self m' q 0, tt),
      λ x k. update_ne m' q 0 x (ground arith) ∙ o x (ground arith),
    )

Formats-minus :
    (f : ℕ) (m : Mem) (p w n : ℕ)
    → 2 ^ 31 ≤ w
    → w < 2 ^ 32
    → n ≡ 2 ^ 32 - w
    → IsBlock m p (length (numeral 10 n) + 2)
    → Formats m p (b'-' ∷ numeral 10 n) (vsprintf f m p (codes "%d") (w ∷ []))
Formats-minus f m p w n l u z b =
    let m1 = update m p b'-' in
    let z0 : p + 0 ≡ p = omega arith in
    let mapped : IsMapped m p = rw z0 at (b 0 (omega arith)) in
    let (m', e, h, o) = itoa_n-Prints m1 (p + 1) n 10 (omega arith) (λ i k.
      let y : p + (1 + i) ≡ p + 1 + i = omega arith in
      rw y at (update-IsMapped m p b'-' (p + (1 + i)) (b (1 + i) (omega arith)))) in
    let q = p + 1 + length (numeral 10 n) in
    let y : p + (length (numeral 10 n) + 1) ≡ q = omega arith in
    let (v, g) = rw y at (b (length (numeral 10 n) + 1) (omega arith)) in
    let s : p + suc (length (numeral 10 n)) ≡ q = omega arith in
    (
      update m' q 0,
      vsprintf_d f m m' p w q 10
          (convert_minus m m' p (sign_extend w) n (length (numeral 10 n)) (ground arith)
            (ground arith) mapped e)
          (v, o q (inr (omega arith)) ∙ update_ne m p b'-' q (omega arith) ∙ g),
      (
        update_ne m' q 0 p (omega arith) ∙ o p (inl (omega arith)) ∙ update_self m p b'-',
        append-Holds (update m' q 0) (p + 1) (numeral 10 n) (0 ∷ [])
            (update-Holds m' q 0 (p + 1) (numeral 10 n) (inr (omega arith)) h)
            (update_self m' q 0, tt),
      ),
      λ x k.
          update_ne m' q 0 x (ground arith)
          ∙ o x (ground arith)
          ∙ update_ne m p b'-' x (ground arith),
    )

-- For "%d" and any `int`, `vsprintf` leaves the integer's decimal text, with a minus sign in front of a
-- negative one, the smallest included, and a terminator, and writes no other cell, if the block has
-- room for both.
pub vsprintf-Formats :
    (f : ℕ) (m : Mem) (p w : ℕ)
    → w < 2 ^ 32
    → IsBlock m p (length (decimal_text (signed32 w)) + 1)
    → Formats m p (decimal_text (signed32 w)) (vsprintf f m p (codes "%d") (w ∷ []))
vsprintf-Formats f m p w u b = elim (Bool-cases (ltb w (2 ^ 31))) [
  | inl h ↦ rw h (Formats-plain f m p w (ground arith) (rw h at b))
  | inr h ↦ rw h (
      Formats-minus f m p w (suc (2 ^ 32 - w - 1)) (ground arith) u (omega arith)
        λ i k. (rw h at b) i (omega arith))
]
