-- ===== src/CString/Number/Decimal.antt =====
-- Decimal numerals: what `itoa_n` prints to the base 10, `atou` reads back.
use loli_loader.Base.{
  ℕ, zero, suc, ◌+◌, ◌-◌, ◌*◌, ◌/◌, ◌%◌, ◌^◌, ◌≤◌, ◌<◌, ◌≡◌, ◌≢◌, refl, ◌∙◌, ap, [], ◌∷◌, ◌++◌, ltb,
  Bool-cases, inl, inr, arith, Bytes, length,
}
use loli_loader.Base.Int.{pos}
use loli_loader.Memory.{Mem, IsBlock}
use loli_loader.CString.Number.{digit, atou}
use loli_loader.CString.Number.Digits.{AreDigits, decimal, decimal_from, atou-decimal}
use loli_loader.CString.Number.Print.{numeral, numeral_fuel, Prints, itoa_n-Prints}

digit-decimal : (k : ℕ) → k < 10 → digit k ≡ b'0' + k
digit-decimal zero h = refl
digit-decimal (suc zero) h = refl
digit-decimal (suc (suc zero)) h = refl
digit-decimal (suc (suc (suc zero))) h = refl
digit-decimal (suc (suc (suc (suc zero)))) h = refl
digit-decimal (suc (suc (suc (suc (suc zero))))) h = refl
digit-decimal (suc (suc (suc (suc (suc (suc zero)))))) h = refl
digit-decimal (suc (suc (suc (suc (suc (suc (suc zero))))))) h = refl
digit-decimal (suc (suc (suc (suc (suc (suc (suc (suc zero)))))))) h = refl
digit-decimal (suc (suc (suc (suc (suc (suc (suc (suc (suc zero))))))))) h = refl
digit-decimal (suc (suc (suc (suc (suc (suc (suc (suc (suc (suc k)))))))))) h = absurd (omega arith)

decimal_from-append :
    (s : Bytes) (c acc : ℕ) → decimal_from acc (s ++ c ∷ []) ≡ 10 * decimal_from acc s + (c - b'0')
decimal_from-append [] c acc = refl
decimal_from-append (d ∷ s) c acc = decimal_from-append s c (10 * acc + (d - b'0'))

AreDigits-append : (s : Bytes) (c : ℕ) → AreDigits s → b'0' ≤ c → c ≤ b'9' → AreDigits (s ++ c ∷ [])
AreDigits-append [] c h l u = (l, u, tt)
AreDigits-append (d ∷ s) c h l u = (h.0, h.1, AreDigits-append s c h.2 l u)

-- A text that is the decimal numeral of `n`.
abbrev IsDecimal : ℕ → Bytes → Type 0
IsDecimal n s = AreDigits s × (decimal s ≡ n) × (s ≢ [])

IsDecimal-digit : (n : ℕ) → n < 10 → IsDecimal n (digit n ∷ [])
IsDecimal-digit n h =
    let e = digit-decimal n h in ((omega arith, omega arith, tt), omega arith, λ z. cc)

IsDecimal-append :
    (n q d : ℕ) (s : Bytes)
    → d < 10
    → n ≡ 10 * q + d
    → IsDecimal q s
    → IsDecimal n (s ++ digit d ∷ [])
IsDecimal-append n q d s h e (ds, v, ne) =
    let k = digit-decimal d h in
    (
      AreDigits-append s (digit d) ds (omega arith) (omega arith),
      decimal_from-append s (digit d) 0 ∙ omega arith,
      not_nil s,
    )
  where
    not_nil : (s : Bytes) → s ++ digit d ∷ [] ≢ []
    not_nil [] z = cc
    not_nil (c ∷ s) z = cc

numeral-IsDecimal : (f n : ℕ) → n ≤ f → IsDecimal n (numeral_fuel f 10 n)
numeral-IsDecimal zero n h = IsDecimal-digit n (omega arith)
numeral-IsDecimal (suc f) n h = elim (Bool-cases (ltb n 10)) [
  | inl small ↦ rw small (IsDecimal-digit n (ground arith))
  | inr large ↦ rw large (
      IsDecimal-append n (n / 10) (n % 10) (numeral_fuel f 10 (n / 10)) (omega arith) (omega arith)
        (numeral-IsDecimal f (n / 10) (omega arith)))
]

-- What `itoa_n` prints to the base 10, `atou` reads back, for every number that an `int` can hold.
pub atou-itoa_n :
    (m : Mem) (out n : ℕ)
    → n < 2 ^ 31
    → IsBlock m out (length (numeral 10 n))
    → (s : Bytes) × Prints m out n 10 s × (atou s ≡ pos n)
atou-itoa_n m out n h b =
    let (ds, v, ne) = numeral-IsDecimal n n (omega arith) in
    (
      numeral 10 n,
      itoa_n-Prints m out n 10 (omega arith) b,
      atou-decimal (numeral 10 n) ne ds (omega arith) ∙ ap pos v,
    )
