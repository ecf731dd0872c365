-- ===== src/Elf2Efi/Gcd/Common.antt =====
-- `gcd` ends, with the greatest common divisor; the alignment of the executable is a common multiple.
use Prim.Native.Nat.{◌∣◌}
use native.Mathlib.Nat.{dvd-zero, dvd-mod_iff, mod-lt}
use loli_loader.Base.{ℕ, zero, suc, ◌%◌, ◌<◌, ◌≡◌, ◌↔◌, refl, some, arith, ==_false, ℕ_discrete}
use loli_loader.Elf2Efi.{done}
use loli_loader.Elf2Efi.Gcd.{gcd_loop, gcd}

-- `g` has exactly the common divisors of `a` and `b` as divisors.
abbrev IsGcd : ℕ → ℕ → ℕ → Type 0
IsGcd a b g = (c : ℕ) → (c ∣ g) ↔ ((c ∣ a) × (c ∣ b))

gcd_loop-IsGcd : (fuel a b : ℕ) → b < fuel → (g : ℕ) × (gcd_loop fuel a b ≡ some g) × IsGcd a b g
unfolding gcd_loop
gcd_loop-IsGcd zero a b h = absurd (omega arith)
gcd_loop-IsGcd (suc fuel) a b h = elim (ℕ_discrete b 0) [
  | yes z ↦ (a, rw z refl, λ c. ((λ d. (d, rw z (dvd-zero c))), λ p. p.0))
  | no n ↦
      let (g, e, k) =
        gcd_loop-IsGcd fuel b (a % b) (omega (arith, mod-lt a {m = b} (omega arith))) in
      (g, rw (==_false b 0 n) e, λ c. step c g k)
]
  where
    step : (c g : ℕ) → IsGcd b (a % b) g → (c ∣ g) ↔ ((c ∣ a) × (c ∣ b))
    step c g k = (
      (λ d. let (x, y) = (k c).0 d in ((dvd-mod_iff c x).0 y, x)),
      λ (p : (c ∣ a) × (c ∣ b)). (k c).1 (p.1, (dvd-mod_iff c (p.1)).1 (p.0)),
    )

-- The recursion of gcd ends for all arguments, after at most one call more than its second argument,
-- and its result has exactly the common divisors of the arguments as divisors.
pub gcd-IsGcd :
    (a b : ℕ)
    → (g : ℕ) × (gcd_loop (suc b) a b ≡ some g)
      × (gcd a b ≡ done g)
      × ((c : ℕ) → (c ∣ g) ↔ ((c ∣ a) × (c ∣ b)))
unfolding gcd
gcd-IsGcd a b = let (g, e, k) = gcd_loop-IsGcd (suc b) a b (omega arith) in (g, e, rw e refl, k)
