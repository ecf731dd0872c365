-- ===== src/Elf2Efi/Gcd/Multiple.antt =====
-- The alignment of the executable is a multiple of each segment's.
use Prim.Native.Nat.{◌∣◌}
use native.Mathlib.Nat.{
  dvd_refl, dvd-zero, dvd_trans, dvd_antisymm, dvd-mul_right, dvd-mul_left, mul-div_cancel',
  mul_assoc, mul_comm, dvd-mul_right_of_dvd, pos_of_dvd_of_pos, le-mul_of_pos_right,
}
use loli_loader.Base.{
  ℕ, zero, suc, ◌*◌, ◌/◌, ◌%◌, ◌^◌, ◌≤◌, ◌<◌, ◌≡◌, ◌↔◌, refl, sym, ap, ◌∙◌, List, [], ◌∷◌, arith,
  length, subst, ℕ_discrete,
}
use loli_loader.Elf2Efi.{done}
use loli_loader.Elf2Efi.Elf.{Segment}
use loli_loader.Elf2Efi.Gcd.{alignment_gcd, alignment_product, exec_address_alignment}
use loli_loader.Elf2Efi.Gcd.Common.{gcd-IsGcd}

-- `c` divides the alignment of each segment.
abbrev pub DividesAll : ℕ → List Segment → Type 0
DividesAll c [] = Unit
DividesAll c (s ∷ rest) = (c ∣ s.alignment) × DividesAll c rest

-- Each segment's alignment divides `m`.
abbrev pub AllDivide : ℕ → List Segment → Type 0
AllDivide m [] = Unit
AllDivide m (s ∷ rest) = (s.alignment ∣ m) × AllDivide m rest

abbrev pub ArePositive : List Segment → Type 0
ArePositive [] = Unit
ArePositive (s ∷ rest) = (0 < s.alignment) × ArePositive rest

-- The product without the wrap-around at 2 ^ 32.
abbrev pub scaled : ℕ → List Segment → ℕ → ℕ
scaled g [] acc = acc
scaled g (s ∷ rest) acc = scaled g rest (acc * (s.alignment / g))

alignment_gcd_lem :
    (segments : List Segment) (acc : ℕ)
    → (g : ℕ) × (alignment_gcd segments acc ≡ done g)
      × ((c : ℕ) → (c ∣ g) ↔ ((c ∣ acc) × DividesAll c segments))
unfolding alignment_gcd
alignment_gcd_lem [] acc = (acc, refl, λ c. ((λ d. (d, tt)), λ (p : (c ∣ acc) × Unit). p.0))
alignment_gcd_lem (s ∷ rest) acc =
    let (m, _, e, k) = gcd-IsGcd s.alignment acc in
    let (g, e', k') = alignment_gcd_lem rest m in (g, rw e e', λ c. both c m g (k c) (k' c))
  where
    both :
        (c m g : ℕ)
        → (c ∣ m) ↔ ((c ∣ s.alignment) × (c ∣ acc))
        → (c ∣ g) ↔ ((c ∣ m) × DividesAll c rest)
        → (c ∣ g) ↔ ((c ∣ acc) × ((c ∣ s.alignment) × DividesAll c rest))
    both c m g k k' = (
      (λ d. let (x, y) = k'.0 d in let (u, v) = k.0 x in (v, (u, y))),
      λ (p : (c ∣ acc) × ((c ∣ s.alignment) × DividesAll c rest)). k'.1 (k.1 (p.1.0, p.0), p.1.1),
    )

factor_pos : (g a : ℕ) → 0 < a → g ∣ a → 0 < a / g
factor_pos g a h d = elim (ℕ_discrete (a / g) 0) [
  | yes z ↦ absurd (omega (arith, sym (mul-div_cancel' g d) ∙ ap (λ q. g * q) z))
  | no n ↦ omega arith
]

grows : (acc q : ℕ) → 0 < q → acc ≤ acc * q
grows acc q h = le-mul_of_pos_right acc h

scaled-le :
    (g : ℕ) (segments : List Segment) (acc : ℕ)
    → ArePositive segments
    → DividesAll g segments
    → acc ≤ scaled g segments acc
scaled-le g [] acc p d = omega arith
scaled-le g (s ∷ rest) acc p d = omega (
  arith,
  grows acc (s.alignment / g) (factor_pos g s.alignment p.0 d.0),
  scaled-le g rest (acc * (s.alignment / g)) p.1 d.1,
)

alignment_product_lem :
    (g : ℕ) (segments : List Segment) (acc : ℕ)
    → 0 < g
    → ArePositive segments
    → DividesAll g segments
    → scaled g segments acc < 2 ^ 32
    → alignment_product segments g acc ≡ done (scaled g segments acc)
unfolding alignment_product
alignment_product_lem g [] acc pos p d h = refl
alignment_product_lem (suc g) (s ∷ rest) acc pos p d h =
    let next = acc * (s.alignment / suc g) in
    let small : next % 2 ^ 32 ≡ next = omega (arith, scaled-le (suc g) rest next p.1 d.1) in
    rw small (alignment_product_lem (suc g) rest next pos p.1 d.1 h)
alignment_product_lem zero (s ∷ rest) acc pos p d h = absurd (omega arith)

scaled-dvd : (g : ℕ) (segments : List Segment) (acc : ℕ) → acc ∣ scaled g segments acc
scaled-dvd g [] acc = dvd_refl acc
scaled-dvd g (s ∷ rest) acc =
    dvd_trans acc (dvd-mul_right acc (s.alignment / g))
      (scaled-dvd g rest (acc * (s.alignment / g)))

scaled-AllDivide :
    (g : ℕ) (segments : List Segment) (acc : ℕ)
    → g ∣ acc
    → DividesAll g segments
    → AllDivide (scaled g segments acc) segments
scaled-AllDivide g [] acc h d = tt
scaled-AllDivide g (s ∷ rest) acc h d =
    let next = acc * (s.alignment / g) in
    (
      dvd_trans s.alignment (subst (λ x. s.alignment ∣ x) swap (dvd-mul_left s.alignment (acc / g)))
          (scaled-dvd g rest next),
      scaled-AllDivide g rest next (dvd-mul_right_of_dvd g h (s.alignment / g)) d.1,
    )
  where
    swap : acc / g * s.alignment ≡ acc * (s.alignment / g)
    swap =
        ap (λ x. acc / g * x) (sym (mul-div_cancel' g d.0))
        ∙ sym (mul_assoc (acc / g) g (s.alignment / g))
        ∙ ap (λ x. x * (s.alignment / g)) (mul_comm (acc / g) g ∙ mul-div_cancel' g h)

-- If the alignments of the segments are positive, g is their greatest common divisor, and g times all
-- quotients of the alignments by g is below 2 ^ 32, then exec_address_alignment returns this
-- number, and each segment's alignment divides it.
pub exec_address_alignment-AllDivide :
    (segments : List Segment) (g : ℕ)
    → 0 < length segments
    → ArePositive segments
    → DividesAll g segments
    → ((c : ℕ) → DividesAll c segments → c ∣ g)
    → scaled g segments g < 2 ^ 32
    → (exec_address_alignment segments ≡ done (scaled g segments g))
      × AllDivide (scaled g segments g) segments
unfolding exec_address_alignment
exec_address_alignment-AllDivide [] g n p d k h = absurd (omega arith)
exec_address_alignment-AllDivide (s ∷ rest) g n p d k h =
    let (m, e, c) = alignment_gcd_lem (s ∷ rest) 0 in
    let same : m ≡ g = dvd_antisymm (k m ((c m).0 (dvd_refl m)).1) ((c g).1 (dvd-zero g, d)) in
    let pos : 0 < g = pos_of_dvd_of_pos (d.0) (p.0) in
    (
      rw (e, same) (alignment_product_lem g (s ∷ rest) g pos p d h),
      scaled-AllDivide g (s ∷ rest) g (dvd_refl g) d,
    )
