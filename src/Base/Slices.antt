-- ===== src/Base/Slices.antt =====
-- The first elements of a list, and what is left behind them.
use Prim.Native.Nat.{ℕ, zero, suc, ◌+◌, ◌≤◌}
use mathlib.Core.Path.{◌≡◌, refl, ap, sym, ◌∙◌}
use mathlib.Core.List.{List, [], ◌∷◌, ◌++◌}
use native.Mathlib.Omega.{arith}
use loli_loader.Base.Lists.{length, take, drop}

module _ {ℓ} {A : Type ℓ} where
  pub take-append : (s t : List A) (n : ℕ) → n ≡ length s → take n (s ++ t) ≡ s
  take-append [] t zero h = refl
  take-append [] t (suc n) h = absurd (omega arith)
  take-append (c ∷ s) t zero h = absurd (omega arith)
  take-append (c ∷ s) t (suc n) h = ap (λ r. c ∷ r) (take-append s t n (omega arith))

  pub drop-append : (s t : List A) (n : ℕ) → n ≡ length s → drop n (s ++ t) ≡ t
  drop-append [] t zero h = refl
  drop-append [] t (suc n) h = absurd (omega arith)
  drop-append (c ∷ s) t zero h = absurd (omega arith)
  drop-append (c ∷ s) t (suc n) h = drop-append s t n (omega arith)

  pub take-append_left : (n : ℕ) (s t : List A) → n ≤ length s → take n (s ++ t) ≡ take n s
  take-append_left zero s t h = refl
  take-append_left (suc n) [] t h = absurd (omega arith)
  take-append_left (suc n) (c ∷ s) t h = ap (λ r. c ∷ r) (take-append_left n s t (omega arith))

  pub drop-append_left : (n : ℕ) (s t : List A) → n ≤ length s → drop n (s ++ t) ≡ drop n s ++ t
  drop-append_left zero s t h = refl
  drop-append_left (suc n) [] t h = absurd (omega arith)
  drop-append_left (suc n) (c ∷ s) t h = drop-append_left n s t (omega arith)

  pub take_all : (s : List A) (n : ℕ) → length s ≤ n → take n s ≡ s
  take_all [] zero h = refl
  take_all [] (suc n) h = refl
  take_all (c ∷ s) zero h = absurd (omega arith)
  take_all (c ∷ s) (suc n) h = ap (λ r. c ∷ r) (take_all s n (omega arith))

  pub drop_all : (s : List A) (n : ℕ) → length s ≤ n → drop n s ≡ []
  drop_all [] zero h = refl
  drop_all [] (suc n) h = refl
  drop_all (c ∷ s) zero h = absurd (omega arith)
  drop_all (c ∷ s) (suc n) h = drop_all s n (omega arith)

  pub take-take : (n k : ℕ) (s : List A) → n ≤ k → take n (take k s) ≡ take n s
  take-take zero k s h = refl
  take-take (suc n) zero s h = absurd (omega arith)
  take-take (suc n) (suc k) [] h = refl
  take-take (suc n) (suc k) (c ∷ s) h = ap (λ r. c ∷ r) (take-take n k s (omega arith))

  pub take-drop : (k : ℕ) (s : List A) → take k s ++ drop k s ≡ s
  take-drop zero s = refl
  take-drop (suc k) [] = refl
  take-drop (suc k) (c ∷ s) = ap (λ r. c ∷ r) (take-drop k s)

  drop_nil : (k : ℕ) → drop {A = A} k [] ≡ []
  drop_nil zero = refl
  drop_nil (suc k) = refl

  pub drop-drop : (k n : ℕ) (s : List A) → drop k (drop n s) ≡ drop (n + k) s
  drop-drop k zero s = let e : 0 + k ≡ k = omega arith in rw e refl
  drop-drop k (suc n) [] = drop_nil k ∙ sym (drop_nil (suc n + k))
  drop-drop k (suc n) (c ∷ s) =
      let e : suc n + k ≡ suc (n + k) = omega arith in rw e (drop-drop k n s)

  pub length-drop_add : (n : ℕ) (s : List A) → n ≤ length s → n + length (drop n s) ≡ length s
  length-drop_add zero s h = omega arith
  length-drop_add (suc n) [] h = absurd (omega arith)
  length-drop_add (suc n) (c ∷ s) h = omega (arith, length-drop_add n s (omega arith))

  pub length-take_le : (n : ℕ) (s : List A) → n ≤ length s → length (take n s) ≡ n
  length-take_le zero s h = omega arith
  length-take_le (suc n) [] h = absurd (omega arith)
  length-take_le (suc n) (c ∷ s) h = omega (arith, length-take_le n s (omega arith))
