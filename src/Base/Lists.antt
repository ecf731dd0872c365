-- ===== src/Base/Lists.antt =====
-- Lists measured and indexed by native numbers, under the library's names, and suffixes of a list.
use Prim.Native.Nat.{ℕ, zero, suc, ◌+◌, ◌≤◌, ◌<◌, min}
use mathlib.Core.Path.{◌≡◌, refl, ◌∙◌}
use mathlib.Core.List.{List, [], ◌∷◌, ◌++◌}
use mathlib.Core.Option.{Option, none, some}
use mathlib.Core.Bool.{Bool}
use native.Mathlib.Omega.{arith}
use loli_loader.Base.Tests.{if◌then◌else◌}

module _ {ℓ} {A : Type ℓ} where
  abbrev pub length : List A → ℕ
  length [] = 0
  length (_ ∷ xs) = suc (length xs)

  abbrev pub get_elem? : List A → ℕ → Option A
  get_elem? [] _ = none
  get_elem? (x ∷ _) zero = some x
  get_elem? (_ ∷ xs) (suc i) = get_elem? xs i

  abbrev pub get_or : List A → ℕ → A → A
  get_or [] _ d = d
  get_or (x ∷ _) zero _ = x
  get_or (_ ∷ xs) (suc i) d = get_or xs i d

  abbrev pub take : ℕ → List A → List A
  take zero _ = []
  take (suc n) [] = []
  take (suc n) (x ∷ xs) = x ∷ take n xs

  abbrev pub drop : ℕ → List A → List A
  drop zero xs = xs
  drop (suc n) [] = []
  drop (suc n) (_ ∷ xs) = drop n xs

  abbrev pub keep : (A → Bool) → List A → List A
  keep p [] = []
  keep p (x ∷ xs) = let rest = keep p xs in if p x then x ∷ rest else rest

  abbrev pub head_of : List A → Option A
  head_of [] = none
  head_of (x ∷ _) = some x

module _ {ℓ} {A : Type ℓ} where
  pub length-append : (xs ys : List A) → length (xs ++ ys) ≡ length xs + length ys
  length-append [] ys = omega arith
  length-append (x ∷ xs) ys = omega (arith, length-append xs ys)

  pub length-take : (n : ℕ) (xs : List A) → length (take n xs) ≡ min n (length xs)
  length-take zero xs = omega arith
  length-take (suc n) [] = omega arith
  length-take (suc n) (x ∷ xs) = omega (arith, length-take n xs)

  -- `IsSuffix s t`: `s` is what is left of `t` behind some of its elements.
  pub data IsSuffix : List A → List A → Type ℓ where
    whole : {s : List A} → IsSuffix s s
    behind : {s t : List A} {x : A} → IsSuffix s t → IsSuffix s (x ∷ t)

module _ {ℓ} {A : Type ℓ} where
  pub IsSuffix-trans : {s t u : List A} → IsSuffix s t → IsSuffix t u → IsSuffix s u
  IsSuffix-trans h whole = h
  IsSuffix-trans h (behind k) = behind (IsSuffix-trans h k)

  pub length-IsSuffix : {s t : List A} → IsSuffix s t → length s ≤ length t
  length-IsSuffix whole = omega arith
  length-IsSuffix (behind h) = omega (arith, length-IsSuffix h)

abbrev pub rev : List ℕ → List ℕ
rev [] = []
rev (c ∷ s) = rev s ++ c ∷ []

pub length-rev : (s : List ℕ) → length (rev s) ≡ length s
length-rev [] = refl
length-rev (c ∷ s) = length-append (rev s) (c ∷ []) ∙ omega (arith, length-rev s)

get_or-append_left : (s t : List ℕ) (i : ℕ) → i < length s → get_or (s ++ t) i 0 ≡ get_or s i 0
get_or-append_left [] t i h = absurd (omega arith)
get_or-append_left (c ∷ s) t zero h = refl
get_or-append_left (c ∷ s) t (suc i) h = get_or-append_left s t i (omega arith)

get_or-append_end : (s : List ℕ) (c i : ℕ) → i ≡ length s → get_or (s ++ c ∷ []) i 0 ≡ c
get_or-append_end [] c zero h = refl
get_or-append_end [] c (suc i) h = absurd (omega arith)
get_or-append_end (d ∷ s) c zero h = absurd (omega arith)
get_or-append_end (d ∷ s) c (suc i) h = get_or-append_end s c i (omega arith)

pub get_or-rev : (s : List ℕ) (i j : ℕ) → i + j + 1 ≡ length s → get_or (rev s) i 0 ≡ get_or s j 0
get_or-rev [] i j h = absurd (omega arith)
get_or-rev (c ∷ s) i zero h = get_or-append_end (rev s) c i (omega (arith, length-rev s))
get_or-rev (c ∷ s) i (suc j) h =
    get_or-append_left (rev s) (c ∷ []) i (omega (arith, length-rev s))
    ∙ get_or-rev s i j (omega arith)
