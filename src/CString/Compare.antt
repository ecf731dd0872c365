-- ===== src/CString/Compare.antt =====
-- `strcmp`, `strncmp` and `memcmp` of src/string.c. The first two only read, so their pointers are
-- the rests of their strings, up to the terminator; `*p` is 0 at the end of one.
use loli_loader.Base.{
  ℕ, zero, suc, ◌+◌, ◌-◌, ◌*◌, ◌%◌, ◌^◌, ◌<◌, ◌≡◌, ◌↔◌, refl, ◌∙◌, ap, ap₂, Bool, true, false, not,
  Option, none, some, [], ◌∷◌, ◌==◌, if◌then◌else◌, Bool-cases, inl, inr, arith, Bytes, get_or,
  take, ==_iff,
}
use loli_loader.Base.Int.{ℤ, pos, ◌-ℤ◌, char_int, -ℤ_zero_iff, char_int-injective}
use loli_loader.Memory.{Mem, load, ◌>>=◌, IsMapped}

-- `*s1 - *s2`
unfoldable pub char_diff : Bool → Bytes → Bytes → ℤ
char_diff signed s t = char_int signed (get_or s 0 0) -ℤ char_int signed (get_or t 0 0)

unfoldable pub strcmp : Bool → Bytes → Bytes → ℤ
unfolding char_diff
strcmp signed [] t = char_diff signed [] t
strcmp signed (c ∷ s) [] = char_diff signed (c ∷ s) []
strcmp signed (c ∷ s) (d ∷ t) =
    let rest = strcmp signed s t in if not (c == d) then char_diff signed (c ∷ s) (d ∷ t) else rest

unfoldable pub strncmp : Bool → Bytes → Bytes → ℕ → ℤ
unfolding char_diff
strncmp signed [] t n = char_diff signed [] t
strncmp signed (c ∷ s) [] n = char_diff signed (c ∷ s) []
strncmp signed (c ∷ s) (d ∷ t) zero = char_diff signed (c ∷ s) (d ∷ t)
strncmp signed (c ∷ s) (d ∷ t) (suc n) =
    let rest = strncmp signed s t n in
    if not (c == d) then char_diff signed (c ∷ s) (d ∷ t) else rest

-- A C string's bytes: from 1 to 255.
abbrev pub AreChars : Bytes → Type 0
AreChars [] = Unit
AreChars (c ∷ s) = (0 < c) × (c < 256) × AreChars s

abbrev first : Bytes → ℕ
first s = get_or s 0 0

abbrev tail_of : Bytes → Bytes
tail_of [] = []
tail_of (c ∷ s) = s

char_diff_zero :
    (signed : Bool) (s t : Bytes)
    → AreChars s
    → AreChars t
    → char_diff signed s t ≡ pos 0
    → first s ≡ first t
unfolding char_diff
char_diff_zero signed s t hs ht e =
    char_int-injective signed (first s) (first t) (first-lt s hs) (first-lt t ht)
      ((-ℤ_zero_iff _ _).0 e)
  where
    first-lt : (s : Bytes) → AreChars s → first s < 256
    first-lt [] h = omega arith
    first-lt (c ∷ s) h = omega arith

char_diff_same : (signed : Bool) (s t : Bytes) → first s ≡ first t → char_diff signed s t ≡ pos 0
unfolding char_diff
char_diff_same signed s t e = (-ℤ_zero_iff _ _).1 (ap (char_int signed) e)

take-strncmp :
    (signed : Bool) (s t : Bytes) (n : ℕ)
    → AreChars s
    → AreChars t
    → take (suc n) s ≡ take (suc n) t
    → strncmp signed s t n ≡ pos 0
unfolding strncmp
take-strncmp signed [] [] n hs ht e = char_diff_same signed [] [] refl
take-strncmp signed [] (d ∷ t) n hs ht e = absurd (cc)
take-strncmp signed (c ∷ s) [] n hs ht e = absurd (cc)
take-strncmp signed (c ∷ s) (d ∷ t) zero hs ht e =
    char_diff_same signed (c ∷ s) (d ∷ t) (ap first e)
take-strncmp signed (c ∷ s) (d ∷ t) (suc n) hs ht e =
    let h : c ≡ d = ap first e in ground (arith, take-strncmp signed s t n hs.2 ht.2 (ap tail_of e))

strncmp-take_eq :
    (signed : Bool) (s t : Bytes) (n : ℕ)
    → AreChars s
    → AreChars t
    → strncmp signed s t n ≡ pos 0
    → take (suc n) s ≡ take (suc n) t
unfolding strncmp
strncmp-take_eq signed [] [] n hs ht e = refl
strncmp-take_eq signed [] (d ∷ t) n hs ht e =
    absurd (omega (arith, char_diff_zero signed [] (d ∷ t) hs ht e))
strncmp-take_eq signed (c ∷ s) [] n hs ht e =
    absurd (omega (arith, char_diff_zero signed (c ∷ s) [] hs ht e))
strncmp-take_eq signed (c ∷ s) (d ∷ t) zero hs ht e =
    ap (λ x. x ∷ []) (char_diff_zero signed (c ∷ s) (d ∷ t) hs ht e)
strncmp-take_eq signed (c ∷ s) (d ∷ t) (suc n) hs ht e = elim (Bool-cases (c == d)) [
  | inl same ↦ ap₂ ◌∷◌ ((==_iff c d).0 same) (strncmp-take_eq signed s t n hs.2 ht.2 (rw same at e))
  | inr other ↦
      let h : c ≡ d = char_diff_zero signed (c ∷ s) (d ∷ t) hs ht (rw other at e) in
      absurd (ground arith)
]

-- On C strings `strncmp` returns 0 exactly if the strings agree in their first `n + 1` bytes, their
-- terminators included: it compares one byte more than `n`.
pub strncmp-take :
    (signed : Bool) (s t : Bytes) (n : ℕ)
    → AreChars s
    → AreChars t
    → (strncmp signed s t n ≡ pos 0) ↔ (take (suc n) s ≡ take (suc n) t)
strncmp-take signed s t n hs ht =
    (strncmp-take_eq signed s t n hs ht, take-strncmp signed s t n hs ht)

strcmp_zero :
    (signed : Bool) (s t : Bytes) → AreChars s → AreChars t → strcmp signed s t ≡ pos 0 → s ≡ t
unfolding strcmp
strcmp_zero signed [] [] hs ht e = refl
strcmp_zero signed [] (d ∷ t) hs ht e =
    absurd (omega (arith, char_diff_zero signed [] (d ∷ t) hs ht e))
strcmp_zero signed (c ∷ s) [] hs ht e =
    absurd (omega (arith, char_diff_zero signed (c ∷ s) [] hs ht e))
strcmp_zero signed (c ∷ s) (d ∷ t) hs ht e = elim (Bool-cases (c == d)) [
  | inl same ↦ ap₂ ◌∷◌ ((==_iff c d).0 same) (strcmp_zero signed s t hs.2 ht.2 (rw same at e))
  | inr other ↦
      let h : c ≡ d = char_diff_zero signed (c ∷ s) (d ∷ t) hs ht (rw other at e) in
      absurd (ground arith)
]

strcmp_self : (signed : Bool) (s : Bytes) → strcmp signed s s ≡ pos 0
unfolding strcmp
strcmp_self signed [] = char_diff_same signed [] [] refl
strcmp_self signed (c ∷ s) = ground (arith, strcmp_self signed s)

-- On C strings `strcmp` returns 0 exactly if they are equal.
pub strcmp_zero_iff :
    (signed : Bool) (s t : Bytes) → AreChars s → AreChars t → (strcmp signed s t ≡ pos 0) ↔ (s ≡ t)
strcmp_zero_iff signed s t hs ht = (strcmp_zero signed s t hs ht, λ e. rw e (strcmp_self signed t))

-- `len--` on a `size_t`.
abbrev dec_size : ℕ → ℕ
dec_size n = (n + (2 ^ 64 - 1)) % 2 ^ 64

-- `while (len--) { …; len--; }`: each round that goes on takes 2 from `len`, and from 1 it wraps.
unfoldable pub memcmp : Bool → ℕ → Mem → ℕ → ℕ → ℕ → Option ℤ
unfolding load
memcmp signed zero m a b len = none
memcmp signed (suc f) m a b len = do
  let body = (do
    c ← load m a
    d ← load m b
    let rest = memcmp signed f m (a + 1) (b + 1) (dec_size (dec_size len))
    if not (c == d) then some (char_int signed c -ℤ char_int signed d) else rest)
  if len == 0 then some (pos 0) else body

memcmp-same :
    (signed : Bool) (f : ℕ) (m : Mem) (a b c len left : ℕ)
    → m a ≡ some c
    → m b ≡ some c
    → 0 < len
    → dec_size (dec_size len) ≡ left
    → memcmp signed (suc f) m a b len ≡ memcmp signed f m (a + 1) (b + 1) left
unfolding memcmp
memcmp-same signed f m a b c len left ea eb l e =
    let z : (len == 0) ≡ false = ground arith in
    let q : (c == c) ≡ true = ground arith in rw (z, memcmp, ea, eb, q, e) refl

-- `memcmp` looks at only one byte of two: on an even length it reports equality as soon as the first
-- half of the bytes agree, whatever stands in the second half.
pub memcmp_half :
    (signed : Bool) (k f : ℕ) (m : Mem) (a b : ℕ)
    → 2 * k < 2 ^ 64
    → k < f
    → ((i : ℕ) → i < k → IsMapped m (a + i) × (m (b + i) ≡ m (a + i)))
    → memcmp signed f m a b (2 * k) ≡ some (pos 0)
unfolding memcmp
memcmp_half signed k zero m a b w l h = absurd (omega arith)
memcmp_half signed zero (suc f) m a b w l h = refl
memcmp_half signed (suc k) (suc f) m a b w l h =
    let a0 : a + 0 ≡ a = omega arith in
    let b0 : b + 0 ≡ b = omega arith in
    let ((c, ea), eb) = h 0 (omega arith) in
    let ea' : m a ≡ some c = rw a0 at ea in
    let eb' : m b ≡ some c = rw b0 at (eb ∙ ea) in
    memcmp-same signed f m a b c (2 * suc k) (2 * k) ea' eb' (omega arith) (omega arith)
    ∙ memcmp_half signed k f m (a + 1) (b + 1) (omega arith) (omega arith) (shift a b h)
  where
    shift :
        (a b : ℕ)
        → ((i : ℕ) → i < suc k → IsMapped m (a + i) × (m (b + i) ≡ m (a + i)))
        → (i : ℕ) → i < k
        → IsMapped m (a + 1 + i) × (m (b + 1 + i) ≡ m (a + 1 + i))
    shift a b h i l =
        let ai : a + suc i ≡ a + 1 + i = omega arith in
        let bi : b + suc i ≡ b + 1 + i = omega arith in rw (ai, bi) at (h (suc i) (omega arith))
