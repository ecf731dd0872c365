-- ===== src/Extlinux/Key.antt =====
-- `match_key` against a description of a key-value line: the words of the key and the value, each
-- parted from the next by blanks.
use loli_loader.Base.{
  ℕ, zero, suc, ◌≤◌, ◌≡◌, ◌≢◌, ◌↔◌, refl, ◌∙◌, true, false, not, ◌&&◌, none, some, [], ◌∷◌, ◌++◌,
  arith, Bool-cases, ◌==◌, if◌then◌else◌, inl, inr, ap, ap₂, none-ne-some, Bytes, length, some_eq,
}
use loli_loader.Extlinux.{blank, is_space, skip_space, match_end, match_loop, match_key}
use loli_loader.Extlinux.Suffix.{length-skip_space}

-- One blank or more.
abbrev pub IsBlanks : Bytes → Type 0
IsBlanks [] = ⊥
IsBlanks (c ∷ []) = blank c ≡ true
IsBlanks (c ∷ d ∷ s) = (blank c ≡ true) × IsBlanks (d ∷ s)

-- Only bytes that are no blanks.
abbrev pub IsWord : Bytes → Type 0
IsWord [] = Unit
IsWord (c ∷ w) = (blank c ≡ false) × IsWord w

-- A value is not empty, and begins with a byte that is neither blank nor a newline.
abbrev pub IsValue : Bytes → Type 0
IsValue [] = ⊥
IsValue (c ∷ v) = (blank c ≡ false) × ((c == b'\n') ≡ false)

-- The fuel of the loop is never used up.
match_loop-fuel :
    (f g : ℕ) (p key : Bytes)
    → length key ≤ f
    → length key ≤ g
    → match_loop f p key ≡ match_loop g p key
unfolding match_loop
match_loop-fuel f g p [] hf hg = ground arith
match_loop-fuel f g [] (k ∷ key) hf hg = ground arith
match_loop-fuel zero g (c ∷ p) (k ∷ key) hf hg = absurd (omega arith)
match_loop-fuel (suc f) zero (c ∷ p) (k ∷ key) hf hg = absurd (omega arith)
match_loop-fuel (suc f) (suc g) (c ∷ p) (k ∷ key) hf hg = rw (
  match_loop-fuel f g (skip_space p) (skip_space key) (omega (arith, length-skip_space key))
      (omega (arith, length-skip_space key)),
  match_loop-fuel f g p key (omega arith) (omega arith),
)

pub match_key-nil : (p : Bytes) → match_key p [] ≡ match_end p
unfolding match_key match_loop
match_key-nil [] = refl
match_key-nil (c ∷ p) = refl

pub match_key-end : (k : ℕ) (key : Bytes) → match_key [] (k ∷ key) ≡ none
unfolding match_key match_loop
match_key-end k key = refl

-- One round of the loop of `match_key`.
pub match_key-cons :
    (c : ℕ) (p : Bytes) (k : ℕ) (key : Bytes)
    → match_key (c ∷ p) (k ∷ key) ≡ (
        if not (c == k)
        then none
        else if is_space key && is_space p
        then match_key (skip_space p) (skip_space key)
        else match_key p key)
unfolding match_key match_loop
match_key-cons c p k key =
    rw
      (match_loop-fuel (length key) (length (skip_space key)) (skip_space p) (skip_space key)
        (length-skip_space key) (omega arith))
      refl

pub is_space-append : (s q : Bytes) → IsBlanks s → is_space (s ++ q) ≡ true
unfolding is_space
is_space-append [] q h = elim h [ ]
is_space-append (c ∷ []) q h = h
is_space-append (c ∷ d ∷ s) q h = h.0

IsBlanks-cons : (c : ℕ) (s : Bytes) → blank c ≡ true → IsBlanks s → IsBlanks (c ∷ s)
IsBlanks-cons c [] h k = elim k [ ]
IsBlanks-cons c (d ∷ s) h k = (h, k)

pub skip_space-append : (s q : Bytes) → IsBlanks s → skip_space (s ++ q) ≡ skip_space q
unfolding skip_space
skip_space-append [] q h = elim h [ ]
skip_space-append (c ∷ []) q h = rw h
skip_space-append (c ∷ d ∷ s) q h = rw (h.0) (skip_space-append (d ∷ s) q h.1)

-- A text that begins with a blank is blanks, and then what `skip_space` leaves.
pub is_space-split :
    (p : Bytes) → is_space p ≡ true → (s : Bytes) × IsBlanks s × (p ≡ s ++ skip_space p)
unfolding is_space skip_space
is_space-split (c ∷ []) h = (c ∷ [], h, rw h)
is_space-split (c ∷ d ∷ p) h = elim (Bool-cases (blank d)) [
  | inl e ↦
      let (s, b, q) = is_space-split (d ∷ p) e in
      (c ∷ s, IsBlanks-cons c s h b, rw h (ap (◌∷◌ c) q))
  | inr e ↦ (c ∷ [], h, rw (h, e))
]
is_space-split [] h = absurd (cc)

skip_space-IsValue : (v : Bytes) → IsValue v → skip_space v ≡ v
unfolding skip_space
skip_space-IsValue [] h = elim h [ ]
skip_space-IsValue (c ∷ v) h = rw (h.0)

skip_space-IsWord : (w : Bytes) (p : Bytes) → IsWord w → w ≢ [] → skip_space (w ++ p) ≡ w ++ p
unfolding skip_space
skip_space-IsWord [] p h n = absurd (n refl)
skip_space-IsWord (c ∷ w) p h n = rw (h.0)

-- A value behind the key: blanks, and then the value.
abbrev pub Parted : Bytes → Bytes → Type 0
Parted v p = (s : Bytes) × IsBlanks s × (p ≡ s ++ v)

skip_space-head : (p : Bytes) (c : ℕ) (q : Bytes) → skip_space p ≡ c ∷ q → blank c ≡ false
unfolding skip_space
skip_space-head [] c q h = absurd (cc)
skip_space-head (d ∷ p) c q h = ground (arith, skip_space-head p c q)

skipped-IsValue :
    (q v : Bytes)
    → ((c : ℕ) (r : Bytes) → q ≡ c ∷ r → blank c ≡ false)
    → (elim q [ [] ↦ none | c ∷ r ↦ if c == b'\n' then none else some (c ∷ r) ]) ≡ some v
    → (q ≡ v) × IsValue v
skipped-IsValue [] v b h = absurd (cc)
skipped-IsValue (c ∷ r) v b h = elim (Bool-cases (c == b'\n')) [
  | inl n ↦ absurd (ground arith)
  | inr n ↦ let e = some_eq (rw n at h) in (e, rw (← e) (b c r refl, n))
]

pub match_end-some :
    (p v : Bytes) → match_end p ≡ some v → (skip_space p ≡ v) × IsValue v × (is_space p ≡ true)
unfolding match_end
match_end-some p v h = elim (Bool-cases (is_space p)) [
  | inl b ↦
      let (e, i) = skipped-IsValue (skip_space p) v (skip_space-head p) (rw b at h) in (e, i, b)
  | inr b ↦ absurd (ground arith)
]

match_end-Parted : (p v : Bytes) → match_end p ≡ some v → Parted v p × IsValue v
match_end-Parted p v h =
    let (e, i, b) = match_end-some p v h in
    let (s, bs, q) = is_space-split p b in ((s, bs, rw e at q), i)

Parted-match_end : (p v : Bytes) → Parted v p → IsValue v → match_end p ≡ some v
unfolding match_end
Parted-match_end p [] parted i = elim i [ ]
Parted-match_end p (c ∷ v) (s, b, e) i =
    rw
      (
        e,
        is_space-append s (c ∷ v) b,
        skip_space-append s (c ∷ v) b,
        skip_space-IsValue (c ∷ v) i,
        i.1,
      )
      refl

is_space-IsWord : (w : Bytes) → IsWord w → is_space w ≡ false
unfolding is_space
is_space-IsWord [] h = refl
is_space-IsWord (c ∷ w) h = h.0

-- Inside a word the key and the text are compared byte by byte.
match_key-byte :
    (c : ℕ) (p : Bytes) (k : ℕ) (key : Bytes)
    → is_space key ≡ false
    → match_key (c ∷ p) (k ∷ key) ≡ (if not (c == k) then none else match_key p key)
match_key-byte c p k key h = rw (match_key-cons, h) refl

pub match_key-byte_eq :
    (c : ℕ) (p : Bytes) (k : ℕ) (key v : Bytes)
    → is_space key ≡ false
    → match_key (c ∷ p) (k ∷ key) ≡ some v
    → (c ≡ k) × (match_key p key ≡ some v)
match_key-byte_eq c p k key v h m = let e = rw (match_key-byte c p k key h) at m in ground arith

pub match_key-same :
    (p : Bytes) (k : ℕ) (key : Bytes)
    → is_space key ≡ false
    → match_key (k ∷ p) (k ∷ key) ≡ match_key p key
match_key-same p k key h = match_key-byte k p k key h ∙ ground arith

-- A text that is the key, blanks and a value.
abbrev pub IsPair : Bytes → Bytes → Bytes → Type 0
IsPair key v p = (s : Bytes) × IsBlanks s × (p ≡ key ++ (s ++ v)) × IsValue v

pub match_key-IsPair : (key p v : Bytes) → IsWord key → match_key p key ≡ some v → IsPair key v p
match_key-IsPair [] p v w h =
    let ((s, b, e), i) = match_end-Parted p v (rw match_key-nil at h) in (s, b, e, i)
match_key-IsPair (k ∷ key) [] v w h = absurd (none-ne-some (rw match_key-end at h))
match_key-IsPair (k ∷ key) (c ∷ p) v w h =
    let (e, m) = match_key-byte_eq c p k key v (is_space-IsWord key w.1) h in
    let (s, b, q, i) = match_key-IsPair key p v w.1 m in (s, b, ap₂ ◌∷◌ e q, i)

pub IsPair-match_key : (key p v : Bytes) → IsWord key → IsPair key v p → match_key p key ≡ some v
IsPair-match_key [] p v w (s, b, e, i) = rw match_key-nil (Parted-match_end p v (s, b, e) i)
IsPair-match_key (k ∷ key) p v w (s, b, e, i) = rw e (
    match_key-same (key ++ (s ++ v)) k key (is_space-IsWord key w.1)
    ∙ IsPair-match_key key (key ++ (s ++ v)) v w.1 (s, b, refl, i))

-- A one-word key matches exactly where the text is the key, blanks and a value, and the match is
-- the value.
pub match_key-word : (key p v : Bytes) → IsWord key → (match_key p key ≡ some v) ↔ IsPair key v p
match_key-word key p v w = (match_key-IsPair key p v w, IsPair-match_key key p v w)
