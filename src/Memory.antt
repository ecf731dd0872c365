-- ===== src/Memory.antt =====
-- The memory that the C code reads and writes: cells by address, of which only some are mapped. An
-- access to another cell is a fault, and faults end the run. Blocks, and strings that stand in
-- memory, are described by predicates; the allocator of the firmware maps fresh cells.
pub mod Cells
pub mod Image
use loli_loader.Base.{
  ℕ, zero, suc, ◌+◌, ◌-◌, ◌≤◌, ◌<◌, ◌≡◌, ◌≢◌, ◌⊎◌, inl, inr, refl, sym, ◌∙◌, Bool, true, false,
  Option, none, some, List, [], ◌∷◌, ◌++◌, arith, ◌==◌, if◌then◌else◌, Option-cases, Bool-cases,
  length, Bytes,
}

abbrev pub Mem : Type 0
Mem = ℕ → Option ℕ

abbrev pub update : Mem → ℕ → ℕ → Mem
update m a v x = if a == x then some v else m x

unfoldable pub load : Mem → ℕ → Option ℕ
load m a = m a

unfoldable pub store : Mem → ℕ → ℕ → Option Mem
store m a v = elim (m a) [ none ↦ none | some _ ↦ some (update m a v) ]

infixl 5 ◌>>=◌
abbrev pub ◌>>=◌ {ℓ κ} : {A : Type ℓ} {B : Type κ} → Option A → (A → Option B) → Option B
none >>= f = none
some a >>= f = f a

-- The cells from `a` on hold the bytes `s`.
abbrev pub Holds : Mem → ℕ → Bytes → Type 0
Holds m a [] = Unit
Holds m a (c ∷ s) = (m a ≡ some c) × Holds m (a + 1) s

-- The cell is mapped.
abbrev pub IsMapped : Mem → ℕ → Type 0
IsMapped m a = (v : ℕ) × (m a ≡ some v)

-- The `n` cells from `a` on are mapped.
abbrev pub IsBlock : Mem → ℕ → ℕ → Type 0
IsBlock m a n = (i : ℕ) → i < n → IsMapped m (a + i)

-- Outside the `n` cells from `a` on the two memories agree.
abbrev pub SameOutside : ℕ → ℕ → Mem → Mem → Type 0
SameOutside a n m m' = (x : ℕ) → (x < a) ⊎ (a + n ≤ x) → m' x ≡ m x

-- The blocks of `n` cells at `a` and of `k` cells at `b` have no cell in common.
abbrev pub Apart : ℕ → ℕ → ℕ → ℕ → Type 0
Apart a n b k = (a + n ≤ b) ⊎ (b + k ≤ a)

pub store-some : (m : Mem) (a v : ℕ) → IsMapped m a → store m a v ≡ some (update m a v)
unfolding store
store-some m a v (w, e) = rw (e, store)

pub store-none : (m : Mem) (a v : ℕ) → m a ≡ none → store m a v ≡ none
unfolding store
store-none m a v e = rw (e, store)

pub update_self : (m : Mem) (a v : ℕ) → update m a v a ≡ some v
update_self m a v = ground arith

pub update_ne : (m : Mem) (a v x : ℕ) → a ≢ x → update m a v x ≡ m x
update_ne m a v x h = ground arith

pub update-IsMapped : (m : Mem) (a v x : ℕ) → IsMapped m x → IsMapped (update m a v) x
update-IsMapped m a v x (w, e) = elim (Bool-cases (a == x)) [
  | inl h ↦ (v, rw h)
  | inr h ↦ (w, rw h e)
]

pub update-Holds :
    (m : Mem) (a v b : ℕ) (s : Bytes)
    → (a < b) ⊎ (b + length s ≤ a)
    → Holds m b s
    → Holds (update m a v) b s
update-Holds m a v b [] h k = tt
update-Holds m a v b (c ∷ s) h k =
    (update_ne m a v b (ground arith) ∙ k.0, update-Holds m a v (b + 1) s (ground arith) k.1)

pub Holds-outside :
    (a n : ℕ) (m m' : Mem) (b : ℕ) (s : Bytes)
    → SameOutside a n m m'
    → Apart a n b (length s)
    → Holds m b s
    → Holds m' b s
Holds-outside a n m m' b [] o h k = tt
Holds-outside a n m m' b (c ∷ s) o h k =
    (o b (ground arith) ∙ k.0, Holds-outside a n m m' (b + 1) s o (ground arith) k.1)

pub Holds-append :
    (m : Mem) (a : ℕ) (s t : Bytes) → Holds m a (s ++ t) → Holds m a s × Holds m (a + length s) t
Holds-append m a [] t h = let e : a + 0 ≡ a = omega arith in (tt, rw e h)
Holds-append m a (c ∷ s) t h =
    let (hs, ht) = Holds-append m (a + 1) s t h.1 in
    let e : a + suc (length s) ≡ a + 1 + length s = omega arith in ((h.0, hs), rw e ht)

pub append-Holds :
    (m : Mem) (a : ℕ) (s t : Bytes) → Holds m a s → Holds m (a + length s) t → Holds m a (s ++ t)
append-Holds m a [] t h k = let e : a + 0 ≡ a = omega arith in rw e at k
append-Holds m a (c ∷ s) t h k =
    let e : a + suc (length s) ≡ a + 1 + length s = omega arith in
    (h.0, append-Holds m (a + 1) s t h.1 (rw e at k))

pub IsBlock-head : (m : Mem) (a n : ℕ) → IsBlock m a (suc n) → IsMapped m a
IsBlock-head m a n b = let e : a + 0 ≡ a = omega arith in rw e at (b 0 (omega arith))

pub IsBlock-tail : (m : Mem) (a n : ℕ) → IsBlock m a (suc n) → IsBlock m (a + 1) n
IsBlock-tail m a n b i h =
    let e : a + suc i ≡ a + 1 + i = omega arith in rw e at (b (suc i) (omega arith))

pub update-IsBlock : (m : Mem) (a v b n : ℕ) → IsBlock m b n → IsBlock (update m a v) b n
update-IsBlock m a v b n h i l = update-IsMapped m a v (b + i) (h i l)

-- A first write at `a`, and then writes to the `n` cells behind it.
pub SameOutside-update :
    (a n v : ℕ) (m m' : Mem)
    → SameOutside (a + 1) n (update m a v) m'
    → SameOutside a (suc n) m m' × (m' a ≡ some v)
SameOutside-update a n v m m' o = (
  (λ x h. o x (ground arith) ∙ update_ne m a v x (ground arith)),
  o a (ground arith) ∙ update_self m a v,
)

-- A C string in memory: its bytes, none of them 0, and the terminator.
abbrev pub NonZero : Bytes → Type 0
NonZero [] = Unit
NonZero (c ∷ s) = ((c == 0) ≡ false) × NonZero s

abbrev pub terminated : Bytes → Bytes
terminated s = s ++ 0 ∷ []

pub record IsCString (m : Mem) (a : ℕ) (s : Bytes) : Type 0 where
  pub held : Holds m a (terminated s)
  pub nonzero : NonZero s
