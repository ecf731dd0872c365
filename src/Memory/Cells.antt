-- ===== src/Memory/Cells.antt =====
-- Strings in memory by index, and a block that is turned round.
use loli_loader.Base.{
  ℕ, zero, suc, ◌+◌, ◌-◌, ◌<◌, ◌≤◌, ◌≡◌, sym, ◌∙◌, ap, some, [], ◌∷◌, arith, Bytes, length, get_or,
  rev, length-rev, get_or-rev,
}
use loli_loader.Memory.{Mem, Holds}

pub Holds-get :
    (m : Mem) (a i : ℕ) (s : Bytes) → Holds m a s → i < length s → m (a + i) ≡ some (get_or s i 0)
Holds-get m a i [] h l = absurd (omega arith)
Holds-get m a zero (c ∷ s) h l = let e : a + 0 ≡ a = omega arith in rw e (h.0)
Holds-get m a (suc i) (c ∷ s) h l =
    let e : a + suc i ≡ a + 1 + i = omega arith in rw e (Holds-get m (a + 1) i s h.1 (omega arith))

pub get-Holds :
    (m : Mem) (a : ℕ) (s : Bytes)
    → ((i : ℕ) → i < length s → m (a + i) ≡ some (get_or s i 0))
    → Holds m a s
get-Holds m a [] h = tt
get-Holds m a (c ∷ s) h =
    let z : a + 0 ≡ a = omega arith in
    (rw z at (h 0 (omega arith)), get-Holds m (a + 1) s λ i l. shift i (h (suc i) (omega arith)))
  where
    shift : (i : ℕ) → m (a + suc i) ≡ some (get_or s i 0) → m (a + 1 + i) ≡ some (get_or s i 0)
    shift i k = let e : a + suc i ≡ a + 1 + i = omega arith in rw e at k

-- A block that is turned round holds the bytes in the reverse order.
pub Holds-rev :
    (m m' : Mem) (a : ℕ) (s : Bytes)
    → Holds m a s
    → ((j : ℕ) → j < length s → m' (a + j) ≡ m (a + (length s - 1 - j)))
    → Holds m' a (rev s)
Holds-rev m m' a s h t = get-Holds m' a (rev s) λ i l.
    let b : i < length s = omega (arith, length-rev s) in
    t i b
    ∙ Holds-get m a (length s - 1 - i) s h (omega arith)
    ∙ ap some (sym (get_or-rev s i (length s - 1 - i) (omega arith)))

-- A string stays where each of its cells stays.
pub Holds-kept :
    (m m' : Mem) (a : ℕ) (s : Bytes)
    → ((x : ℕ) → a ≤ x → x < a + length s → m' x ≡ m x)
    → Holds m a s
    → Holds m' a s
Holds-kept m m' a s k h =
    get-Holds m' a s λ i l. k (a + i) (omega arith) (omega arith) ∙ Holds-get m a i s h l
