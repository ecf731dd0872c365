-- ===== src/Menu/Pair.antt =====
-- `menu_get_pair` copies the value of a key into a fresh block.
use loli_loader.Base.{
  ℕ, suc, ◌+◌, ◌-◌, ◌^◌, ◌≤◌, ◌<◌, ◌≡◌, ◌⊎◌, refl, ◌∙◌, sym, ap, subst, none, some, [], ◌∷◌, Bytes,
  take, length, length-take, dec_lt, inl, inr, arith, IsSuffix, IsSuffix-trans, whole, behind,
  length-IsSuffix, none-ne-some,
}
use loli_loader.Memory.{Mem, Holds, IsMapped, Apart, terminated, IsCString}
use loli_loader.Memory.Cells.{Holds-get}
use loli_loader.CString.{strscpy}
use loli_loader.CString.Copy.{IsCString-tail, strscpy_lem, length-terminated}
use loli_loader.Extlinux.{extlinux_get_value}
use loli_loader.Extlinux.Extent.{extlinux_get_value-IsExtent}
use loli_loader.Extlinux.Pointer.{extlinux_get_value-IsSuffix}
use loli_loader.Run.{Run, done, panicked, fault, ◌>>=◌, checked}
use loli_loader.Alloc.{MemoryServices, Pointer, Fresh, malloc}
use loli_loader.Alloc.Laws.{IsLawful, ReturnsOrPanics, malloc-Fresh}
use loli_loader.Menu.{address_of, menu_get_pair}

-- The cells that were in use are as before.
abbrev pub Keeps : Mem → Mem → Type 0
Keeps m m' = (x : ℕ) → IsMapped m x → m' x ≡ m x

Holds-Keeps : (m m' : Mem) (a : ℕ) (s : Bytes) → Keeps m m' → Holds m a s → Holds m' a s
Holds-Keeps m m' a [] k h = tt
Holds-Keeps m m' a (c ∷ s) k h = (k a (c, h.0) ∙ h.0, Holds-Keeps m m' (a + 1) s k h.1)

IsCString-Keeps : (m m' : Mem) (a : ℕ) (s : Bytes) → Keeps m m' → IsCString m a s → IsCString m' a s
IsCString-Keeps m m' a s k h = record {
  held = Holds-Keeps m m' a (terminated s) k h.held;
  nonzero = h.nonzero;
}

-- The rest of a C string is a C string at its address.
pub IsSuffix-IsCString :
    (m : Mem) (base : ℕ) {s conf : Bytes}
    → IsSuffix s conf
    → IsCString m base conf
    → IsCString m (address_of base conf s) s
IsSuffix-IsCString m base {s} whole h =
    let e : base + (length s - length s) ≡ base = omega arith in
    subst (λ a. IsCString m a s) (sym e) h
IsSuffix-IsCString m base {s} {conf = x ∷ t} (behind k) h =
    let e : base + 1 + (length t - length s) ≡ base + (suc (length t) - length s) =
      omega (arith, length-IsSuffix k) in
    subst (λ a. IsCString m a s) e (IsSuffix-IsCString m (base + 1) k (IsCString-tail h))

-- A fresh block and a C string that was in memory before have no cell in common.
Fresh-Apart :
    (m m1 : Mem) (copy n a : ℕ) (s : Bytes)
    → 0 < n
    → Fresh m copy n m1
    → IsCString m a s
    → Apart copy n a (suc (length s))
Fresh-Apart m m1 copy n a s pos f h = elim (dec_lt a copy) [
  | yes below ↦ elim (dec_lt copy (a + suc (length s))) [
    | yes over ↦ absurd (clash (copy - a) 0 (omega arith) (omega arith) (omega arith))
    | no clear ↦ inr (omega arith)
  ]
  | no above ↦ elim (dec_lt a (copy + n)) [
    | yes over ↦ absurd (clash 0 (a - copy) (omega arith) (omega arith) (omega arith))
    | no clear ↦ inl (omega arith)
  ]
]
  where
    clash : (i j : ℕ) → i < suc (length s) → j < n → a + i ≡ copy + j → ⊥
    clash i j li lj e = none-ne-some (
        sym (f.unused j lj)
        ∙ ap m (sym e)
        ∙ Holds-get m a i (terminated s) h.held (omega (arith, length-terminated s)))

-- What a call that found the value `text` has done.
abbrev pub Copies : Mem → Bytes → Pointer × Mem → Type 0
Copies m text (p, m') = (copy : ℕ) × (p ≡ some copy) × Holds m' copy (terminated text) × Keeps m m'

module _ (s : MemoryServices) (lawful : IsLawful s) (base : ℕ) (conf : Bytes) where
  -- The copy, once the block is there.
  copy_into :
      (m : Mem) (v : Bytes) (n : ℕ)
      → IsCString m (address_of base conf v) v
      → n ≤ length v
      → suc n < 2 ^ 64
      → (r : Run (ℕ × Mem)) → ReturnsOrPanics r (λ x. Fresh m x.0 (n + 1) x.1)
      → ReturnsOrPanics
          (do
            x ← r
            c ← checked (strscpy (n + 1) x.1 x.0 (address_of base conf v) (n + 1))
            done (some x.0, c.1))
          (Copies m (take n v))
  copy_into m v n h l w (panicked msg) f = tt
  copy_into m v n h l w fault f = f
  copy_into m v n h l w (done (copy, m1)) f =
      let a = address_of base conf v in
      let one : n + 1 ≡ suc n = omega arith in
      let len : length (take n v) ≡ n = omega (arith, length-take n v) in
      let (m2, e, (held, outside)) =
        strscpy_lem (n + 1) m1 copy a n v (IsCString-Keeps m m1 a v f.kept h) w
          (λ i b. f.mapped i (omega arith))
          (apart (take n v) len (Fresh-Apart m m1 copy (n + 1) a v (omega arith) f h))
          (omega arith) in
      let call : strscpy (n + 1) m1 copy a (n + 1) ≡ some (length (take n v), m2) =
        subst (λ x. strscpy (n + 1) m1 copy a x ≡ some (length (take n v), m2)) (sym one) e in
      rw call (copy, refl, held, λ x u. outside x (avoids (take n v) len x u) ∙ f.kept x u)
    where
      avoids :
          (t : Bytes)
          → length t ≡ n
          → (x : ℕ) → IsMapped m x
          → (x < copy) ⊎ (copy + suc (length t) ≤ x)
      avoids t e x (c, u) = elim (dec_lt x copy) [
        | yes below ↦ inl below
        | no above ↦ elim (dec_lt x (copy + (n + 1))) [
          | yes inside ↦
              let y : copy + (x - copy) ≡ x = omega arith in
              absurd (none-ne-some (sym (f.unused (x - copy) (omega arith)) ∙ ap m y ∙ u))
          | no over ↦ inr (omega arith)
        ]
      ]

      apart :
          (t : Bytes)
          → length t ≡ n
          → Apart copy (n + 1) (address_of base conf v) (suc (length v))
          → Apart copy (suc (length t)) (address_of base conf v) (suc (length v))
      apart t e (inl x) = inl (omega arith)
      apart t e (inr x) = inr (omega arith)

  -- For a pair that the entry has, `menu_get_pair` returns, unless the allocation fails, a new C
  -- string that holds exactly the value, and leaves all the memory that was in use as it was.
  pub menu_get_pair-Copies :
      (m : Mem) (entry : Bytes) (k : ℕ) (key v : Bytes) (n : ℕ)
      → IsCString m base conf
      → IsSuffix entry conf
      → length conf + 1 < 2 ^ 64
      → extlinux_get_value entry (k ∷ key) ≡ some (v, n)
      → ReturnsOrPanics (menu_get_pair s base conf m entry (k ∷ key)) (Copies m (take n v))
  unfolding menu_get_pair
  menu_get_pair-Copies m entry k key v n h suffix w found =
      let place = IsSuffix-trans (extlinux_get_value-IsSuffix entry (k ∷ key) v n found) suffix in
      let extent = extlinux_get_value-IsExtent entry k key v n found in
      rw (found, menu_get_pair)
        (copy_into m v n (IsSuffix-IsCString m base place h)
          (omega (arith, extent.within, extent.inside))
          (omega (arith, extent.within, extent.inside, length-IsSuffix place)) (malloc s m (n + 1))
          (malloc-Fresh s lawful m (n + 1)))

  -- For a key that the entry does not have, it returns NULL and changes nothing.
  pub menu_get_pair_missing :
      (m : Mem) (entry key : Bytes)
      → extlinux_get_value entry key ≡ none
      → menu_get_pair s base conf m entry key ≡ done (none, m)
  unfolding menu_get_pair
  menu_get_pair_missing m entry key e = rw (e, menu_get_pair) refl
