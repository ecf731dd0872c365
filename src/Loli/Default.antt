-- ===== src/Loli/Default.antt =====
-- The default entry: the last one with the name, and else the first.
use loli_loader.Base.{
  ℕ, zero, suc, ◌+◌, ◌%◌, ◌^◌, ◌<◌, ◌≤◌, ◌≡◌, ◌⊎◌, inl, inr, refl, sym, ◌∙◌, ap, ap₂, subst, Bool,
  true, false, Option, none, some, List, [], ◌∷◌, arith, if◌then◌else◌, Bytes, codes, length,
  Bool-cases, get_elem?, some_eq, none-ne-some, ◌↔◌, ltb,
}
use loli_loader.Base.Int.{ℤ, pos, negsuc, is_negative, signed32}
use loli_loader.Extlinux.{extlinux_next_entry, extlinux_get_value}
use loli_loader.Extlinux.Lines.{
  length-later, length-labels, lines_of, later, visits, entries, labels, next_entry-first,
  next_entry-next,
}
use loli_loader.CString.Compare.{AreChars}
use loli_loader.Loli.{default_loop, default_entry}
use loli_loader.Loli.Named.{
  AreEntries, labels-AreEntries, is_named, is_default-is_named, IsNamed, IsName, label_test,
  extlinux_get_value-IsName,
}

-- The number of the last of the entries that passes the test.
abbrev pick : (Bytes → Bool) → List Bytes → ℕ → ℤ → ℤ
pick test [] num entry = entry
pick test (e ∷ es) num entry = pick test es (num + 1) (if test e then pos num else entry)

signed32-small : (n : ℕ) → n < 2 ^ 31 → signed32 n ≡ pos n
signed32-small n h = let e : ltb n (2 ^ 31) ≡ true = ground arith in rw e refl

default_loop-pick :
    (signed : Bool) (name : Option (Bytes × ℕ)) (f : ℕ) (o : Option Bytes) (num : ℕ) (entry : ℤ)
    → AreEntries (visits o)
    → length (visits o) ≤ f
    → num + length (visits o) < 2 ^ 31
    → default_loop f signed name o num entry
      ≡ some (num + length (visits o), pick (is_named signed name) (visits o) num entry)
unfolding default_loop
default_loop-pick signed name zero none num entry a l u =
    let z : num + 0 ≡ num = omega arith in rw z refl
default_loop-pick signed name (suc f) none num entry a l u =
    let z : num + 0 ≡ num = omega arith in rw z refl
default_loop-pick signed name zero (some p) num entry a l u = absurd (omega arith)
default_loop-pick signed name (suc f) (some p) num entry (s, b, a) l u =
    let next = extlinux_next_entry none (some p) in
    let e : visits next ≡ labels (later p) = next_entry-next p in
    let d = is_default-is_named signed name p s b in
    let z : num + 1 + length (labels (later p)) ≡ num + suc (length (labels (later p))) =
      omega arith in
    let ih =
      default_loop-pick signed name f next (num + 1)
        (if is_named signed name p then pos num else entry) (rw e a) (rw e (omega arith))
        (rw e (omega arith)) in
    let w : (num + 1) % 2 ^ 32 ≡ num + 1 = omega arith in
    let v = signed32-small num (omega arith) in rw (d, default_loop, w, v) (rw (e, z) at ih)

-- An entry passes the test and none behind it does, or none passes it.
abbrev IsLast : (Bytes → Bool) → List Bytes → ℕ → ℤ → ℤ → Type 0
IsLast test es num entry r =
    ((i : ℕ) × (e : Bytes) × (r ≡ pos (num + i))
      × (get_elem? es i ≡ some e)
      × (test e ≡ true)
      × ((j : ℕ) (d : Bytes) → i < j → get_elem? es j ≡ some d → test d ≡ false))
    ⊎ ((r ≡ entry) × ((j : ℕ) (d : Bytes) → get_elem? es j ≡ some d → test d ≡ false))

pick-IsLast :
    (test : Bytes → Bool) (es : List Bytes) (num : ℕ) (entry : ℤ)
    → IsLast test es num entry (pick test es num entry)
pick-IsLast test [] num entry = inr (refl, λ j d h. absurd (none-ne-some h))
pick-IsLast test (e ∷ es) num entry =
    elim (pick-IsLast test es (num + 1) (if test e then pos num else entry)) [
      | inl (i, x, r, g, t, n) ↦
          let z : num + 1 + i ≡ num + suc i = omega arith in
          inl (suc i, x, rw z at r, g, t, later_none i n)
      | inr (r, n) ↦ elim (Bool-cases (test e)) [
        | inl t ↦
            let z : num ≡ num + 0 = omega arith in
            inl (0, e, r ∙ rw (t, ← z) refl, refl, t, first_none n)
        | inr t ↦ inr (r ∙ rw t refl, all_none n t)
      ]
    ]
  where
    later_none :
        (i : ℕ)
        → ((j : ℕ) (d : Bytes) → i < j → get_elem? es j ≡ some d → test d ≡ false)
        → (j : ℕ) (d : Bytes) → suc i < j
        → get_elem? (e ∷ es) j ≡ some d
        → test d ≡ false
    later_none i n zero d l h = absurd (omega arith)
    later_none i n (suc j) d l h = n j d (omega arith) h

    first_none :
        ((j : ℕ) (d : Bytes) → get_elem? es j ≡ some d → test d ≡ false)
        → (j : ℕ) (d : Bytes) → 0 < j
        → get_elem? (e ∷ es) j ≡ some d
        → test d ≡ false
    first_none n zero d l h = absurd (omega arith)
    first_none n (suc j) d l h = n j d h

    all_none :
        ((j : ℕ) (d : Bytes) → get_elem? es j ≡ some d → test d ≡ false)
        → test e ≡ false
        → (j : ℕ) (d : Bytes) → get_elem? (e ∷ es) j ≡ some d
        → test d ≡ false
    all_none n t zero d h = ap test (sym (some_eq h)) ∙ t
    all_none n t (suc j) d h = n j d h

-- The default entry, and that there is no other reason for the first to be it.
abbrev pub IsDefaultEntry : Bytes → Option (Bytes × ℕ) → ℤ → Type 0
IsDefaultEntry cfg name d =
    ((i : ℕ) × (e : Bytes) × (d ≡ pos i)
      × (get_elem? (entries cfg) i ≡ some e)
      × IsNamed name e
      × ((j : ℕ) (x : Bytes) → i < j → get_elem? (entries cfg) j ≡ some x → ¬ IsNamed name x))
    ⊎ ((d ≡ pos 0) × ((j : ℕ) (x : Bytes) → get_elem? (entries cfg) j ≡ some x → ¬ IsNamed name x))

entries-run :
    (signed : Bool) (cfg : Bytes) (name : Option (Bytes × ℕ)) (start : ℤ)
    → length (entries cfg) < 2 ^ 31
    → default_loop (suc (length cfg)) signed name (extlinux_next_entry (some cfg) none) 0 start
      ≡ some (length (entries cfg), pick (is_named signed name) (entries cfg) 0 start)
entries-run signed cfg name start u =
    let o = extlinux_next_entry (some cfg) none in
    let v : visits o ≡ entries cfg = next_entry-first cfg in
    let z : 0 + length (entries cfg) ≡ length (entries cfg) = omega arith in
    let run =
      default_loop-pick signed name (suc (length cfg)) o 0 start
        (subst (λ es. AreEntries es) (sym v) (labels-AreEntries (lines_of (some cfg))))
        (subst (λ es. length es ≤ suc (length cfg)) (sym v)
          (omega (arith, length-labels (lines_of (some cfg)), length-later cfg)))
        (subst (λ es. 0 + length es < 2 ^ 31) (sym v) (omega arith)) in
    run
    ∙ ap₂ (λ n es. some (n, pick (is_named signed name) es 0 start))
        (ap (λ es. 0 + length es) v ∙ z) v

not_named : {b : Bool} {P : Type 0} → (b ≡ true) ↔ P → b ≡ false → ¬ P
not_named h e p = impossible (sym e ∙ h.1 p)
  where
    impossible : false ≡ true → ⊥
    impossible e = cc

settled :
    (signed : Bool) (cfg : Bytes) (name : Option (Bytes × ℕ)) (start r : ℤ)
    → AreChars cfg
    → IsName name
    → (if is_negative start then pos 0 else start) ≡ pos 0
    → IsLast (is_named signed name) (entries cfg) 0 start r
    → IsDefaultEntry cfg name (if is_negative r then pos 0 else r)
settled signed cfg name start r a m h (inl (i, e, q, g, t, n)) =
    let z : 0 + i ≡ i = omega arith in
    inl (
      i,
      e,
      rw (q, z) refl,
      g,
      (label_test signed cfg name i e a m g).0 t,
      λ j x l k. not_named (label_test signed cfg name j x a m k) (n j x l k),
    )
settled signed cfg name start r a m h (inr (q, n)) =
    inr (rw q h, λ j x k. not_named (label_test signed cfg name j x a m k) (n j x k))

start_zero :
    (name : Option (Bytes × ℕ)) (start : ℤ)
    → start ≡ elim name [ none ↦ pos 0 | some n ↦ negsuc 0 ]
    → (if is_negative start then pos 0 else start) ≡ pos 0
start_zero none start h = rw h refl
start_zero (some n) start h = rw h refl

-- On a configuration of characters that are not 0, with fewer than 2 ^ 31 entries, `cmdline_loop`
-- counts the entries, and its default entry is the last one whose label agrees with the value of the
-- "default" line, up to the end of the text, in one byte more than this value is long; it is the first
-- entry where there is none. The search always ends, and does not read a name at NULL.
pub default_entry-IsDefaultEntry :
    (signed : Bool) (cfg : Bytes)
    → AreChars cfg
    → length (entries cfg) < 2 ^ 31
    → (d : ℤ) × (default_entry signed cfg ≡ some (length (entries cfg), d))
      × IsDefaultEntry cfg (extlinux_get_value cfg (codes "default")) d
unfolding default_entry
default_entry-IsDefaultEntry signed cfg a u =
    let name = extlinux_get_value cfg (codes "default") in
    let start : ℤ = elim name [ none ↦ pos 0 | some n ↦ negsuc 0 ] in
    let r = pick (is_named signed name) (entries cfg) 0 start in
    (
      (if is_negative r then pos 0 else r),
      rw (default_entry, entries-run signed cfg name start u) refl,
      settled signed cfg name start r a (extlinux_get_value-IsName cfg (codes "default") a)
          (start_zero name start refl) (pick-IsLast (is_named signed name) (entries cfg) 0 start),
    )
