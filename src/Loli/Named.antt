-- ===== src/Loli/Named.antt =====
-- Which entries have the name of the default, as `strncmp` compares it with their labels.
use loli_loader.Base.{
  ℕ, zero, suc, ◌≡◌, refl, sym, ◌∙◌, ap, subst, Bool, true, false, Option, none, some, List, [],
  ◌∷◌, arith, Bytes, codes, Bool-cases, Option-cases, inl, inr, some_eq, none-ne-some, get_elem?,
  take, IsSuffix, whole, behind, ◌↔◌, ◌==◌,
}
use loli_loader.Base.Int.{ℤ, pos}
use loli_loader.Extlinux.{
  extlinux_get_value, label_key, is_label, match_key, skip_space, value_loop, value_len, get_label,
  matched,
}
use loli_loader.Extlinux.Lines.{labels, later, lines_of, entries}
use loli_loader.Extlinux.Suffix.{skip_space_idem, skip_space-IsSuffix}
use loli_loader.Extlinux.Key.{match_key-end}
use loli_loader.Extlinux.Pointer.{extlinux_get_value-IsSuffix}
use loli_loader.CString.Compare.{AreChars, strncmp, strncmp-take}
use loli_loader.Loli.{is_default, is_zero}

-- Entries stand at their first byte, and are label lines.
abbrev pub AreEntries : List Bytes → Type 0
AreEntries [] = Unit
AreEntries (e ∷ es) = (skip_space e ≡ e) × (is_label e ≡ true) × AreEntries es

pub labels-AreEntries : (ps : List Bytes) → AreEntries (labels ps)
labels-AreEntries [] = tt
labels-AreEntries (p ∷ ps) = elim (Bool-cases (is_label (skip_space p))) [
  | inl h ↦ rw h (skip_space_idem p, h, labels-AreEntries ps)
  | inr h ↦ rw h (labels-AreEntries ps)
]

-- Every entry has a label.
label_found :
    (p : Bytes)
    → skip_space p ≡ p
    → is_label p ≡ true
    → (r : Bytes × ℕ) × (extlinux_get_value p label_key ≡ some r)
unfolding extlinux_get_value value_loop get_label
label_found [] s h = absurd (impossible (sym (ap matched (match_key-end b'l' (codes "abel"))) ∙ h))
  where
    impossible : false ≡ true → ⊥
    impossible e = cc
label_found (c ∷ p) s h = elim (Option-cases (match_key (c ∷ p) label_key)) [
  | inl e ↦ absurd (impossible (rw e at h))
  | inr (v, e) ↦ ((v, value_len v), rw (s, e, value_loop) refl)
]
  where
    impossible : false ≡ true → ⊥
    impossible e = cc

-- What the loop tests an entry for, where its label is read.
abbrev pub is_named : Bool → Option (Bytes × ℕ) → Bytes → Bool
is_named signed name p = elim (is_default signed name p) [ none ↦ false | some b ↦ b ]

some_named :
    (o : Option Bool) (b : Bool) → o ≡ some b → o ≡ some (elim o [ none ↦ false | some c ↦ c ])
some_named none b h = absurd (none-ne-some h)
some_named (some c) b h = refl

pub is_default-is_named :
    (signed : Bool) (name : Option (Bytes × ℕ)) (p : Bytes)
    → skip_space p ≡ p
    → is_label p ≡ true
    → is_default signed name p ≡ some (is_named signed name p)
unfolding is_default
is_default-is_named signed none p s h = refl
is_default-is_named signed (some (n, l)) p s h =
    let (r, e) = label_found p s h in
    some_named (is_default signed (some (n, l)) p) (is_zero (strncmp signed n r.0 l))
      (rw (e, is_default) refl)

-- The entry has the name of the default: its label and the name agree in one byte more than the name
-- is long, as far as the text goes.
abbrev pub IsNamed : Option (Bytes × ℕ) → Bytes → Type 0
IsNamed none e = ⊥
IsNamed (some (name, len)) e =
    (label : Bytes) × (k : ℕ) × (extlinux_get_value e label_key ≡ some (label, k))
    × (take (suc len) name ≡ take (suc len) label)

is_zero_iff : (z : ℤ) → (is_zero z ≡ true) ↔ (z ≡ pos 0)
is_zero_iff z = ground arith

pub AreChars-IsSuffix : {s t : Bytes} → IsSuffix s t → AreChars t → AreChars s
AreChars-IsSuffix whole a = a
AreChars-IsSuffix (behind h) (p, q, a) = AreChars-IsSuffix h a

-- The name is of characters that are not 0.
abbrev pub IsName : Option (Bytes × ℕ) → Type 0
IsName none = Unit
IsName (some (name, len)) = AreChars name

is_named-zero :
    (signed : Bool) (name : Bytes) (len : ℕ) (e : Bytes) (r : Bytes × ℕ)
    → extlinux_get_value e label_key ≡ some r
    → is_named signed (some (name, len)) e ≡ is_zero (strncmp signed name r.0 len)
unfolding is_default
is_named-zero signed name len e r g = rw (is_named, g) refl

is_named_iff :
    (signed : Bool) (name : Option (Bytes × ℕ)) (e : Bytes)
    → IsName name
    → AreChars e
    → skip_space e ≡ e
    → is_label e ≡ true
    → (is_named signed name e ≡ true) ↔ IsNamed name e
unfolding is_default
is_named_iff signed none e n a s h = ((λ b. absurd (no b)), λ b. absurd b)
  where
    no : false ≡ true → ⊥
    no b = cc
is_named_iff signed (some (name, len)) e n a s h =
    let (r, g) = label_found e s h in
    let d = is_named-zero signed name len e r g in
    let c = AreChars-IsSuffix (extlinux_get_value-IsSuffix e label_key r.0 r.1 g) a in
    let t = strncmp-take signed name r.0 len n c in
    let z = is_zero_iff (strncmp signed name r.0 len) in
    (
      (λ b. (r.0, r.1, g, t.0 (z.0 (sym d ∙ b)))),
      λ (label, k, f, q).
          let same : label ≡ r.0 = sym (ap (λ x. x.0) (some_eq (sym g ∙ f))) in
          d ∙ z.1 (t.1 (q ∙ ap (λ x. take (suc len) x) same)),
    )

-- All entries are of characters that are not 0, as the text is.
abbrev AllChars : List Bytes → Type 0
AllChars [] = Unit
AllChars (p ∷ ps) = AreChars p × AllChars ps

later-AllChars : (p : Bytes) → AreChars p → AllChars (later p)
unfolding later
later-AllChars [] a = tt
later-AllChars (c ∷ []) a = elim (Bool-cases (c == b'\n')) [ inl e ↦ rw e tt | inr e ↦ rw e tt ]
later-AllChars (c ∷ d ∷ p) (x, y, a) = elim (Bool-cases (c == b'\n')) [
  | inl e ↦ rw e (a, later-AllChars (d ∷ p) a)
  | inr e ↦ rw e (later-AllChars (d ∷ p) a)
]

labels-AllChars : (ps : List Bytes) → AllChars ps → AllChars (labels ps)
labels-AllChars [] a = tt
labels-AllChars (p ∷ ps) (h, a) = elim (Bool-cases (is_label (skip_space p))) [
  | inl e ↦ rw e (AreChars-IsSuffix (skip_space-IsSuffix p) h, labels-AllChars ps a)
  | inr e ↦ rw e (labels-AllChars ps a)
]

nth_test :
    (signed : Bool) (name : Option (Bytes × ℕ)) (es : List Bytes) (i : ℕ) (e : Bytes)
    → IsName name
    → AreEntries es
    → AllChars es
    → get_elem? es i ≡ some e
    → (is_named signed name e ≡ true) ↔ IsNamed name e
nth_test signed name [] i e n a b h = absurd (none-ne-some h)
nth_test signed name (x ∷ es) zero e n (s, l, a) (c, b) h =
    subst (λ y. (is_named signed name y ≡ true) ↔ IsNamed name y) (some_eq h)
      (is_named_iff signed name x n c s l)
nth_test signed name (x ∷ es) (suc i) e n (s, l, a) (c, b) h = nth_test signed name es i e n a b h

-- The loop's test of an entry of a configuration, in terms of its label.
pub label_test :
    (signed : Bool) (cfg : Bytes) (name : Option (Bytes × ℕ)) (i : ℕ) (e : Bytes)
    → AreChars cfg
    → IsName name
    → get_elem? (entries cfg) i ≡ some e
    → (is_named signed name e ≡ true) ↔ IsNamed name e
label_test signed cfg name i e a n h =
    nth_test signed name (entries cfg) i e n (labels-AreEntries (lines_of (some cfg)))
      (labels-AllChars (lines_of (some cfg)) (a, later-AllChars cfg a)) h

pub extlinux_get_value-IsName :
    (cfg key : Bytes) → AreChars cfg → IsName (extlinux_get_value cfg key)
extlinux_get_value-IsName cfg key a = elim (Option-cases (extlinux_get_value cfg key)) [
  | inl e ↦ rw e tt
  | inr ((v, n), e) ↦ rw e (AreChars-IsSuffix (extlinux_get_value-IsSuffix cfg key v n e) a)
]
