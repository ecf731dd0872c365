-- ===== src/Elf2Efi/Block.antt =====
-- Blocks of bytes: reading and storing within them, and little-endian words.
use loli_loader.Base.{
  ℕ, zero, suc, ◌+◌, ◌/◌, ◌^◌, ◌≤◌, ◌<◌, ◌≡◌, refl, sym, ap, ap₂, ◌∙◌, ◌++◌, arith, Bytes, length,
  take, drop, length-append, leb-true, take-append, drop-append, take-drop, length-drop_add,
  length-take_le,
}
use mathlib.Core.List.{append_assoc}
use loli_loader.Elf2Efi.{done, bytes_at, store, to_le, le, replicate, fresh}

pub bytes_at_lem :
    (s : Bytes) (off n : ℕ) → off + n ≤ length s → bytes_at s off n ≡ done (take n (drop off s))
unfolding bytes_at
bytes_at_lem s off n h = rw (leb-true (off + n) (length s) h) refl

pub store_lem :
    (s : Bytes) (off : ℕ) (bs : Bytes)
    → off + length bs ≤ length s
    → store s off bs ≡ done (take off s ++ bs ++ drop (off + length bs) s)
unfolding store
store_lem s off bs h = rw (leb-true (off + length bs) (length s) h) refl

pub length-to_le : (n v : ℕ) → length (to_le n v) ≡ n
unfolding to_le
length-to_le zero v = refl
length-to_le (suc n) v = omega (arith, length-to_le n (v / 256))

pub length-replicate : (n c : ℕ) → length (replicate n c) ≡ n
unfolding replicate
length-replicate zero c = refl
length-replicate (suc n) c = omega (arith, length-replicate n c)

pub length-fresh {ℓ} : {A : Type ℓ} (dirt : ℕ → A) (n : ℕ) → length (fresh dirt n) ≡ n
unfolding fresh
length-fresh dirt zero = refl
length-fresh dirt (suc n) = omega (arith, length-fresh (λ i. dirt (suc i)) n)

-- The bytes of a number that fits give it back.
pub le-to_le2 : (v : ℕ) → v < 2 ^ 16 → le (to_le 2 v) ≡ v
unfolding le to_le
le-to_le2 v h = omega arith

pub le-to_le4 : (v : ℕ) → v < 2 ^ 32 → le (to_le 4 v) ≡ v
unfolding le to_le
le-to_le4 v h = omega arith

pub le-to_le8 : (v : ℕ) → v < 2 ^ 64 → le (to_le 8 v) ≡ v
unfolding le to_le
le-to_le8 v h = omega arith

store-middle :
    (p old q r new : Bytes)
    → length old ≡ length new
    → store (p ++ old ++ q ++ r) (length p) new ≡ done (p ++ new ++ (q ++ r))
store-middle p old q r new h =
    let e1 : p ++ old ++ q ++ r ≡ p ++ (old ++ (q ++ r)) =
      append_assoc (p ++ old) q r ∙ append_assoc p old (q ++ r) in
    let e2 : p ++ old ++ q ++ r ≡ p ++ old ++ (q ++ r) = append_assoc (p ++ old) q r in
    let n : length p + length new ≡ length (p ++ old) = omega (arith, length-append p old) in
    store_lem (p ++ old ++ q ++ r) (length p) new (
      omega
        (arith, length-append (p ++ old ++ q) r, length-append (p ++ old) q, length-append p old))
    ∙ ap₂ (λ (a c : Bytes). done (a ++ new ++ c))
        (ap (take (length p)) e1 ∙ take-append p (old ++ (q ++ r)) (length p) refl)
        (ap₂ drop n e2 ∙ drop-append (p ++ old) (q ++ r) (length (p ++ old)) refl)

-- Bytes stored over others of the same number, in the first `n` bytes of a block.
pub store_over :
    (s p old q new : Bytes) (n : ℕ)
    → n ≤ length s
    → take n s ≡ p ++ old ++ q
    → length old ≡ length new
    → (t : Bytes) × (store s (length p) new ≡ done t)
      × (length t ≡ length s)
      × (take n t ≡ p ++ new ++ q)
store_over s p old q new n l e h =
    let r = drop n s in
    let whole : p ++ old ++ q ++ r ≡ s = ap (λ t. t ++ r) (sym e) ∙ take-drop n s in
    let size : n ≡ length (p ++ new ++ q) = omega (
      arith,
      length-append (p ++ new) q,
      length-append p new,
      length-append (p ++ old) q,
      length-append p old,
      ap length e,
      length-take_le n s l,
    ) in
    (
      p ++ new ++ (q ++ r),
      ap (λ t. store t (length p) new) (sym whole) ∙ store-middle p old q r new h,
      omega (
        arith,
        length-append (p ++ new) (q ++ r),
        length-append q r,
        size,
        length-append (p ++ new) q,
        length-drop_add n s l,
      ),
      ap (take n) (sym (append_assoc (p ++ new) q r)) ∙ take-append (p ++ new ++ q) r n size,
    )
