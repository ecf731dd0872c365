-- ===== src/Alloc/Model.antt =====
-- Memory services that keep the promises of the firmware: the pool's allocations are made at one fixed
-- address and those of pages at another, and fail if a cell there is in use. They show that the promises can be kept.
use loli_loader.Base.{
  ℕ, zero, suc, ◌+◌, ◌-◌, ◌*◌, ◌<◌, ◌≡◌, refl, sym, ◌∙◌, ap, Bool, true, false, ◌&&◌, Option, none,
  some, ◌==◌, ltb, leb, if◌then◌else◌, Bool-cases, inl, inr, arith, none-ne-some,
}
use loli_loader.Memory.{Mem, IsMapped}
use loli_loader.Alloc.{MemoryServices, Fresh, efi_success, is_success}
use loli_loader.Alloc.Laws.{IsLawful, IsPageLawful}

abbrev unused : Option ℕ → Bool
unused none = true
unused (some c) = false

all_unused : Mem → ℕ → ℕ → Bool
all_unused m a zero = true
all_unused m a (suc n) = unused (m (a + n)) && all_unused m a n

abbrev within : ℕ → ℕ → ℕ → Bool
within a n x = leb a x && ltb x (a + n)

abbrev extend : Mem → ℕ → ℕ → Mem
extend m a n x = if within a n x then some 0 else m x

unused_none : (o : Option ℕ) → unused o ≡ true → o ≡ none
unused_none none h = refl
unused_none (some c) h = absurd (cc)

all_unused_sound : (m : Mem) (a n i : ℕ) → all_unused m a n ≡ true → i < n → m (a + i) ≡ none
unfolding all_unused
all_unused_sound m a zero i h l = absurd (omega arith)
all_unused_sound m a (suc n) i h l = elim (Bool-cases (i == n)) [
  | inl e ↦ let same : i ≡ n = ground arith in rw same (unused_none (m (a + n)) (ground arith))
  | inr ne ↦ all_unused_sound m a n i (ground arith) (ground arith)
]

-- Where the cells at `a` are free, they are handed out.
allocate : ℕ → Mem → ℕ → ℕ × ℕ × Mem
allocate a m n = if all_unused m a n then (efi_success, a, extend m a n) else (9, 0, m)

extend-Fresh : (m : Mem) (a n : ℕ) → all_unused m a n ≡ true → Fresh m a n (extend m a n)
extend-Fresh m a n h = record {
  unused = λ i l. all_unused_sound m a n i h l;
  mapped = λ i l. (0, ground arith);
  kept = λ x (c, e). elim (Bool-cases (within a n x)) [
    | inl b ↦
        let y : a + (x - a) ≡ x = ground arith in
        absurd (none-ne-some (sym (all_unused_sound m a n (x - a) h (ground arith)) ∙ ap m y ∙ e))
    | inr b ↦ rw b refl
  ];
}

unfoldable pub services_at : (pool pages : ℕ) → MemoryServices
unfolding allocate all_unused
services_at pool pages = record {
  allocate_pool = λ m type n. allocate pool m n;
  free_pool = λ m p. m;
  allocate_pages = λ m type n. allocate pages m (4096 * n);
  free_pages = λ m p n. m;
}

-- Both at the same address.
unfoldable pub services : ℕ → MemoryServices
unfolding services_at
services a = services_at a a

allocate-Fresh :
    (a : ℕ) (m : Mem) (n : ℕ)
    → is_success (allocate a m n).0 ≡ true
    → Fresh m (allocate a m n).1 n (allocate a m n).2
unfolding allocate
allocate-Fresh a m n h = elim (Bool-cases (all_unused m a n)) [
  | inl e ↦ rw e (extend-Fresh m a n e)
  | inr e ↦ absurd (impossible (rw e at h))
]
  where
    impossible : is_success 9 ≡ true → ⊥
    impossible z = cc

pub services_at-IsLawful : (pool pages : ℕ) → IsLawful (services_at pool pages)
unfolding services_at
services_at-IsLawful pool pages m type n = allocate-Fresh pool m n

pub services-IsLawful : (a : ℕ) → IsLawful (services a)
unfolding services
services-IsLawful a = services_at-IsLawful a a

allocate_kept : (a : ℕ) (m : Mem) (n x : ℕ) → IsMapped m x → (allocate a m n).2 x ≡ m x
unfolding allocate
allocate_kept a m n x u = elim (Bool-cases (all_unused m a n)) [
  | inl e ↦ rw e ((extend-Fresh m a n e).kept x u)
  | inr e ↦ rw e refl
]

pub services_at-IsPageLawful : (pool pages : ℕ) → IsPageLawful (services_at pool pages)
unfolding services_at
services_at-IsPageLawful pool pages m type n =
    ((λ h. allocate-Fresh pages m (4096 * n) h), λ x u. allocate_kept pages m (4096 * n) x u)
