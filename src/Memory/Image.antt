-- ===== src/Memory/Image.antt =====
-- A memory given by the list of its cells from the address 0 on, for tests.
use loli_loader.Base.{
  ℕ, zero, suc, ◌+◌, ◌≤◌, ◌<◌, ◌≡◌, refl, [], ◌∷◌, some, arith, Bytes, length, get_elem?, get_or,
}
use loli_loader.Memory.{Mem, IsBlock}

abbrev pub image : Bytes → Mem
image s x = get_elem? s x

pub get_elem?-some : (s : Bytes) (x : ℕ) → x < length s → get_elem? s x ≡ some (get_or s x 0)
get_elem?-some [] x h = absurd (omega arith)
get_elem?-some (c ∷ s) zero h = refl
get_elem?-some (c ∷ s) (suc x) h = get_elem?-some s x (omega arith)

pub image-IsBlock : (s : Bytes) (a n : ℕ) → a + n ≤ length s → IsBlock (image s) a n
image-IsBlock s a n h i l = (get_or s (a + i) 0, get_elem?-some s (a + i) (omega arith))
