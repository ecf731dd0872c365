-- ===== src/Interaction/Convert.antt =====
-- The conversion of line ends in `puts_internal`.
use loli_loader.Base.{
  ℕ, zero, suc, ◌+◌, ◌*◌, ◌<◌, ◌≤◌, ◌≡◌, ◌⊎◌, inl, inr, refl, some, Option, [], ◌∷◌, arith, ◌==◌,
  if◌then◌else◌, Bytes, length, Bool-cases, length-append, ◌↔◌,
}
use loli_loader.Base.Int.{pos}
use loli_loader.Memory.{
  Mem, update, store, load, Holds, IsMapped, IsBlock, SameOutside, NonZero, terminated, store-some,
  update_ne, update-Holds, IsBlock-head, IsBlock-tail, update-IsBlock, SameOutside-update, ◌>>=◌,
}
use loli_loader.Interaction.{convert_loop, timer_ticks}

-- The text with a carriage return in front of each newline.
abbrev pub crlf : Bytes → Bytes
crlf [] = []
crlf (c ∷ s) = if c == b'\n' then b'\r' ∷ c ∷ crlf s else c ∷ crlf s

-- The source lies outside the block of `n` cells at `dst`.
abbrev pub Outside : ℕ → ℕ → ℕ → Bytes → Type 0
Outside dst n src s = (src + length s + 1 ≤ dst) ⊎ (dst + n ≤ src)

IsBlock-first :
    (m : Mem) (a : ℕ) (t : Bytes) (c : ℕ) → IsBlock m a (length (c ∷ t) + 1) → IsMapped m a
IsBlock-first m a t c b = IsBlock-head m a (length t + 1) λ i l. b i (omega arith)

IsBlock-rest :
    (m : Mem) (a : ℕ) (t : Bytes) (c : ℕ)
    → IsBlock m a (length (c ∷ t) + 1)
    → IsBlock m (a + 1) (length t + 1)
IsBlock-rest m a t c b = IsBlock-tail m a (length t + 1) λ i l. b i (omega arith)

-- A run that leaves the text and a terminator at `dst`, and writes nothing else.
abbrev pub Leaves : Mem → ℕ → Bytes → Option Mem → Type 0
Leaves m dst t r =
    (m' : Mem) × (r ≡ some m') × Holds m' dst (terminated t) × SameOutside dst (length t + 1) m m'

Leaves-cons :
    (m : Mem) (dst c : ℕ) (t : Bytes) (k : Mem → Option Mem)
    → IsMapped m dst
    → Leaves (update m dst c) (dst + 1) t (k (update m dst c))
    → Leaves m dst (c ∷ t) (store m dst c >>= k)
Leaves-cons m dst c t k b (m', e, h, o) =
    let (o', w) = SameOutside-update dst (length t + 1) c m m' o in
    (m', rw (store-some m dst c b) e, (w, h), λ x g. o' x (ground arith))

-- With room apart from the text, the loop of `puts_internal` ends, within a round for each byte of the
-- text and one more: it leaves the text with a carriage return in front of each newline, and a
-- terminator, in its buffer, and writes no other cell.
pub convert_loop-Leaves :
    (s : Bytes) (f : ℕ) (m : Mem) (dst src : ℕ)
    → Holds m src (terminated s)
    → NonZero s
    → length s < f
    → IsBlock m dst (length (crlf s) + 1)
    → Outside dst (length (crlf s) + 1) src s
    → Leaves m dst (crlf s) (convert_loop f m dst src)
unfolding convert_loop load
convert_loop-Leaves s zero m dst src h z l b o = absurd (omega arith)
convert_loop-Leaves [] (suc f) m dst src h z l b o =
    let e = store-some m dst 0 (IsBlock-head m dst 0 b) in
    (
      update m dst 0,
      rw (h.0, e) refl,
      (ground arith, tt),
      λ x k. update_ne m dst 0 x (ground arith),
    )
convert_loop-Leaves (c ∷ s) (suc f) m dst src h z l b o = elim (Bool-cases (c == b'\n')) [
  | inr p ↦
      let b' : IsBlock m dst (length (c ∷ crlf s) + 1) = rw p at b in
      let o' : Outside dst (length (c ∷ crlf s) + 1) src (c ∷ s) = rw p at o in
      rw (h.0, z.0, p)
        (Leaves-cons m dst c (crlf s) (λ x. convert_loop f x (dst + 1) (src + 1))
          (IsBlock-first m dst (crlf s) c b')
          (convert_loop-Leaves s f (update m dst c) (dst + 1) (src + 1)
            (update-Holds m dst c (src + 1) (terminated s)
              (ground (arith, length-append s (0 ∷ []))) h.1)
            z.1 (omega arith)
            (update-IsBlock m dst c (dst + 1) (length (crlf s) + 1)
              (IsBlock-rest m dst (crlf s) c b'))
            (ground arith)))
  | inl n ↦
      let b' : IsBlock m dst (length (b'\r' ∷ c ∷ crlf s) + 1) = rw n at b in
      let o' : Outside dst (length (b'\r' ∷ c ∷ crlf s) + 1) src (c ∷ s) = rw n at o in
      let m1 = update m dst b'\r' in
      let b1 : IsBlock m1 (dst + 1) (length (c ∷ crlf s) + 1) =
        update-IsBlock m dst b'\r' (dst + 1) (length (c ∷ crlf s) + 1)
          (IsBlock-rest m dst (c ∷ crlf s) b'\r' b') in
      rw (h.0, z.0, n)
        (Leaves-cons m dst b'\r' (c ∷ crlf s)
          (λ x. store x (dst + 1) c >>= λ y. convert_loop f y (dst + 1 + 1) (src + 1))
          (IsBlock-first m dst (c ∷ crlf s) b'\r' b')
          (Leaves-cons m1 (dst + 1) c (crlf s) (λ y. convert_loop f y (dst + 1 + 1) (src + 1))
            (IsBlock-first m1 (dst + 1) (crlf s) c b1)
            (convert_loop-Leaves s f (update m1 (dst + 1) c) (dst + 1 + 1) (src + 1)
              (update-Holds m1 (dst + 1) c (src + 1) (terminated s)
                (ground (arith, length-append s (0 ∷ [])))
                (update-Holds m dst b'\r' (src + 1) (terminated s)
                  (ground (arith, length-append s (0 ∷ []))) h.1))
              z.1 (omega arith)
              (update-IsBlock m1 (dst + 1) c (dst + 1 + 1) (length (crlf s) + 1)
                (IsBlock-rest m1 (dst + 1) (crlf s) c b1))
              (ground arith))))
]

-- The timer that `getchar_timeout` sets has ten million ticks for each second exactly for timeouts of
-- up to 214 seconds; from 215 seconds on the product overflows an `int`.
pub timer_ticks_exact :
    (timeout : ℕ) → (timer_ticks timeout ≡ pos (timeout * 10000000)) ↔ (timeout ≤ 214)
unfolding timer_ticks
timer_ticks_exact timeout = ground arith
