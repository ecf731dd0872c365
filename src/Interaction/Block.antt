-- ===== src/Interaction/Block.antt =====
-- The block of the line editor: storing in it, and letting it grow.
use loli_loader.Base.{
  ℕ, zero, suc, ◌+◌, ◌-◌, ◌<◌, ◌≡◌, refl, ◌∙◌, ap, ap₂, false, Option, some, [], ◌∷◌, ◌++◌, arith,
  ◌==◌, Bytes, length, take, drop, rev, length-rev, length-append, length-take, take-append_left,
  take-take, length-drop_add,
}
use loli_loader.Interaction.{set_byte, grow_block}

-- A new block has the size that was asked for.
abbrev pub HasSizes : (ℕ → Option Bytes) → Type 0
HasSizes alloc = (n : ℕ) (s : Bytes) → alloc n ≡ some s → length s ≡ n

pub set_byte_lem :
    (s : Bytes) (i c : ℕ)
    → i < length s
    → (t : Bytes) × (set_byte s i c ≡ some t)
      × (length t ≡ length s)
      × (take (i + 1) t ≡ take i s ++ c ∷ [])
      × (take i t ≡ take i s)
unfolding set_byte
set_byte_lem [] i c h = absurd (omega arith)
set_byte_lem (d ∷ s) zero c h = (c ∷ s, refl, refl, refl, refl)
set_byte_lem (d ∷ s) (suc i) c h =
    let (t, e, l, x, y) = set_byte_lem s i c (omega arith) in
    let z : suc i + 1 ≡ suc (i + 1) = omega arith in
    (d ∷ t, rw e refl, omega arith, rw z (ap (λ r. d ∷ r) x), ap (λ r. d ∷ r) y)

take-snoc :
    (n : ℕ) (s u : Bytes) (c : ℕ) → take (suc n) s ≡ u ++ c ∷ [] → length u ≡ n → take n s ≡ u
take-snoc zero s [] c e h = refl
take-snoc zero s (d ∷ u) c e h = absurd (omega arith)
take-snoc (suc n) s [] c e h = absurd (omega arith)
take-snoc (suc n) [] (d ∷ u) c e h = absurd (cc)
take-snoc (suc n) (x ∷ s) (d ∷ u) c e h =
    let (p, q) = split e in ap₂ (λ a r. a ∷ r) p (take-snoc n s u c q (omega arith))
  where
    split : take (suc (suc n)) (x ∷ s) ≡ d ∷ u ++ c ∷ [] → (x ≡ d) × (take (suc n) s ≡ u ++ c ∷ [])
    split k = (cc, cc)

-- Between two keys: the block has its size, with room for the terminator, and holds the text.
pub record Holding (s : Bytes) (buflen strlen : ℕ) (st : Bytes) : Type 0 where
  pub size : length s ≡ buflen
  pub room : strlen < buflen
  pub count : length st ≡ strlen
  pub content : take strlen s ≡ rev st

module _ (alloc : ℕ → Option Bytes) (sizes : HasSizes alloc) where
  -- Storing the next byte of the line.
  pub put_byte :
      (s : Bytes) (buflen strlen c : ℕ) (st : Bytes)
      → length s ≡ buflen
      → strlen + 1 < buflen
      → length st ≡ strlen
      → take strlen s ≡ rev st
      → (t : Bytes) × (set_byte s strlen c ≡ some t) × Holding t buflen (strlen + 1) (c ∷ st)
  put_byte s buflen strlen c st l r n h =
      let (t, e, k, x, y) = set_byte_lem s strlen c (omega arith) in
      (
        t,
        e,
        record {
          size = omega arith;
          room = r;
          count = omega arith;
          content = x ∙ ap (λ z. z ++ c ∷ []) h;
        },
      )

  -- Taking the last byte of the line away.
  take_byte :
      (s : Bytes) (buflen strlen d : ℕ) (st : Bytes)
      → Holding s buflen strlen (d ∷ st)
      → (t : Bytes) × (set_byte s (strlen - 1) 0 ≡ some t) × Holding t buflen (strlen - 1) st
  take_byte s buflen strlen d st g =
      let (t, e, k, x, y) = set_byte_lem s (strlen - 1) 0 (omega (arith, g.size, g.room)) in
      let z : suc (strlen - 1) ≡ strlen = omega (arith, g.count) in
      (
        t,
        e,
        record {
          size = k ∙ g.size;
          room = omega (arith, g.room);
          count = omega (arith, g.count);
          content =
              y
              ∙ take-snoc (strlen - 1) s (rev st) d (rw z g.content)
                  (omega (arith, length-rev st, g.count));
        },
      )

  pub take_last :
      (s : Bytes) (buflen strlen : ℕ) (st : Bytes)
      → Holding s buflen strlen st
      → (strlen == 0) ≡ false
      → (t : Bytes) × (set_byte s (strlen - 1) 0 ≡ some t)
        × Holding t buflen (strlen - 1) (drop 1 st)
  take_last s buflen strlen [] g z = absurd (empty_count (g.count))
    where
      empty_count : 0 ≡ strlen → ⊥
      empty_count e = ground arith
  take_last s buflen strlen (d ∷ st) g z = take_byte s buflen strlen d st g

  -- Storing the next byte where the block is full, and grows.
  pub grow_put :
      (s : Bytes) (buflen strlen c : ℕ) (st : Bytes) (b : Bytes)
      → Holding s buflen strlen st
      → alloc (buflen + 32) ≡ some b
      → (s' : Bytes) × (grow_block alloc s (strlen + 1) (buflen + 32) ≡ some s')
        × (t : Bytes) × (set_byte s' strlen c ≡ some t)
        × Holding t (buflen + 32) (strlen + 1) (c ∷ st)
  unfolding grow_block
  grow_put s buflen strlen c st b g e =
      let len = sizes (buflen + 32) b e in
      let l : length (take (strlen + 1) s) ≡ strlen + 1 =
        length-take (strlen + 1) s ∙ omega (arith, g.size, g.room) in
      let s' = take (strlen + 1) s ++ drop (strlen + 1) b in
      let (t, r, h) =
        put_byte s' (buflen + 32) strlen c st
          (length-append (take (strlen + 1) s) (drop (strlen + 1) b)
            ∙ omega (
              arith,
              l,
              len,
              g.room,
              length-drop_add (strlen + 1) b (omega (arith, len, g.room)),
            ))
          (omega (arith, g.room)) g.count
          (take-append_left strlen (take (strlen + 1) s) (drop (strlen + 1) b) (omega arith)
            ∙ take-take strlen (strlen + 1) s (omega arith)
            ∙ g.content) in
      (s', rw (e, grow_block) refl, t, r, h)
