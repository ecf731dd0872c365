-- ===== src/Graphics/Pixel.antt =====
-- The drawing of a pixel and of a glyph, and the cells that it writes.
use loli_loader.Base.{
  ℕ, zero, suc, ◌+◌, ◌-◌, ◌*◌, ◌%◌, ◌^◌, ◌≤◌, ◌<◌, ◌≡◌, ◌⊎◌, inl, inr, refl, ◌∙◌, Bool, some, [],
  ◌∷◌, arith, Bytes, length, Bool-cases, ◌==◌,
}
use loli_loader.Memory.{
  Mem, update, Holds, IsBlock, SameOutside, store-some, Holds-outside, IsBlock-head, IsBlock-tail,
  update-IsBlock, SameOutside-update,
}
use loli_loader.Graphics.{
  FrameBuffer, store_bytes, word_bytes, colour, draw_pixel, glyph_bit, row_loop,
}

-- What a write has done that touches only the `n` cells at `a`: every block is still a block.
abbrev pub Writes : ℕ → ℕ → Mem → Mem → Type 0
Writes a n m m' = SameOutside a n m m' × ((b k : ℕ) → IsBlock m b k → IsBlock m' b k)

pub store_bytes_lem :
    (s : Bytes) (m : Mem) (a : ℕ)
    → IsBlock m a (length s)
    → (m' : Mem) × (store_bytes m a s ≡ some m') × Holds m' a s × Writes a (length s) m m'
unfolding store_bytes
store_bytes_lem [] m a b = (m, refl, tt, ((λ x h. refl), λ c k h. h))
store_bytes_lem (c ∷ s) m a b =
    let (m', r, h, (o, w)) =
      store_bytes_lem s (update m a c) (a + 1)
        (update-IsBlock m a c (a + 1) (length s) (IsBlock-tail m a (length s) b)) in
    let (o', e) = SameOutside-update a (length s) c m m' o in
    (
      m',
      rw (store-some m a c (IsBlock-head m a (length s) b)) r,
      (e, h),
      (o', λ d k g. w d k (update-IsBlock m a c d k g)),
    )

-- The address of the pixel at column `x` of row `y`.
abbrev pub pixel_at : FrameBuffer → ℕ → ℕ → ℕ
pixel_at fb x y = fb.buf + 4 * (y * 640 + x)

-- The pixel has the colour.
abbrev pub HasColour : Mem → FrameBuffer → ℕ → ℕ → Bool → Type 0
HasColour m fb x y fill = Holds m (pixel_at fb x y) (word_bytes (colour fill))

abbrev pub frame_size : ℕ
frame_size = 983040

-- The damaged region is empty, as `reset_damaged_region` leaves it, or a rectangle of the buffer.
abbrev pub IsDamage : FrameBuffer → Type 0
IsDamage fb =
    ((fb.damaged_left ≡ 640)
      × (fb.damaged_up ≡ 384)
      × (fb.damaged_right ≡ 0)
      × (fb.damaged_down ≡ 0))
    ⊎ ((fb.damaged_left ≤ fb.damaged_right)
        × (fb.damaged_right < 640)
        × (fb.damaged_up ≤ fb.damaged_down)
        × (fb.damaged_down < 384))

-- The pixel at column `x` of row `y` is in the damaged region.
abbrev pub InRegion : FrameBuffer → ℕ → ℕ → Type 0
InRegion fb x y =
    (fb.damaged_left ≤ x) × (x ≤ fb.damaged_right) × (fb.damaged_up ≤ y) × (y ≤ fb.damaged_down)

-- The frame buffer is as `gop_setup_mode` makes them, and its block is mapped.
pub record IsFrame (fb : FrameBuffer) (m : Mem) : Type 0 where
  pub wide : fb.width ≡ 640
  pub high : fb.height ≡ 384
  pub block : IsBlock m fb.buf frame_size
  pub cursor : fb.cursor_x ≤ 80
  pub damage : IsDamage fb

pub IsBlock-part : (m : Mem) (a n b k : ℕ) → IsBlock m a n → a ≤ b → b + k ≤ a + n → IsBlock m b k
IsBlock-part m a n b k h l u i g =
    let e : a + (b + i - a) ≡ b + i = omega arith in rw e at (h (b + i - a) (omega arith))

draw_pixel_eq :
    (fb : FrameBuffer) (m : Mem) (x y : ℕ) (fill : Bool)
    → fb.width ≡ 640
    → x < 640
    → y < 384
    → draw_pixel fb m x y fill ≡ store_bytes m (pixel_at fb x y) (word_bytes (colour fill))
unfolding draw_pixel
draw_pixel_eq fb m x y fill w hx hy =
    let e : (y * 640 + x) % 2 ^ 32 ≡ y * 640 + x = omega arith in rw (w, e) refl

draw_pixel_lem :
    (fb : FrameBuffer) (m : Mem) (x y : ℕ) (fill : Bool)
    → fb.width ≡ 640
    → IsBlock m fb.buf frame_size
    → x < 640
    → y < 384
    → (m' : Mem) × (draw_pixel fb m x y fill ≡ some m')
      × HasColour m' fb x y fill
      × Writes (pixel_at fb x y) 4 m m'
draw_pixel_lem fb m x y fill w b hx hy =
    let (m', r, h, k) =
      store_bytes_lem (word_bytes (colour fill)) m (pixel_at fb x y)
        (IsBlock-part m fb.buf frame_size (pixel_at fb x y) 4 b (omega arith) (omega arith)) in
    (m', draw_pixel_eq fb m x y fill w hx hy ∙ r, h, k)

-- The first `n` pixels of a glyph's row from its column `x` on are drawn as the row's bits say.
pub row_loop_lem :
    (n : ℕ) (fb : FrameBuffer) (m : Mem) (row x start_x y : ℕ)
    → fb.width ≡ 640
    → IsBlock m fb.buf frame_size
    → x + n + start_x ≤ 640
    → y < 384
    → (m' : Mem) × (row_loop n fb m row x start_x y ≡ some m')
      × ((i : ℕ) → x ≤ i → i < x + n → HasColour m' fb (i + start_x) y (glyph_bit row i))
      × Writes (pixel_at fb (x + start_x) y) (4 * n) m m'
unfolding row_loop
row_loop_lem zero fb m row x start_x y w b hx hy =
    (m, refl, (λ i l u. absurd (omega arith)), ((λ c h. refl), λ c k h. h))
row_loop_lem (suc n) fb m row x start_x y w b hx hy =
    let (m1, r1, c1, (o1, w1)) =
      draw_pixel_lem fb m (x + start_x) y (glyph_bit row x) w b (omega arith) hy in
    let (m', r, c, (o, w2)) =
      row_loop_lem n fb m1 row (x + 1) start_x y w (w1 fb.buf frame_size b) (omega arith) hy in
    (
      m',
      rw r1 r,
      (λ i l u. elim (Bool-cases (i == x)) [
        | inl same ↦
            let e : i ≡ x = ground arith in
            rw e (
              Holds-outside (pixel_at fb (x + 1 + start_x) y) (4 * n) m1 m'
                (pixel_at fb (x + start_x) y) (word_bytes (colour (glyph_bit row x))) o
                (inr (omega arith)) c1)
        | inr other ↦ c i (ground arith) (omega arith)
      ]),
      ((λ a h. o a (ground arith) ∙ o1 a (ground arith)), λ d k g. w2 d k (w1 d k g)),
    )
