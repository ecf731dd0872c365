-- ===== src/Graphics/Glyph.antt =====
-- The drawing of a glyph: its pixels show the font's bits, and no other pixel is touched.
use loli_loader.Base.{
  ℕ, zero, suc, ◌+◌, ◌*◌, ◌≤◌, ◌<◌, ◌≡◌, ◌⊎◌, inl, inr, refl, ◌∙◌, some, arith, get_or, get_elem?,
  Bool-cases, ◌==◌,
}
use loli_loader.Memory.{Mem, IsBlock}
use loli_loader.Memory.Cells.{Holds-kept}
use loli_loader.Memory.Image.{get_elem?-some}
use loli_loader.Graphics.{FrameBuffer, word_bytes, colour, glyph_bit, glyph_bytes, column_loop}
use loli_loader.Graphics.Font.{g_font}
use loli_loader.Graphics.Pixel.{pixel_at, HasColour, frame_size, row_loop_lem}

-- The bits of row `j` of the glyph of `c`.
abbrev pub glyph_row : ℕ → ℕ → ℕ
glyph_row c j = get_or g_font (glyph_bytes * c + j) 0

pub glyph_row-some :
    (c j : ℕ) → c < 128 → j < 16 → get_elem? g_font (glyph_bytes * c + j) ≡ some (glyph_row c j)
glyph_row-some c j hc hj = get_elem?-some g_font (glyph_bytes * c + j) (omega arith)

-- The cell is none of the 8 pixels of the row `y` that begin at the column `x`.
abbrev pub OffRow : FrameBuffer → ℕ → ℕ → ℕ → Type 0
OffRow fb x y a = (a < pixel_at fb x y) ⊎ (pixel_at fb x y + 32 ≤ a)

pub column_loop_lem :
    (n : ℕ) (fb : FrameBuffer) (m : Mem) (c y start_x start_y : ℕ)
    → fb.width ≡ 640
    → IsBlock m fb.buf frame_size
    → c < 128
    → y + n ≤ 16
    → start_x + 8 ≤ 640
    → start_y + 16 ≤ 384
    → (m' : Mem) × (column_loop n fb m c y start_x start_y ≡ some m')
      × ((i j : ℕ)
          → i < 8
          → y ≤ j
          → j < y + n
          → HasColour m' fb (i + start_x) (j + start_y) (glyph_bit (glyph_row c j) i))
      × ((a : ℕ) → ((j : ℕ) → y ≤ j → j < y + n → OffRow fb start_x (j + start_y) a) → m' a ≡ m a)
      × ((d k : ℕ) → IsBlock m d k → IsBlock m' d k)
unfolding column_loop
column_loop_lem zero fb m c y start_x start_y w b hc hy hx hs =
    (m, refl, (λ i j l u v. absurd (omega arith)), (λ a h. refl), λ d k h. h)
column_loop_lem (suc n) fb m c y start_x start_y w b hc hy hx hs =
    let (m1, r1, c1, (o1, w1)) =
      row_loop_lem 8 fb m (glyph_row c y) 0 start_x (y + start_y) w b (omega arith) (omega arith) in
    let (m', r, h, o, w2) =
      column_loop_lem n fb m1 c (y + 1) start_x start_y w (w1 fb.buf frame_size b) hc (omega arith)
        hx hs in
    (
      m',
      rw (glyph_row-some c y hc (omega arith), r1) r,
      (λ i j l u v. elim (Bool-cases (j == y)) [
        | inl same ↦
            let e : j ≡ y = ground arith in
            rw e (
              Holds-kept m1 m' (pixel_at fb (i + start_x) (y + start_y))
                (word_bytes (colour (glyph_bit (glyph_row c y) i)))
                (λ a p q. o a λ k s t. inl (omega arith)) (c1 i (omega arith) l))
        | inr other ↦ h i j l (ground arith) (omega arith)
      ]),
      (λ a off.
          o a (λ j p q. off j (omega arith) (omega arith))
          ∙ o1 a (elim (off y (omega arith) (omega arith)) [
            | inl p ↦ inl (omega arith)
            | inr p ↦ inr (omega arith)
          ])),
      (λ d k g. w2 d k (w1 d k g)),
    )
