-- ===== src/Graphics/Draw.antt =====
-- `draw_char` on all its branches.
use loli_loader.Base.{
  ℕ, ◌+◌, ◌-◌, ◌*◌, ◌≤◌, ◌<◌, ◌≡◌, inl, inr, refl, ◌∙◌, false, some, arith, Bool-cases, ◌==◌,
  if◌then◌else◌,
}
use loli_loader.Memory.{Mem}
use loli_loader.Graphics.{FrameBuffer, scroll_up, draw_glyph, draw_char}
use loli_loader.Graphics.Pixel.{IsFrame}
use loli_loader.Graphics.Frame.{
  Drawn, Drawn-refl, Drawn-trans, ShowsGlyph, advanced, glyph-Drawn, scroll-Drawn, advanced_cursor,
}
use loli_loader.Graphics.Bits.{ShowsFont, ShowsGlyph-ShowsFont}
use loli_loader.Graphics.Scroll.{scrolled}

-- The frame buffer with the cursor at `n`.
abbrev pub at_column : FrameBuffer → ℕ → FrameBuffer
at_column fb n = record fb { cursor_x = n }

-- The frame buffer with the cursor moved.
move-Drawn :
    (fb : FrameBuffer) (m : Mem) (n : ℕ) → IsFrame fb m → n ≤ 80 → Drawn fb m (at_column fb n) m
move-Drawn fb m n f h = record {
  frame = record { wide = f.wide; high = f.high; block = f.block; cursor = h; damage = f.damage };
  writes = ((λ x g. refl), λ d k g. g);
  same_gop = refl;
  same_buf = refl;
  grown = λ x y g hx hy. g;
  covered = λ x y k hx hy hk. inl refl;
}

draw_glyph_wrap :
    (fb : FrameBuffer) (m m1 : Mem) (c : ℕ)
    → fb.cursor_x ≡ 80
    → scroll_up (at_column fb 0) m ≡ some (scrolled (at_column fb 0), m1)
    → draw_glyph fb m c ≡ draw_glyph (scrolled (at_column fb 0)) m1 c
unfolding draw_glyph
draw_glyph_wrap fb m m1 c e s = rw (e, s) refl

-- The column where the glyph is drawn: at the end of the line it is the first of the next line.
abbrev pub column : FrameBuffer → ℕ
column fb = if fb.cursor_x == 80 then 0 else fb.cursor_x

draw_glyph_lem :
    (fb : FrameBuffer) (m : Mem) (c : ℕ)
    → IsFrame fb m
    → c < 128
    → (fb' : FrameBuffer) × (m' : Mem) × (draw_glyph fb m c ≡ some (fb', m'))
      × Drawn fb m fb' m'
      × ShowsGlyph m' fb c (8 * column fb)
      × (fb'.cursor_x ≡ (if c == 8 then column fb else column fb + 1))
draw_glyph_lem fb m c f hc = elim (Bool-cases (fb.cursor_x == 80)) [
  | inr b ↦
      let (m', e, d, g) = glyph-Drawn fb m c f hc (ground arith) in
      (advanced fb c, m', e, d, rw b g, rw b (advanced_cursor fb c))
  | inl b ↦
      let start = move-Drawn fb m 0 f (omega arith) in
      let (m1, s, d) = scroll-Drawn (at_column fb 0) m start.frame in
      let (m', e, d', g) = glyph-Drawn (scrolled (at_column fb 0)) m1 c d.frame hc (omega arith) in
      (
        advanced (scrolled (at_column fb 0)) c,
        m',
        draw_glyph_wrap fb m m1 c (ground arith) s ∙ e,
        Drawn-trans fb m (at_column fb 0) m _ m' start
            (Drawn-trans (at_column fb 0) m (scrolled (at_column fb 0)) m1 _ m' d d'),
        rw b g,
        rw b (advanced_cursor (scrolled (at_column fb 0)) c),
      )
]

-- The column of the cursor behind a character.
abbrev pub column_after : FrameBuffer → ℕ → ℕ
column_after fb c =
    if c == b'\r'
    then 0
    else if c == b'\n'
    then fb.cursor_x
    else if c == 8
    then fb.cursor_x - 1
    else column fb + 1

-- On a well-formed frame buffer `draw_char` does not fault on any ASCII character. It keeps the frame
-- buffer well-formed, writes no cell outside it, and every pixel that it changes is in the damaged
-- region then, with all that was in the region before. The cursor goes to the start of the line at a
-- carriage return, back by a column at a backspace unless it is at the start, and stays at a newline;
-- any other character moves it behind the column where the glyph is drawn.
pub draw_char-Drawn :
    (fb : FrameBuffer) (m : Mem) (c : ℕ)
    → IsFrame fb m
    → c < 128
    → (fb' : FrameBuffer) × (m' : Mem) × (draw_char fb m c ≡ some (fb', m'))
      × Drawn fb m fb' m'
      × (fb'.cursor_x ≡ column_after fb c)
unfolding draw_char
draw_char-Drawn fb m c f hc = elim (Bool-cases (c == b'\r')) [
  | inl r ↦ (at_column fb 0, m, rw r refl, move-Drawn fb m 0 f (omega arith), rw r refl)
  | inr r ↦ elim (Bool-cases (c == b'\n')) [
    | inl n ↦
        let (m', e, d) = scroll-Drawn fb m f in (scrolled fb, m', rw (r, n) e, d, rw (r, n) refl)
    | inr n ↦ elim (Bool-cases (c == 8)) [
      | inl b ↦ elim (Bool-cases (fb.cursor_x == 0)) [
        | inl z ↦ (fb, m, rw (r, n, b, z) refl, Drawn-refl fb m f, rw (r, n, b) (ground arith))
        | inr z ↦
            let back = move-Drawn fb m (fb.cursor_x - 1) f (ground arith) in
            let (fb', m', e, d, g, k) =
              draw_glyph_lem (at_column fb (fb.cursor_x - 1)) m c back.frame hc in
            (
              fb',
              m',
              rw (r, n, b, z) e,
              Drawn-trans fb m (at_column fb (fb.cursor_x - 1)) m fb' m' back d,
              rw (r, n, b) (rw b at k ∙ ground arith),
            )
      ]
      | inr b ↦
          let (fb', m', e, d, g, k) = draw_glyph_lem fb m c f hc in
          (fb', m', rw (r, n, b) e, d, rw (r, n, b) (rw b at k))
    ]
  ]
]

-- A character that is none of `\r`, `\n` and `\b` appears: on a well-formed frame buffer each of the
-- 128 pixels of its cell is white, 255, 255, 255, 0 in memory, or black, all 0, and each row of the
-- cell, read as a binary number with its leftmost pixel as the highest digit, is the byte that the font
-- has for this row. The cell is the cursor's in the last line of text, and the first of that line where
-- the cursor is at the end of the line.
pub draw_char-ShowsFont :
    (fb : FrameBuffer) (m : Mem) (c : ℕ)
    → IsFrame fb m
    → c < 128
    → (c == b'\r') ≡ false
    → (c == b'\n') ≡ false
    → (c == 8) ≡ false
    → (fb' : FrameBuffer) × (m' : Mem) × (draw_char fb m c ≡ some (fb', m'))
      × ShowsFont m' fb c (8 * column fb)
unfolding draw_char
draw_char-ShowsFont fb m c f hc r n b =
    let (fb', m', e, d, g, k) = draw_glyph_lem fb m c f hc in
    (fb', m', rw (r, n, b) e, ShowsGlyph-ShowsFont m' fb c (8 * column fb) hc g)
