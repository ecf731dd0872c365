-- ===== src/Graphics/Frame.antt =====
-- `draw_char` on a well-formed frame buffer: it does not fault, it keeps the frame buffer
-- well-formed, and the damaged region covers what it draws.
use loli_loader.Base.{
  ℕ, ◌+◌, ◌*◌, ◌≤◌, ◌<◌, ◌≡◌, ◌⊎◌, inl, inr, refl, ◌∙◌, false, some, arith, Bool-cases, ltb, leb,
  ◌==◌, ◌&&◌, if◌then◌else◌,
}
use loli_loader.Memory.{Mem, IsBlock}
use loli_loader.Graphics.{FrameBuffer, scroll_up, update_damaged_region, draw_glyph, glyph_bit}
use loli_loader.Graphics.Pixel.{
  frame_size, IsFrame, IsDamage, InRegion, HasColour, Writes, pixel_at,
}
use loli_loader.Graphics.Glyph.{glyph_row, OffRow, column_loop_lem}
use loli_loader.Graphics.Scroll.{scrolled, scroll_up_cells}

-- What an operation on the frame buffer has done: it is well-formed, no cell outside its block has
-- changed, the damaged region has grown, and it covers each pixel that has changed.
pub record Drawn (fb : FrameBuffer) (m : Mem) (fb' : FrameBuffer) (m' : Mem) : Type 0 where
  pub frame : IsFrame fb' m'
  pub writes : Writes fb.buf frame_size m m'
  pub same_gop : fb'.gop ≡ fb.gop
  pub same_buf : fb'.buf ≡ fb.buf
  pub grown : (x y : ℕ) → InRegion fb x y → x < 640 → y < 384 → InRegion fb' x y
  pub covered :
      (x y k : ℕ)
      → x < 640
      → y < 384
      → k < 4
      → (m' (pixel_at fb x y + k) ≡ m (pixel_at fb x y + k)) ⊎ InRegion fb' x y

pub Drawn-refl : (fb : FrameBuffer) (m : Mem) → IsFrame fb m → Drawn fb m fb m
Drawn-refl fb m f = record {
  frame = f;
  writes = ((λ x h. refl), λ d k h. h);
  same_gop = refl;
  same_buf = refl;
  grown = λ x y h hx hy. h;
  covered = λ x y k hx hy hk. inl refl;
}

pub Drawn-trans :
    (fb0 : FrameBuffer) (m0 : Mem) (fb1 : FrameBuffer) (m1 : Mem) (fb2 : FrameBuffer) (m2 : Mem)
    → Drawn fb0 m0 fb1 m1
    → Drawn fb1 m1 fb2 m2
    → Drawn fb0 m0 fb2 m2
Drawn-trans fb0 m0 fb1 m1 fb2 m2 d e = record {
  frame = e.frame;
  writes = (
    (λ x h. e.writes.0 x (rw (d.same_buf) h) ∙ d.writes.0 x h),
    λ b k h. e.writes.1 b k (d.writes.1 b k h),
  );
  same_gop = e.same_gop ∙ d.same_gop;
  same_buf = e.same_buf ∙ d.same_buf;
  grown = λ x y h hx hy. e.grown x y (d.grown x y h hx hy) hx hy;
  covered = λ x y k hx hy hk. elim (d.covered x y k hx hy hk) [
    | inr h ↦ inr (e.grown x y h hx hy)
    | inl h ↦ elim (e.covered x y k hx hy hk) [
      | inr g ↦ inr g
      | inl g ↦ inl (rw (d.same_buf) at g ∙ h)
    ]
  ];
}

pub scroll-Drawn :
    (fb : FrameBuffer) (m : Mem)
    → IsFrame fb m
    → (m' : Mem) × (scroll_up fb m ≡ some (scrolled fb, m')) × Drawn fb m (scrolled fb) m'
scroll-Drawn fb m f =
    let (m', e, (up, last, (o, w))) = scroll_up_cells fb m f.wide f.high f.block in
    (
      m',
      e,
      record {
        frame = record {
          wide = f.wide;
          high = f.high;
          block = w fb.buf frame_size f.block;
          cursor = f.cursor;
          damage = inr (ground arith);
        };
        writes = (o, w);
        same_gop = refl;
        same_buf = refl;
        grown = λ x y h hx hy. ground arith;
        covered = λ x y k hx hy hk. inr (ground arith);
      },
    )

-- The region behind the drawing of a glyph at the cursor.
grow_region :
    (fb : FrameBuffer)
    → IsDamage fb
    → fb.cursor_x < 80
    → let g = update_damaged_region fb (8 * fb.cursor_x) 368 8 16 in
      IsDamage g
      × ((x y : ℕ) → InRegion fb x y → x < 640 → y < 384 → InRegion g x y)
      × ((x y : ℕ)
          → 8 * fb.cursor_x ≤ x
          → x < 8 * fb.cursor_x + 8
          → 368 ≤ y
          → y < 384
          → InRegion g x y)
unfolding update_damaged_region
grow_region fb (inl d) c =
    (inr (ground arith), (λ x y h hx hy. ground arith), λ x y h i j k. ground arith)
grow_region fb (inr d) c =
    (inr (ground arith), (λ x y h hx hy. ground arith), λ x y h i j k. ground arith)

-- The frame buffer behind the drawing of the glyph of `c` at the cursor.
abbrev pub advanced : FrameBuffer → ℕ → FrameBuffer
advanced fb c =
    let fb'' = update_damaged_region fb (8 * fb.cursor_x) 368 8 16 in
    if c == 8 then fb'' else record fb'' { cursor_x = fb''.cursor_x + 1 }

-- The pixels of the glyph of `c` at the column `start_x` of the last line show the font's bits.
abbrev pub ShowsGlyph : Mem → FrameBuffer → ℕ → ℕ → Type 0
ShowsGlyph m fb c start_x =
    (i j : ℕ)
    → i < 8
    → j < 16
    → HasColour m fb (i + start_x) (j + 368) (glyph_bit (glyph_row c j) i)

cursor-Drawn :
    (fb : FrameBuffer) (m m' : Mem) (n : ℕ)
    → IsFrame fb m
    → fb.cursor_x < 80
    → ((a : ℕ) → ((j : ℕ) → j < 16 → OffRow fb (8 * fb.cursor_x) (j + 368) a) → m' a ≡ m a)
    → ((d k : ℕ) → IsBlock m d k → IsBlock m' d k)
    → n ≤ 80
    → Drawn fb m (record (update_damaged_region fb (8 * fb.cursor_x) 368 8 16) { cursor_x = n }) m'
unfolding update_damaged_region
cursor-Drawn fb m m' n f hc o w hn =
    let (damage, more, new) = grow_region fb f.damage hc in
    record {
      frame = record {
        wide = f.wide;
        high = f.high;
        block = w fb.buf frame_size f.block;
        cursor = hn;
        damage = damage;
      };
      writes = ((λ a h. o a (λ j u. ground arith)), w);
      same_gop = refl;
      same_buf = refl;
      grown = more;
      covered = λ x y k hx hy hk.
          elim (Bool-cases (leb (8 * fb.cursor_x) x && ltb x (8 * fb.cursor_x + 8) && leb 368 y)) [
            | inl b ↦ inr (new x y (ground arith) (ground arith) (ground arith) hy)
            | inr b ↦ inl (o (pixel_at fb x y + k) λ j u. ground arith)
          ];
    }

advanced-Drawn :
    (fb : FrameBuffer) (m m' : Mem) (c : ℕ)
    → IsFrame fb m
    → fb.cursor_x < 80
    → ((a : ℕ) → ((j : ℕ) → j < 16 → OffRow fb (8 * fb.cursor_x) (j + 368) a) → m' a ≡ m a)
    → ((d k : ℕ) → IsBlock m d k → IsBlock m' d k)
    → Drawn fb m (advanced fb c) m'
unfolding update_damaged_region
advanced-Drawn fb m m' c f hc o w = elim (Bool-cases (c == 8)) [
  | inl e ↦ rw e (cursor-Drawn fb m m' fb.cursor_x f hc o w (omega arith))
  | inr e ↦ rw e (cursor-Drawn fb m m' (fb.cursor_x + 1) f hc o w (omega arith))
]

-- Where the cursor is in the line.
pub glyph-Drawn :
    (fb : FrameBuffer) (m : Mem) (c : ℕ)
    → IsFrame fb m
    → c < 128
    → fb.cursor_x < 80
    → (m' : Mem) × (draw_glyph fb m c ≡ some (advanced fb c, m'))
      × Drawn fb m (advanced fb c) m'
      × ShowsGlyph m' fb c (8 * fb.cursor_x)
unfolding draw_glyph
glyph-Drawn fb m c f hc hx =
    let (m', e, h, o, w) =
      column_loop_lem 16 fb m c 0 (8 * fb.cursor_x) 368 f.wide f.block hc (omega arith)
        (omega arith) (omega arith) in
    let off : (fb.cursor_x == 80) ≡ false = ground arith in
    (
      m',
      rw (off, e) refl,
      advanced-Drawn fb m m' c f hx (λ a g. o a λ j l u. g j (omega arith)) w,
      λ i j l u. h i j l (omega arith) (omega arith),
    )

pub advanced_cursor :
    (fb : FrameBuffer) (c : ℕ)
    → (advanced fb c).cursor_x ≡ (if c == 8 then fb.cursor_x else fb.cursor_x + 1)
unfolding update_damaged_region
advanced_cursor fb c = elim (Bool-cases (c == 8)) [ inl e ↦ rw e refl | inr e ↦ rw e refl ]
