-- ===== src/Graphics/Scroll.antt =====
-- `scroll_up`: the rows of the buffer move up by one line of text.
use loli_loader.Base.{ℕ, ◌+◌, ◌-◌, ◌*◌, ◌≤◌, ◌<◌, ◌≡◌, inl, refl, ◌∙◌, some, arith}
use loli_loader.Memory.{Mem, IsBlock, SameOutside}
use loli_loader.CString.{memmove, memset}
use loli_loader.CString.Block.{CopiedCells-IsBlock, filled-IsBlock, memmove_lem, memset_lem}
use loli_loader.Graphics.{FrameBuffer, scroll_up, console_line_bytes}
use loli_loader.Graphics.Pixel.{frame_size, IsFrame, Writes, IsBlock-part, pixel_at}

abbrev line_size : ℕ
line_size = 40960

-- The cells of all lines but one.
abbrev moved_size : ℕ
moved_size = 942080

-- The frame buffer behind a scroll: all of it is damaged.
abbrev pub scrolled : FrameBuffer → FrameBuffer
scrolled fb = record fb {
  damaged_left = 0;
  damaged_up = 0;
  damaged_right = 639;
  damaged_down = 383;
}

-- What a scroll has done to the cells of the frame buffer.
abbrev pub ScrolledCells : FrameBuffer → Mem → Mem → Type 0
ScrolledCells fb m m' =
    ((i : ℕ) → i < moved_size → m' (fb.buf + i) ≡ m (fb.buf + line_size + i))
    × ((i : ℕ) → moved_size ≤ i → i < frame_size → m' (fb.buf + i) ≡ some 0)
    × Writes fb.buf frame_size m m'

scroll_up_eq :
    (fb : FrameBuffer) (m m1 m2 : Mem)
    → fb.width ≡ 640
    → fb.height ≡ 384
    → memmove m fb.buf (fb.buf + line_size) moved_size ≡ some m1
    → memset m1 (fb.buf + moved_size) 0 line_size ≡ some m2
    → scroll_up fb m ≡ some (scrolled fb, m2)
unfolding scroll_up console_line_bytes
scroll_up_eq fb m m1 m2 w h e1 e2 = rw (w, h, e1, e2) refl

pub scroll_up_cells :
    (fb : FrameBuffer) (m : Mem)
    → fb.width ≡ 640
    → fb.height ≡ 384
    → IsBlock m fb.buf frame_size
    → (m' : Mem) × (scroll_up fb m ≡ some (scrolled fb, m')) × ScrolledCells fb m m'
scroll_up_cells fb m w h b =
    let src =
      IsBlock-part m fb.buf frame_size (fb.buf + line_size) moved_size b (omega arith)
        (omega arith) in
    let (m1, e1, (c1, o1)) =
      memmove_lem moved_size m fb.buf (fb.buf + line_size) (inl (omega arith))
        (IsBlock-part m fb.buf frame_size fb.buf moved_size b (omega arith) (omega arith)) src in
    let keep1 = CopiedCells-IsBlock m fb.buf (fb.buf + line_size) moved_size m1 src (c1, o1) in
    let (m2, e2, c2, o2) = memset_lem line_size m1 (fb.buf + moved_size) 0 (
      IsBlock-part m1 fb.buf frame_size (fb.buf + moved_size) line_size (keep1 fb.buf frame_size b)
        (omega arith) (omega arith)) in
    (
      m2,
      scroll_up_eq fb m m1 m2 w h e1 e2,
      (
        (λ i l. o2 (fb.buf + i) (inl (omega arith)) ∙ c1 i l),
        (λ i l u.
            let e : fb.buf + moved_size + (i - moved_size) ≡ fb.buf + i = omega arith in
            rw e at (c2 (i - moved_size) (omega arith))),
        (
          (λ x g. o2 x (ground arith) ∙ o1 x (ground arith)),
          λ d k g. filled-IsBlock m1 (fb.buf + moved_size) line_size 0 m2 c2 o2 d k (keep1 d k g),
        ),
      ),
    )

-- On a frame buffer of 640 by 384 pixels, `scroll_up` does not fault. Every pixel is then as the
-- pixel 16 rows below was, the last 16 rows are black, no cell outside the buffer has changed, and
-- the damaged region is the whole buffer.
pub scroll_up_lem :
    (fb : FrameBuffer) (m : Mem)
    → IsFrame fb m
    → (m' : Mem) × (scroll_up fb m ≡ some (scrolled fb, m'))
      × ((x y k : ℕ)
          → x < 640
          → y < 368
          → k < 4
          → m' (pixel_at fb x y + k) ≡ m (pixel_at fb x (y + 16) + k))
      × ((x y k : ℕ) → x < 640 → 368 ≤ y → y < 384 → k < 4 → m' (pixel_at fb x y + k) ≡ some 0)
      × SameOutside fb.buf frame_size m m'
scroll_up_lem fb m f =
    let (m', e, (up, last, (o, w))) = scroll_up_cells fb m f.wide f.high f.block in
    (
      m',
      e,
      (λ x y k hx hy hk.
          let a : fb.buf + (4 * (y * 640 + x) + k) ≡ pixel_at fb x y + k = omega arith in
          let b : fb.buf + line_size + (4 * (y * 640 + x) + k) ≡ pixel_at fb x (y + 16) + k =
            omega arith in
          rw (a, b) at (up (4 * (y * 640 + x) + k) (omega arith))),
      (λ x y k hx ly hy hk.
          let a : fb.buf + (4 * (y * 640 + x) + k) ≡ pixel_at fb x y + k = omega arith in
          rw a at (last (4 * (y * 640 + x) + k) (omega arith) (omega arith))),
      o,
    )
