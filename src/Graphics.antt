-- ===== src/Graphics.antt =====
-- src/graphics.c: the text console on frame buffers. A frame buffer is a block of 32-bit pixels in
-- byte memory; its drawing operations give the frame buffer and the memory after them, and a pointer
-- into it is a number. The damaged region and the cursor are 32-bit patterns.
pub mod Font
pub mod Pixel
pub mod Glyph
pub mod Scroll
pub mod Frame
pub mod Bits
pub mod Draw
pub mod Write
pub mod Init
pub mod Setup
pub mod Modes
pub mod Available
mod Tests
use loli_loader.Base.{
  ℕ, zero, suc, ◌+◌, ◌-◌, ◌*◌, ◌/◌, ◌%◌, ◌^◌, Bool, true, false, ◌&&◌, ◌||◌, not, Option, none,
  some, List, [], ◌∷◌, ◌++◌, arith, ◌==◌, ltb, leb, if◌then◌else◌, get_elem?, Bytes,
}
use loli_loader.Memory.{Mem, load, store, ◌>>=◌}
use loli_loader.CString.{memmove, memset}
use loli_loader.Graphics.Font.{g_font}

pub record FrameBuffer : Type 0 where
  pub gop : ℕ
  pub height : ℕ
  pub width : ℕ
  pub buf : ℕ
  pub damaged_left : ℕ
  pub damaged_up : ℕ
  pub damaged_right : ℕ
  pub damaged_down : ℕ
  pub cursor_x : ℕ

abbrev pub glyph_width : ℕ
glyph_width = 8

abbrev pub glyph_height : ℕ
glyph_height = 16

abbrev pub glyph_bytes : ℕ
glyph_bytes = 16

abbrev pub console_width : ℕ
console_width = 80

abbrev pub console_height : ℕ
console_height = 24

abbrev pub min_horizontal_resolution : ℕ
min_horizontal_resolution = 640

abbrev pub min_vertical_resolution : ℕ
min_vertical_resolution = 384

-- The difference of two `uint32_t`.
abbrev pub sub32 : ℕ → ℕ → ℕ
sub32 a b = (a + (2 ^ 32 - b)) % 2 ^ 32

-- The product is a `uint32_t`.
unfoldable pub console_line_bytes : FrameBuffer → ℕ
console_line_bytes fb = glyph_height * fb.width * 4 % 2 ^ 32

unfoldable pub scroll_up : FrameBuffer → Mem → Option (FrameBuffer × Mem)
unfolding console_line_bytes
scroll_up fb m = do
  let line = console_line_bytes fb
  let move_size = line * (console_height - 1)
  m' ← memmove m fb.buf (fb.buf + line) move_size
  m'' ← memset m' (fb.buf + move_size) 0 line
  some (
    record fb {
      damaged_left = 0;
      damaged_up = 0;
      damaged_right = sub32 fb.width 1;
      damaged_down = sub32 fb.height 1;
    },
    m'',
  )

-- The bytes of a 32-bit word in memory, the lowest first.
abbrev pub word_bytes : ℕ → Bytes
word_bytes v = v % 256 ∷ v / 2 ^ 8 % 256 ∷ v / 2 ^ 16 % 256 ∷ v / 2 ^ 24 % 256 ∷ []

unfoldable pub store_bytes : Mem → ℕ → Bytes → Option Mem
unfolding store
store_bytes m a [] = some m
store_bytes m a (c ∷ s) = do m' ← store m a c; store_bytes m' (a + 1) s

abbrev pub colour : Bool → ℕ
colour fill = if fill then 0x00ffffff else 0

unfoldable pub draw_pixel : FrameBuffer → Mem → ℕ → ℕ → Bool → Option Mem
draw_pixel fb m x y fill =
    let offset = (y * fb.width + x) % 2 ^ 32 in
    store_bytes m (fb.buf + 4 * offset) (word_bytes (colour fill))

unfoldable pub update_damaged_region : FrameBuffer → ℕ → ℕ → ℕ → ℕ → FrameBuffer
update_damaged_region fb x y width height =
    let end_x = sub32 (x + width) 1 in
    let end_y = sub32 (y + height) 1 in
    record fb {
      damaged_left = if ltb x fb.damaged_left then x else fb.damaged_left;
      damaged_up = if ltb y fb.damaged_up then y else fb.damaged_up;
      damaged_right = if ltb fb.damaged_right end_x then end_x else fb.damaged_right;
      damaged_down = if ltb fb.damaged_down end_y then end_y else fb.damaged_down;
    }

-- `glyph[y] & (1 << (7 - x))`
abbrev pub glyph_bit : ℕ → ℕ → Bool
glyph_bit row x = row / 2 ^ (7 - x) % 2 == 1

-- `for (uint32_t x = …; x < GLYPH_WIDTH; x++)`, of which `n` rounds are left.
unfoldable pub row_loop : ℕ → FrameBuffer → Mem → ℕ → ℕ → ℕ → ℕ → Option Mem
row_loop zero fb m row x start_x at_y = some m
row_loop (suc n) fb m row x start_x at_y = do
  m' ← draw_pixel fb m (x + start_x) at_y (glyph_bit row x)
  row_loop n fb m' row (x + 1) start_x at_y

-- `for (uint32_t y = …; y < GLYPH_HEIGHT; y++)`, of which `n` rounds are left.
unfoldable pub column_loop : ℕ → FrameBuffer → Mem → ℕ → ℕ → ℕ → ℕ → Option Mem
column_loop zero fb m c y start_x start_y = some m
column_loop (suc n) fb m c y start_x start_y = do
  row ← get_elem? g_font (glyph_bytes * c + y)
  m' ← row_loop glyph_width fb m row 0 start_x (y + start_y)
  column_loop n fb m' c (y + 1) start_x start_y

-- `draw_char` from `if (fb->cursorX == CONSOLE_WIDTH)` on.
unfoldable pub draw_glyph : FrameBuffer → Mem → ℕ → Option (FrameBuffer × Mem)
draw_glyph fb m c = do
  (fb', m') ←
      (if fb.cursor_x == console_width
        then scroll_up (record fb { cursor_x = 0 }) m
        else some (fb, m))
  let start_y = glyph_height * (console_height - 1)
  let start_x = glyph_width * fb'.cursor_x
  m'' ← column_loop glyph_height fb' m' c 0 start_x start_y
  let fb'' = update_damaged_region fb' start_x start_y glyph_width glyph_height
  some (if c == 8 then fb'' else record fb'' { cursor_x = fb''.cursor_x + 1 }, m'')

unfoldable pub draw_char : FrameBuffer → Mem → ℕ → Option (FrameBuffer × Mem)
draw_char fb m c =
    if c == b'\r'
    then some (record fb { cursor_x = 0 }, m)
    else if c == b'\n'
    then scroll_up fb m
    else if c == 8
    then (if fb.cursor_x == 0
        then some (fb, m)
        else draw_glyph (record fb { cursor_x = fb.cursor_x - 1 }) m c)
    else draw_glyph fb m c

unfoldable pub reset_damaged_region : FrameBuffer → FrameBuffer
reset_damaged_region fb = record fb {
  damaged_left = fb.width;
  damaged_up = fb.height;
  damaged_right = 0;
  damaged_down = 0;
}

-- A call of `blt` with `EFI_BLT_BUFFER_TO_VIDEO`: the rectangle, the same in the buffer and on the
-- screen, and the bytes of a row of the buffer.
pub record Blit : Type 0 where
  pub on : ℕ
  pub from : ℕ
  pub left : ℕ
  pub up : ℕ
  pub across : ℕ
  pub along : ℕ
  pub delta : ℕ

-- The call of the firmware, if one is made, and the frame buffer after it.
unfoldable pub blit_buffer : FrameBuffer → Option Blit × FrameBuffer
unfolding reset_damaged_region
blit_buffer fb = if leb fb.width fb.damaged_left then (none, fb) else (
  some (record {
    on = fb.gop;
    from = fb.buf;
    left = fb.damaged_left;
    up = fb.damaged_up;
    across = (sub32 fb.damaged_right fb.damaged_left + 1) % 2 ^ 32;
    along = (sub32 fb.damaged_down fb.damaged_up + 1) % 2 ^ 32;
    delta = 4 * fb.width % 2 ^ 32;
  }),
  reset_damaged_region fb,
)

-- `*buf >= 0 && *buf <= 127 ? *buf : ' '`, whether `char` is signed or not.
abbrev pub drawn_char : ℕ → ℕ
drawn_char c = if leb c 127 then c else b' '

-- `for (int i = 0; i < gFBNum; i++) draw_char(&gFBs[i], …)`
unfoldable pub draw_all : List FrameBuffer → Mem → ℕ → Option (List FrameBuffer × Mem)
draw_all [] m c = some ([], m)
draw_all (fb ∷ fbs) m c = do
  (fb', m') ← draw_char fb m c
  (fbs', m'') ← draw_all fbs m' c
  some (fb' ∷ fbs', m'')

-- `while (*buf) { … }` over the bytes of the string.
unfoldable pub write_loop : Bytes → List FrameBuffer → Mem → Option (List FrameBuffer × Mem)
write_loop [] fbs m = some (fbs, m)
write_loop (c ∷ s) fbs m = do (fbs', m') ← draw_all fbs m (drawn_char c); write_loop s fbs' m'

unfoldable pub blit_all : List FrameBuffer → List Blit × List FrameBuffer
unfolding blit_buffer
blit_all [] = ([], [])
blit_all (fb ∷ fbs) =
    let (b, fb') = blit_buffer fb in
    let (bs, fbs') = blit_all fbs in (elim b [ none ↦ bs | some c ↦ c ∷ bs ], fb' ∷ fbs')

-- The calls of `blt` in their order, the frame buffers and the memory; the flag is
-- `gGraphicsAvailable`.
unfoldable pub graphics_write :
    Bool → List FrameBuffer → Mem → Bytes → Option (List Blit × List FrameBuffer × Mem)
graphics_write available fbs m s =
    if available
    then (do (fbs', m') ← write_loop s fbs m; let (bs, fbs'') = blit_all fbs'; some (bs, fbs'', m'))
    else some ([], fbs, m)
