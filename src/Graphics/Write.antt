-- ===== src/Graphics/Write.antt =====
-- `graphics_write`: the characters of a string are drawn, and what they damaged is shown.
use loli_loader.Base.{
  ℕ, ◌+◌, ◌-◌, ◌*◌, ◌%◌, ◌^◌, ◌≤◌, ◌<◌, ◌≡◌, ◌⊎◌, inl, inr, refl, sym, ◌∙◌, ap, true, false, none,
  some, List, [], ◌∷◌, arith, Bool-cases, leb, ◌&&◌, Bytes, Option,
}
use loli_loader.Memory.{Mem, SameOutside}
use loli_loader.Graphics.{
  FrameBuffer, Blit, sub32, draw_char, draw_all, drawn_char, write_loop, blit_buffer, blit_all,
  graphics_write, reset_damaged_region,
}
use loli_loader.Graphics.Pixel.{IsFrame, InRegion, frame_size, pixel_at}
use loli_loader.Graphics.Frame.{Drawn, Drawn-refl, Drawn-trans}
use loli_loader.Graphics.Draw.{draw_char-Drawn}

-- The pixel is in the rectangle of the call.
abbrev pub InRectangle : Blit → ℕ → ℕ → Type 0
InRectangle b x y = (b.left ≤ x) × (x < b.left + b.across) × (b.up ≤ y) × (y < b.up + b.along)

abbrev pub OffRectangle : Blit → ℕ → ℕ → Type 0
OffRectangle b x y = (x < b.left) ⊎ ((b.left + b.across ≤ x) ⊎ ((y < b.up) ⊎ (b.up + b.along ≤ y)))

-- The screen: the four bytes of the pixel in a column of a row.
abbrev pub Screen : Type 0
Screen = ℕ → ℕ → ℕ → Option ℕ

-- The documented behaviour of `blt` with `EFI_BLT_BUFFER_TO_VIDEO`: in the rectangle the screen is
-- as the buffer, whose rows have `delta` bytes, and elsewhere as before.
abbrev pub IsBlt : (Blit → Mem → Screen → Screen) → Type 0
IsBlt blt =
    (b : Blit) (m : Mem) (v : Screen) (x y k : ℕ)
    → k < 4
    → (InRectangle b x y → blt b m v x y k ≡ m (b.from + b.delta * y + 4 * x + k))
      × (OffRectangle b x y → blt b m v x y k ≡ v x y k)

-- The screen shows the buffer, but for the damaged region.
abbrev pub Shown : Screen → FrameBuffer → Mem → Type 0
Shown v fb m =
    (x y k : ℕ) → x < 640 → y < 384 → k < 4 → (v x y k ≡ m (pixel_at fb x y + k)) ⊎ InRegion fb x y

-- The screen shows all of the buffer.
abbrev pub ShownAll : Screen → FrameBuffer → Mem → Type 0
ShownAll v fb m = (x y k : ℕ) → x < 640 → y < 384 → k < 4 → v x y k ≡ m (pixel_at fb x y + k)

-- The calls of the firmware, in their order.
abbrev pub perform : (Blit → Mem → Screen → Screen) → List Blit → Mem → Screen → Screen
perform blt [] m v = v
perform blt (b ∷ bs) m v = perform blt bs m (blt b m v)

-- The call that `blit_buffer` makes where something is damaged.
abbrev blit_of : FrameBuffer → Blit
blit_of fb = record {
  on = fb.gop;
  from = fb.buf;
  left = fb.damaged_left;
  up = fb.damaged_up;
  across = (sub32 fb.damaged_right fb.damaged_left + 1) % 2 ^ 32;
  along = (sub32 fb.damaged_down fb.damaged_up + 1) % 2 ^ 32;
  delta = 4 * fb.width % 2 ^ 32;
}

blit_buffer_clean :
    (fb : FrameBuffer) → fb.width ≡ 640 → fb.damaged_left ≡ 640 → blit_buffer fb ≡ (none, fb)
unfolding blit_buffer
blit_buffer_clean fb w d = rw (w, d) refl

blit_buffer_dirty :
    (fb : FrameBuffer)
    → fb.width ≡ 640
    → fb.damaged_left < 640
    → blit_buffer fb ≡ (some (blit_of fb), reset_damaged_region fb)
unfolding blit_buffer
blit_buffer_dirty fb w d = let e : leb fb.width fb.damaged_left ≡ false = ground arith in rw e refl

reset-IsFrame : (fb : FrameBuffer) (m : Mem) → IsFrame fb m → IsFrame (reset_damaged_region fb) m
unfolding reset_damaged_region
reset-IsFrame fb m f = record {
  wide = f.wide;
  high = f.high;
  block = f.block;
  cursor = f.cursor;
  damage = inl (f.wide, f.high, refl, refl);
}

-- The rectangle of a region of the screen does not wrap.
span : (a b : ℕ) → a ≤ b → b < 2 ^ 31 → (sub32 b a + 1) % 2 ^ 32 ≡ b - a + 1
span a b h l = omega arith

-- What a call shows of a damaged frame buffer.
blit-Shown :
    (blt : Blit → Mem → Screen → Screen) (fb : FrameBuffer) (m : Mem) (v : Screen)
    → IsBlt blt
    → fb.width ≡ 640
    → fb.damaged_left ≤ fb.damaged_right
    → fb.damaged_right < 640
    → fb.damaged_up ≤ fb.damaged_down
    → fb.damaged_down < 384
    → Shown v fb m
    → ShownAll (blt (blit_of fb) m v) fb m
blit-Shown blt fb m v h w a b c d s x y k hx hy hk =
    let p = span fb.damaged_left fb.damaged_right a (omega arith) in
    let q = span fb.damaged_up fb.damaged_down c (omega arith) in
    elim (Bool-cases (
      leb fb.damaged_left x
      && leb x fb.damaged_right
      && leb fb.damaged_up y
      && leb y fb.damaged_down)) [
        | inl i ↦
            let e : fb.buf + 4 * fb.width % 2 ^ 32 * y + 4 * x + k ≡ pixel_at fb x y + k =
              rw w (omega arith) in
            (h (blit_of fb) m v x y k hk).0 (ground arith) ∙ ap m e
        | inr o ↦
            (h (blit_of fb) m v x y k hk).1 (ground arith)
            ∙ elim (s x y k hx hy hk) [ inl e ↦ e | inr i ↦ absurd (ground arith) ]
      ]

-- The calls of one frame buffer.
blit_all-Shown :
    (blt : Blit → Mem → Screen → Screen) (fb : FrameBuffer) (m : Mem) (v : Screen)
    → IsBlt blt
    → IsFrame fb m
    → Shown v fb m
    → (bs : List Blit) × (fb' : FrameBuffer) × (blit_all (fb ∷ []) ≡ (bs, fb' ∷ []))
      × IsFrame fb' m
      × ShownAll (perform blt bs m v) fb m
      × (fb'.damaged_left ≡ 640)
      × (fb'.buf ≡ fb.buf)
unfolding blit_all reset_damaged_region
blit_all-Shown blt fb m v h f s = elim (f.damage) [
  | inl d ↦ (
    [],
    fb,
    rw (blit_buffer_clean fb f.wide d.0) refl,
    f,
    (λ x y k hx hy hk. elim (s x y k hx hy hk) [
      | inl e ↦ e
      | inr i ↦ absurd (omega (arith, i.0, d.0))
    ]),
    d.0,
    refl,
  )
  | inr (a, b, c, d) ↦ (
    blit_of fb ∷ [],
    reset_damaged_region fb,
    rw (blit_buffer_dirty fb f.wide (omega arith)) refl,
    reset-IsFrame fb m f,
    blit-Shown blt fb m v h f.wide a b c d s,
    f.wide,
    refl,
  )
]

drawn_char_lt : (c : ℕ) → drawn_char c < 128
drawn_char_lt c = ground arith

draw_all_one :
    (fb fb' : FrameBuffer) (m m' : Mem) (c : ℕ)
    → draw_char fb m c ≡ some (fb', m')
    → draw_all (fb ∷ []) m c ≡ some (fb' ∷ [], m')
unfolding draw_all
draw_all_one fb fb' m m' c e = rw e refl

write_loop-Drawn :
    (s : Bytes) (fb : FrameBuffer) (m : Mem)
    → IsFrame fb m
    → (fb' : FrameBuffer) × (m' : Mem) × (write_loop s (fb ∷ []) m ≡ some (fb' ∷ [], m'))
      × Drawn fb m fb' m'
unfolding write_loop
write_loop-Drawn [] fb m f = (fb, m, refl, Drawn-refl fb m f)
write_loop-Drawn (c ∷ s) fb m f =
    let (fb1, m1, e, d, k) = draw_char-Drawn fb m (drawn_char c) f (drawn_char_lt c) in
    let (fb', m', r, d') = write_loop-Drawn s fb1 m1 d.frame in
    (fb', m', rw (draw_all_one fb fb1 m m1 (drawn_char c) e) r, Drawn-trans fb m fb1 m1 fb' m' d d')

Shown-Drawn :
    (fb fb' : FrameBuffer) (m m' : Mem) (v : Screen)
    → Drawn fb m fb' m'
    → Shown v fb m
    → Shown v fb' m'
Shown-Drawn fb fb' m m' v d s x y k hx hy hk = elim (s x y k hx hy hk) [
  | inr i ↦ inr (d.grown x y i hx hy)
  | inl e ↦ elim (d.covered x y k hx hy hk) [
    | inr i ↦ inr i
    | inl g ↦ inl (rw d.same_buf (e ∙ sym g))
  ]
]

-- With one frame buffer, well-formed, which the screen showed but for its damaged region, and a
-- `blt` that copies the rectangle: `graphics_write` of any string does not fault, and the calls
-- that it makes of `blt` leave the screen with every pixel as in the buffer. The frame buffer is
-- well-formed and nothing of it is damaged then, and no cell outside it has changed.
pub graphics_write-ShownAll :
    (blt : Blit → Mem → Screen → Screen) (s : Bytes) (fb : FrameBuffer) (m : Mem) (v : Screen)
    → IsBlt blt
    → IsFrame fb m
    → Shown v fb m
    → (bs : List Blit) × (fb' : FrameBuffer) × (m' : Mem) × (graphics_write true (fb ∷ []) m s
        ≡ some (bs, fb' ∷ [], m'))
      × IsFrame fb' m'
      × ShownAll (perform blt bs m' v) fb' m'
      × (fb'.damaged_left ≡ 640)
      × SameOutside fb.buf frame_size m m'
unfolding graphics_write
graphics_write-ShownAll blt s fb m v h f sh =
    let (fb1, m', e, d) = write_loop-Drawn s fb m f in
    let (bs, fb', r, g, all, clean, same) =
      blit_all-Shown blt fb1 m' v h d.frame (Shown-Drawn fb fb1 m m' v d sh) in
    (bs, fb', m', rw (e, r) refl, g, rw same all, clean, d.writes.0)
