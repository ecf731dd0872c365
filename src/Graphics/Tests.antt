-- ===== src/Graphics/Tests.antt =====
-- The theorems on src/graphics.c at a black frame buffer.
use loli_loader.Base.{
  ◌+◌, ◌*◌, ◌≡◌, refl, true, ◌^◌, none, some, List, [], ◌∷◌, arith, leb, ltb, ◌&&◌, if◌then◌else◌,
  Bool-cases, inl, inr, codes,
}
use loli_loader.Memory.{Mem, SameOutside}
use loli_loader.Graphics.{FrameBuffer, Blit, draw_char, graphics_write}
use loli_loader.Graphics.Pixel.{IsFrame, frame_size}
use loli_loader.Graphics.Frame.{Drawn}
use loli_loader.Graphics.Bits.{ShowsFont}
use loli_loader.Graphics.Draw.{draw_char-Drawn, draw_char-ShowsFont, column, column_after}
use loli_loader.Base.Int.{pos}
use loli_loader.Alloc.Laws.{ReturnsOrPanics}
use loli_loader.Alloc.Model.{services_at, services_at-IsLawful, services_at-IsPageLawful}
use loli_loader.Graphics.Init.{GraphicsFirmware, gop_determine_mode, graphics_init}
use loli_loader.Graphics.Modes.{Determines, gop_determine_mode-Determines}
use loli_loader.Graphics.Available.{Available, graphics_init-Available}
use loli_loader.Graphics.Write.{IsBlt, Screen, ShownAll, perform, graphics_write-ShownAll}

abbrev black : Mem
black x = some 0

abbrev frame : FrameBuffer
frame = record {
  gop = 1;
  height = 384;
  width = 640;
  buf = 4096;
  damaged_left = 640;
  damaged_up = 384;
  damaged_right = 0;
  damaged_down = 0;
  cursor_x = 79;
}

frame-IsFrame : IsFrame frame black
frame-IsFrame = record {
  wide = refl;
  high = refl;
  block = λ i l. (0, refl);
  cursor = omega arith;
  damage = inl (refl, refl, refl, refl);
}

draw_char-Drawn_example :
    (fb' : FrameBuffer) × (m' : Mem) × (draw_char frame black 65 ≡ some (fb', m'))
    × Drawn frame black fb' m'
    × (fb'.cursor_x ≡ column_after frame 65)
draw_char-Drawn_example = draw_char-Drawn frame black 65 frame-IsFrame (omega arith)

draw_char-ShowsFont_example :
    (fb' : FrameBuffer) × (m' : Mem) × (draw_char frame black 65 ≡ some (fb', m'))
    × ShowsFont m' frame 65 (8 * column frame)
draw_char-ShowsFont_example =
    draw_char-ShowsFont frame black 65 frame-IsFrame (omega arith) refl refl refl

abbrev empty : Mem
empty x = none

-- Two graphics outputs, of which only the second has a mode that is large enough, its second.
abbrev outputs : GraphicsFirmware
outputs = record {
  max_mode = λ gop. gop;
  query_mode = λ gop mode. (0, record { horizontal_res = 640 * mode; vertical_res = 480 });
  set_mode = λ gop mode. 0;
  locate_handle = (2 ^ 63 + 5, 16, 1 ∷ 2 ∷ []);
  handle_protocol = λ handle. handle;
}

second_mode : (gop_determine_mode outputs [] 2).0 ≡ pos 0
unfolding gop_determine_mode
second_mode = refl

gop_determine_mode-Determines_example :
    Determines outputs 2 [] 0 2 (gop_determine_mode outputs [] 2)
gop_determine_mode-Determines_example = gop_determine_mode-Determines outputs [] 2

graphics_init-Available_example :
    ReturnsOrPanics (graphics_init outputs (services_at 64 4096) empty) (Available 2)
graphics_init-Available_example =
    graphics_init-Available outputs (services_at 64 4096) empty (services_at-IsLawful 64 4096)
      (services_at-IsPageLawful 64 4096) (omega arith)

-- A firmware that copies the rectangle.
abbrev blt : Blit → Mem → Screen → Screen
blt b m v x y k =
    if leb b.left x && ltb x (b.left + b.across) && leb b.up y && ltb y (b.up + b.along)
    then m (b.from + b.delta * y + 4 * x + k)
    else v x y k

blt-IsBlt : IsBlt blt
blt-IsBlt b m v x y k h =
    elim (Bool-cases
      (leb b.left x && ltb x (b.left + b.across) && leb b.up y && ltb y (b.up + b.along))) [
        | inl i ↦ ((λ r. rw i refl), λ o. absurd (ground arith))
        | inr o ↦ ((λ r. absurd (ground arith)), λ p. rw o refl)
      ]

abbrev dark : Screen
dark x y k = some 0

graphics_write-ShownAll_example :
    (bs : List Blit) × (fb' : FrameBuffer) × (m' : Mem) × (graphics_write true
        (frame ∷ [])
        black
        (codes "hi\n")
      ≡ some (bs, fb' ∷ [], m'))
    × IsFrame fb' m'
    × ShownAll (perform blt bs m' dark) fb' m'
    × (fb'.damaged_left ≡ 640)
    × SameOutside 4096 frame_size black m'
graphics_write-ShownAll_example =
    graphics_write-ShownAll blt (codes "hi\n") frame black dark blt-IsBlt frame-IsFrame
      λ x y k a b c. inl refl
