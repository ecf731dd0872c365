-- ===== src/Graphics/Bits.antt =====
-- The rows of the font as numbers: the pixels of a row are the binary digits of its byte, the leftmost
-- pixel the highest digit.
use loli_loader.Base.{
  ℕ, zero, suc, ◌+◌, ◌*◌, ◌/◌, ◌%◌, ◌<◌, ◌≡◌, true, false, Bool, some, List, [], ◌∷◌, arith, ◌==◌,
  ltb, ◌&&◌, if◌then◌else◌, get_elem?, get_or, refl,
}
use loli_loader.Memory.{Mem, Holds}
use loli_loader.Graphics.{FrameBuffer, glyph_bit, word_bytes, colour}
use loli_loader.Graphics.Font.{g_font}
use loli_loader.Graphics.Pixel.{pixel_at}
use loli_loader.Graphics.Glyph.{glyph_row, glyph_row-some}
use loli_loader.Graphics.Frame.{ShowsGlyph}

abbrev pub digit : Bool → ℕ
digit b = if b then 1 else 0

-- The byte of a row of pixels.
abbrev pub row_value : (ℕ → Bool) → ℕ
row_value p =
    128 * digit (p 0)
    + 64 * digit (p 1)
    + 32 * digit (p 2)
    + 16 * digit (p 3)
    + 8 * digit (p 4)
    + 4 * digit (p 5)
    + 2 * digit (p 6)
    + digit (p 7)

digit-mod : (n : ℕ) → digit (n % 2 == 1) ≡ n % 2
digit-mod n = ground arith

row_value-glyph_bit : (row : ℕ) → row < 256 → row_value (λ i. glyph_bit row i) ≡ row
row_value-glyph_bit row h =
    rw
      (
        digit-mod (row / 128),
        digit-mod (row / 64),
        digit-mod (row / 32),
        digit-mod (row / 16),
        digit-mod (row / 8),
        digit-mod (row / 4),
        digit-mod (row / 2),
        digit-mod (row / 1),
      )
      (omega arith)

all_bytes : List ℕ → Bool
all_bytes [] = true
all_bytes (b ∷ s) = ltb b 256 && all_bytes s

all_bytes-get : (s : List ℕ) (i : ℕ) → all_bytes s ≡ true → get_or s i 0 < 256
unfolding all_bytes
all_bytes-get [] i h = omega arith
all_bytes-get (b ∷ s) zero h = ground arith
all_bytes-get (b ∷ s) (suc i) h = all_bytes-get s i (ground arith)

font_bytes : all_bytes g_font ≡ true
unfolding all_bytes
font_bytes = refl

-- The pixels of the cell at the column `start_x` of the last line are white or black, and each row of
-- them, read as a binary number, is the byte of the font for that row of the character.
abbrev pub ShowsFont : Mem → FrameBuffer → ℕ → ℕ → Type 0
ShowsFont m fb c start_x =
    (picture : ℕ → ℕ → Bool) × ((i j : ℕ)
      → i < 8
      → j < 16
      → Holds m (pixel_at fb (i + start_x) (j + 368))
          (if picture j i then 255 ∷ 255 ∷ 255 ∷ 0 ∷ [] else 0 ∷ 0 ∷ 0 ∷ 0 ∷ []))
    × ((j : ℕ) → j < 16 → get_elem? g_font (16 * c + j) ≡ some (row_value (picture j)))

white_or_black :
    (m : Mem) (a : ℕ) (b : Bool)
    → Holds m a (word_bytes (colour b))
    → Holds m a (if b then 255 ∷ 255 ∷ 255 ∷ 0 ∷ [] else 0 ∷ 0 ∷ 0 ∷ 0 ∷ [])
white_or_black m a true h = h
white_or_black m a false h = h

pub ShowsGlyph-ShowsFont :
    (m : Mem) (fb : FrameBuffer) (c start_x : ℕ)
    → c < 128
    → ShowsGlyph m fb c start_x
    → ShowsFont m fb c start_x
ShowsGlyph-ShowsFont m fb c start_x hc g = (
  (λ j i. glyph_bit (glyph_row c j) i),
  (λ i j l u.
      white_or_black m (pixel_at fb (i + start_x) (j + 368)) (glyph_bit (glyph_row c j) i)
        (g i j l u)),
  λ j u.
      let r = row_value-glyph_bit (glyph_row c j) (all_bytes-get g_font (16 * c + j) font_bytes) in
      rw r (glyph_row-some c j hc u),
)
