-- ===== src/Base/Int.antt =====
-- Signed integers over the native numbers, under the library's names, and the two readings of a
-- machine word: `int` as a 32-bit pattern and `char` as a byte, which some targets read as signed.
use Prim.Native.Nat.{ℕ, suc, ◌+◌, ◌-◌, ◌<◌, ◌^◌}
use mathlib.Core.Path.{◌≡◌}
use mathlib.Core.Logic.{◌↔◌}
use mathlib.Core.Bool.{Bool, true, false, ◌&&◌}
use native.Mathlib.Omega.{arith}
use loli_loader.Base.Tests.{ltb, leb, if◌then◌else◌}

-- `negsuc n` is -(n + 1).
pub data ℤ : Type 0 where
  pos : ℕ → ℤ
  negsuc : ℕ → ℤ

abbrev pub pos_part : ℤ → ℕ
pos_part (pos n) = n
pos_part (negsuc n) = 0

abbrev pub neg_part : ℤ → ℕ
neg_part (pos n) = 0
neg_part (negsuc n) = suc n

-- a - b, as an integer.
abbrev pub sub_ℕ : ℕ → ℕ → ℤ
sub_ℕ a b = if leb b a then pos (a - b) else negsuc (b - a - 1)

infixl 65 ◌-ℤ◌
infix 50 ◌<ℤ◌
unfoldable pub ◌-ℤ◌ : ℤ → ℤ → ℤ
a -ℤ b = sub_ℕ (pos_part a + neg_part b) (neg_part a + pos_part b)

abbrev pub ◌<ℤ◌ : ℤ → ℤ → Type 0
a <ℤ b = pos_part a + neg_part b < pos_part b + neg_part a

abbrev pub is_negative : ℤ → Bool
is_negative (pos n) = false
is_negative (negsuc n) = true

-- The `int` that a 32-bit pattern stands for.
abbrev pub signed32 : ℕ → ℤ
signed32 w = if ltb w (2 ^ 31) then pos w else negsuc (2 ^ 32 - w - 1)

-- The `int` that a byte is promoted to; the flag says whether `char` is signed.
abbrev pub char_int : Bool → ℕ → ℤ
char_int signed c = if signed && leb 128 c then negsuc (255 - c) else pos c

pub -ℤ_zero_iff : (a b : ℤ) → (a -ℤ b ≡ pos 0) ↔ (a ≡ b)
unfolding ◌-ℤ◌
-ℤ_zero_iff a b = ground arith

pub char_int-injective :
    (signed : Bool) (c d : ℕ) → c < 256 → d < 256 → char_int signed c ≡ char_int signed d → c ≡ d
char_int-injective true c d hc hd e = ground arith
char_int-injective false c d hc hd e = ground arith
