-- ===== src/CString/Tests.antt =====
-- Runs of the functions of src/string.c, and their theorems at small memories.
use loli_loader.Base.{
  ℕ, ◌+◌, ◌≡◌, ◌<◌, ◌↔◌, refl, true, none, some, Option, List, [], ◌∷◌, ◌++◌, arith, Bytes, codes,
}
use loli_loader.Base.Int.{pos, negsuc, ◌-ℤ◌}
use loli_loader.Memory.{Mem, IsCString, IsBlock, IsMapped}
use loli_loader.Memory.Image.{image, image-IsBlock}
use loli_loader.CString.{strlen, memmove, str2wcs, wcs2str}
use loli_loader.CString.Copy.{Copied, strlen_lem}
use loli_loader.CString.Block.{memmove_overlap}
use loli_loader.CString.Wide.{wcs2str-str2wcs}
use loli_loader.CString.Compare.{strcmp, strncmp, memcmp, strncmp-take, memcmp_half}
use loli_loader.CString.Format.{vsprintf}
use loli_loader.CString.Format.Signed.{Formats, vsprintf-Formats}
use loli_loader.CString.Number.{itoa_n, digit_loop, swap_loop, atou}
use loli_loader.CString.Number.Print.{Prints}
use loli_loader.CString.Number.Decimal.{atou-itoa_n}

-- "abc" at 0, eight cells of room at 4, "abcabd" at 12.
abbrev cells : Bytes
cells = codes "abc" ++ 0 ∷ 9 ∷ 9 ∷ 9 ∷ 9 ∷ 9 ∷ 9 ∷ 9 ∷ 9 ∷ (codes "abcabd" ++ 0 ∷ [])

abbrev memory : Mem
memory = image cells

abc : IsCString memory 0 (codes "abc")
abc = record { held = ground arith; nonzero = ground arith }

abcabd : IsCString memory 12 (codes "abcabd")
abcabd = record { held = ground arith; nonzero = ground arith }

room : (n : ℕ) → 4 + n < 13 → IsBlock memory 4 n
room n h = image-IsBlock cells 4 n (omega arith)

numbers :
    (atou (codes "042") ≡ pos 42)
    × (atou (codes "2147483647") ≡ pos 2147483647)
    × (atou (codes "4294967295") ≡ negsuc 0)
    × (atou [] ≡ negsuc 0)
    × (atou (codes "4x") ≡ negsuc 0)
unfolding atou
numbers = (refl, refl, refl, refl, refl)

-- The cells that a call of `itoa_n` leaves at 4, 5, 6 and 7.
abbrev printed_cells : Option (ℕ × Mem) → List (Option ℕ)
printed_cells none = []
printed_cells (some (len, m)) = some len ∷ m 4 ∷ m 5 ∷ m 6 ∷ m 7 ∷ []

printed :
    printed_cells (itoa_n memory 4 2024 10)
    ≡ some 4 ∷ some b'2' ∷ some b'0' ∷ some b'2' ∷ some b'4' ∷ []
unfolding itoa_n digit_loop swap_loop
printed = refl

comparisons :
    (strcmp true (codes "ab") (codes "ab") ≡ pos 0)
    × (strcmp true (codes "ab") (codes "b") ≡ negsuc 0)
    × (strncmp true (codes "abX") (codes "abY") 2 ≡ negsuc 0)
    × (memcmp true 9 memory 12 15 4 ≡ some (pos 0))
    × (memcmp true 9 memory 12 15 6 ≡ some (negsuc 0))
unfolding strcmp strncmp memcmp ◌-ℤ◌
comparisons = (refl, refl, refl, refl, refl)

strlen_lem_example : strlen 9 memory 12 ≡ some 6
strlen_lem_example = strlen_lem 9 memory 12 (codes "abcabd") abcabd (omega arith)

memmove_overlap_example : (m' : Mem) × (memmove memory 2 0 5 ≡ some m') × (m' 4 ≡ some b'a')
memmove_overlap_example =
    memmove_overlap memory 0 2 5 (omega arith) (omega arith) (image-IsBlock cells 2 5 (omega arith))
      (image-IsBlock cells 0 5 (omega arith))

wcs2str-str2wcs_example :
    (w' m' : Mem) × (str2wcs true 9 memory memory (some 8) 0 ≡ some (3, w'))
    × (wcs2str 9 memory w' (some 4) 8 ≡ some (3, m'))
    × Copied memory 4 (codes "abc") m'
wcs2str-str2wcs_example =
    wcs2str-str2wcs true 9 memory memory 8 0 4 (codes "abc") abc (omega arith)
      (image-IsBlock cells 8 4 (omega arith)) (room 4 (omega arith)) (omega arith)

strncmp-take_example :
    (strncmp true (codes "abX") (codes "abY") 2 ≡ pos 0) ↔ (codes "abX" ≡ codes "abY")
strncmp-take_example = strncmp-take true (codes "abX") (codes "abY") 2 (omega arith) (omega arith)

same_half : (i : ℕ) → i < 2 → IsMapped memory (12 + i) × (memory (15 + i) ≡ memory (12 + i))
same_half ℕ.zero h = ((b'a', refl), refl)
same_half (ℕ.suc ℕ.zero) h = ((b'b', refl), refl)
same_half (ℕ.suc (ℕ.suc i)) h = absurd (omega arith)

memcmp_half_example : memcmp true 3 memory 12 15 4 ≡ some (pos 0)
memcmp_half_example = memcmp_half true 2 3 memory 12 15 (omega arith) (omega arith) same_half

atou-itoa_n_example : (s : Bytes) × Prints memory 4 2024 10 s × (atou s ≡ pos 2024)
atou-itoa_n_example = atou-itoa_n memory 4 2024 (omega arith) (room 4 (omega arith))

-- -5 as an `int`.
abbrev minus_five : ℕ
minus_five = 0xfffffffb

vsprintf-Formats_example :
    Formats
      (image (codes "........"))
      2
      (codes "-5")
      (vsprintf 9 (image (codes "........")) 2 (codes "%d") (minus_five ∷ []))
vsprintf-Formats_example =
    vsprintf-Formats 9 (image (codes "........")) 2 minus_five (omega arith)
      (image-IsBlock (codes "........") 2 3 (omega arith))
