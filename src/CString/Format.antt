-- ===== src/CString/Format.antt =====
-- `vsprintf` of src/string.c. The arguments are the 64-bit patterns that `va_arg` reads in turn; a
-- string is given by its address. Reading past the last argument, or past the end of the format, is a
-- fault.
pub mod Signed
use loli_loader.Base.{
  ℕ, zero, suc, ◌+◌, ◌-◌, ◌*◌, ◌/◌, ◌%◌, ◌^◌, Bool, true, false, ◌&&◌, ◌||◌, not, Option, none,
  some, List, [], ◌∷◌, ◌==◌, ltb, leb, if◌then◌else◌, Bytes, length,
}
use loli_loader.Memory.{Mem, store, ◌>>=◌}
use loli_loader.CString.{strlen, strcpy}
use loli_loader.CString.Number.{itoa_n}

-- An `int` in a `long int`: its sign fills the upper half.
abbrev pub sign_extend : ℕ → ℕ
sign_extend w = let low = w % 2 ^ 32 in if ltb low (2 ^ 31) then low else low + (2 ^ 64 - 2 ^ 32)

-- `value < 0`
abbrev pub is_minus : ℕ → Bool
is_minus value = leb (2 ^ 63) value

-- The base of a conversion; another letter leaves the last one.
abbrev pub base_of : ℕ → ℕ → ℕ
base_of k base = if k == b'd' || k == b'u' then 10 else if k == b'p' || k == b'x' then 16 else base

-- What is written in front of the digits, where it ends, and the value that is printed.
unfoldable pub prefix : Mem → ℕ → ℕ → ℕ → Option (Mem × ℕ × ℕ)
unfolding store
prefix m p k value =
    if k == b'd' && is_minus value
    then (do m' ← store m p b'-'; some (m', p + 1, 2 ^ 64 - value))
    else if k == b'p'
    then (do m' ← store m p b'0'; m'' ← store m' (p + 1) b'x'; some (m'', p + 2, value))
    else some (m, p, value)

-- The conversion `k` of an argument, from the switch on its letter on: the memory, where the text
-- ends, and the base.
unfoldable pub convert : Mem → ℕ → ℕ → Bool → ℕ → ℕ → Option (Mem × ℕ × ℕ)
unfolding prefix itoa_n
convert m p k long_value value base = do
  (m', p', value') ← prefix m p k value
  (len, m'') ← itoa_n m' p' (if long_value then value' else value' % 2 ^ 32) (base_of k base)
  some (m'', p' + len, base_of k base)

-- `while (*format) { … }` and the terminator, on fuel; `f` is the fuel of the string functions.
unfoldable pub format_loop : ℕ → ℕ → Mem → ℕ → Bytes → List ℕ → ℕ → Option Mem
unfolding convert store strcpy strlen
format_loop zero f m p format args base = none
format_loop (suc g) f m p [] args base = store m p 0
format_loop (suc g) f m p (c ∷ []) args base =
    if c == b'%' then none else (do m' ← store m p c; format_loop g f m' (p + 1) [] args base)
format_loop (suc g) f m p (c ∷ d ∷ format) args base =
    let plain = (do m' ← store m p c; format_loop g f m' (p + 1) (d ∷ format) args base) in
    let percent = (do m' ← store m p d; format_loop g f m' (p + 1) format args base) in
    let text : Option Mem = elim args [
      | [] ↦ none
      | w ∷ ws ↦ (do
        m' ← strcpy f m p w
        len ← strlen f m' w
        format_loop g f m' (p + len) format ws base)
    ] in
    let letter : Option Mem = elim args [
      | [] ↦ none
      | w ∷ ws ↦ (do m' ← store m p (w % 256); format_loop g f m' (p + 1) format ws base)
    ] in
    let number : Option Mem = elim args [
      | [] ↦ none
      | w ∷ ws ↦ (do
        (m', p', base') ← convert m p d (d == b'p') (if d == b'p' then w else sign_extend w) base
        format_loop g f m' p' format ws base')
    ] in
    let long_number : Option Mem = elim args [
      | [] ↦ none
      | w ∷ ws ↦ elim format [
        | [] ↦ none
        | k ∷ rest ↦ (do
          (m', p', base') ← convert m p k true w base
          format_loop g f m' p' rest ws base')
      ]
    ] in
    if not (c == b'%')
    then plain
    else if d == b'%'
    then percent
    else if d == b's'
    then text
    else if d == b'c'
    then letter
    else if d == b'l'
    then long_number
    else number

-- A round takes a character of the format at least.
unfoldable pub vsprintf : ℕ → Mem → ℕ → Bytes → List ℕ → Option Mem
unfolding format_loop
vsprintf f m p format args = format_loop (suc (length format)) f m p format args 10
