-- ===== src/CString.antt =====
-- src/string.c. Addresses and sizes are numbers below 2 ^ 64; where the code lets a `size_t` wrap,
-- the wrap is written out. Strings stand in byte memory, wide strings in a memory of 16-bit cells.
-- A `while` loop over a string takes fuel; a run that faults, or that uses the fuel up, is `none`.
pub mod Copy
pub mod Block
pub mod Wide
pub mod Compare
pub mod Number
pub mod Format
mod Tests
use Prim.Native.Nat.{min}
use loli_loader.Base.{
  ℕ, zero, suc, ◌+◌, ◌-◌, ◌%◌, ◌^◌, Bool, true, false, ◌&&◌, Option, none, some, arith, ◌==◌, ltb,
  leb, if◌then◌else◌,
}
use loli_loader.Memory.{Mem, load, store, ◌>>=◌}

-- `while (*p++) len++`
unfoldable pub strlen_loop : ℕ → Mem → ℕ → ℕ → Option ℕ
strlen_loop zero m p len = none
strlen_loop (suc f) m p len = do
  c ← load m p
  let rest = strlen_loop f m (p + 1) (len + 1)
  if c == 0 then some len else rest

unfoldable pub strlen : ℕ → Mem → ℕ → Option ℕ
unfolding strlen_loop
strlen f m p = strlen_loop f m p 0

-- The result is the memory; the address `dst`, which the C function returns, is the caller's.
unfoldable pub strcpy : ℕ → Mem → ℕ → ℕ → Option Mem
unfolding load store
strcpy zero m dst src = none
strcpy (suc f) m dst src = do
  c ← load m src
  let rest = (do m' ← store m dst c; strcpy f m' (dst + 1) (src + 1))
  if c == 0 then store m dst 0 else rest

unfoldable pub wcslen_loop : ℕ → Mem → ℕ → ℕ → Option ℕ
wcslen_loop zero w p len = none
wcslen_loop (suc f) w p len = do
  c ← load w p
  let rest = wcslen_loop f w (p + 1) (len + 1)
  if c == 0 then some len else rest

unfoldable pub wcslen : ℕ → Mem → ℕ → Option ℕ
unfolding wcslen_loop
wcslen f w p = wcslen_loop f w p 0

unfoldable pub wcscpy : ℕ → Mem → ℕ → ℕ → Option Mem
unfolding load store
wcscpy zero w dst src = none
wcscpy (suc f) w dst src = do
  c ← load w src
  let rest = (do w' ← store w dst c; wcscpy f w' (dst + 1) (src + 1))
  if c == 0 then store w dst 0 else rest

-- `(char)c` for a `wchar_t`.
abbrev pub char_of_wchar : ℕ → ℕ
char_of_wchar c = c % 256

-- `(wchar_t)c` for a `char`, which is signed on some of the targets.
abbrev pub wchar_of_char : Bool → ℕ → ℕ
wchar_of_char signed c = if signed && leb 128 c then c + 0xff00 else c

unfoldable pub narrow_loop : ℕ → Mem → Mem → ℕ → ℕ → Option Mem
unfolding load store
narrow_loop zero m w str wcs = none
narrow_loop (suc f) m w str wcs = do
  c ← load w wcs
  let rest = (do m' ← store m str (char_of_wchar c); narrow_loop f m' w (str + 1) (wcs + 1))
  if c == 0 then store m str 0 else rest

-- The result is the length and the byte memory; `str` is NULL where only the length is wanted.
unfoldable pub wcs2str : ℕ → Mem → Mem → Option ℕ → ℕ → Option (ℕ × Mem)
unfolding wcslen narrow_loop
wcs2str f m w str wcs = do
  len ← wcslen f w wcs
  elim str [ none ↦ some (len, m) | some d ↦ (do m' ← narrow_loop f m w d wcs; some (len, m')) ]

unfoldable pub widen_loop : Bool → ℕ → Mem → Mem → ℕ → ℕ → Option Mem
unfolding load store
widen_loop signed zero m w wcs str = none
widen_loop signed (suc f) m w wcs str = do
  c ← load m str
  let rest = (do
    w' ← store w wcs (wchar_of_char signed c)
    widen_loop signed f m w' (wcs + 1) (str + 1))
  if c == 0 then store w wcs 0 else rest

-- The result is the length and the wide memory.
unfoldable pub str2wcs : Bool → ℕ → Mem → Mem → Option ℕ → ℕ → Option (ℕ × Mem)
unfolding strlen widen_loop
str2wcs signed f m w wcs str = do
  len ← strlen f m str
  elim wcs [
    | none ↦ some (len, w)
    | some d ↦ (do w' ← widen_loop signed f m w d str; some (len, w'))
  ]

-- `while (n--) *(pDst++) = *(pSrc++)`
unfoldable pub memcpy : Mem → ℕ → ℕ → ℕ → Option Mem
unfolding load store
memcpy m dst src zero = some m
memcpy m dst src (suc n) = do c ← load m src; m' ← store m dst c; memcpy m' (dst + 1) (src + 1) n

unfoldable pub memmove : Mem → ℕ → ℕ → ℕ → Option Mem
unfolding memcpy
memmove m dst src n = memcpy m dst src n

unfoldable pub memset : Mem → ℕ → ℕ → ℕ → Option Mem
unfolding store
memset m p c zero = some m
memset m p c (suc n) = do m' ← store m p (c % 256); memset m' (p + 1) c n

-- `dstlen - 1` on a `size_t`.
abbrev pub pred_size : ℕ → ℕ
pred_size n = (n + (2 ^ 64 - 1)) % 2 ^ 64

-- `while (n < dstlen - 1 && *src)` and the terminator; `limit` is `dstlen - 1`.
unfoldable pub strscpy_loop : ℕ → Mem → ℕ → ℕ → ℕ → ℕ → Option (ℕ × Mem)
unfolding load store
strscpy_loop zero m dst src limit n = none
strscpy_loop (suc f) m dst src limit n =
    let stop = (do m' ← store m dst 0; some (n, m')) in
    let rest = (do
      c ← load m src
      let copied = (do m' ← store m dst c; strscpy_loop f m' (dst + 1) (src + 1) limit (n + 1))
      if c == 0 then stop else copied) in
    if ltb n limit then rest else stop

unfoldable pub strscpy : ℕ → Mem → ℕ → ℕ → ℕ → Option (ℕ × Mem)
unfolding strscpy_loop
strscpy f m dst src dstlen = strscpy_loop f m dst src (pred_size dstlen) 0
