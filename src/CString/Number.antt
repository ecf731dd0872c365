-- ===== src/CString/Number.antt =====
-- `itoa_n` and `atou` of src/string.c. An `int` is a 32-bit pattern, and wraps.
pub mod Digits
pub mod Reverse
pub mod Print
pub mod Decimal
use loli_loader.Base.{
  ℕ, zero, suc, ◌+◌, ◌-◌, ◌*◌, ◌/◌, ◌%◌, ◌^◌, Bool, true, false, ◌||◌, Option, none, some, [], ◌∷◌,
  ◌==◌, ltb, if◌then◌else◌, Bytes, codes, length, get_or,
}
use loli_loader.Base.Int.{ℤ, pos, negsuc, signed32}
use loli_loader.Memory.{Mem, load, store, ◌>>=◌}

-- `digits[k]`
abbrev pub digit : ℕ → ℕ
digit k = get_or (codes "0123456789abcdef") k 0

-- `while (n) { out[len] = digits[n % base]; n /= base; len++; }`
unfoldable pub digit_loop : ℕ → Mem → ℕ → ℕ → ℕ → ℕ → Option (ℕ × Mem)
unfolding store
digit_loop zero m out n base len = none
digit_loop (suc f) m out n base len =
    let rest = (do
      m' ← store m (out + len) (digit (n % base))
      digit_loop f m' out (n / base) base (len + 1)) in
    if n == 0 then some (len, m) else rest

-- The loop that turns the digits round, from round `i` on, with `k` rounds left.
unfoldable pub swap_loop : Mem → ℕ → ℕ → ℕ → ℕ → Option Mem
unfolding load store
swap_loop m out len i zero = some m
swap_loop m out len i (suc k) = do
  tmp ← load m (out + (len - i - 1))
  c ← load m (out + i)
  m1 ← store m (out + (len - i - 1)) c
  m2 ← store m1 (out + i) tmp
  swap_loop m2 out len (i + 1) k

-- A number has fewer digits than its value plus one, so the loop has enough fuel.
unfoldable pub itoa_n : Mem → ℕ → ℕ → ℕ → Option (ℕ × Mem)
unfolding store
itoa_n m out n base =
    let zero_digit = (do m' ← store m out b'0'; some (1, m')) in
    let written = (do
      r ← digit_loop (suc n) m out n base 0
      m' ← swap_loop r.1 out r.0 0 (r.0 / 2)
      some (r.0, m')) in
    if n == 0 then zero_digit else written

-- `while (p >= s) { …; p--; }` of `atou`; `k` is `p - s + 1`.
unfoldable pub atou_loop : Bytes → ℕ → ℕ → ℕ → ℤ
atou_loop s zero weight res = signed32 res
atou_loop s (suc k) weight res =
    let c = get_or s k 0 in
    let rest = atou_loop s k ((weight * 10) % 2 ^ 32) ((res + weight * (c - b'0')) % 2 ^ 32) in
    if ltb c b'0' || ltb b'9' c then negsuc 0 else rest

unfoldable pub atou : Bytes → ℤ
unfolding atou_loop
atou [] = negsuc 0
atou (c ∷ s) = atou_loop (c ∷ s) (length (c ∷ s)) 1 0
