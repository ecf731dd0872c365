-- ===== src/File.antt =====
-- src/file.c: the path of a file that is opened. A path stands in a memory of 16-bit cells. What the
-- functions do over the firmware's file protocol is in Access.
pub mod Path
pub mod Access
mod Tests
use loli_loader.Base.{
  ℕ, zero, suc, ◌+◌, ◌-◌, Bool, true, false, ◌||◌, not, Option, none, some, ◌==◌, if◌then◌else◌,
}
use loli_loader.Memory.{Mem, load, store, ◌>>=◌}

abbrev pub slash : ℕ
slash = 47

abbrev pub backslash : ℕ
backslash = 92

-- `*p == '/' ? '\\' : *p`
abbrev pub translated : ℕ → ℕ
translated c = if c == slash then backslash else c

-- `cur == path || cur[-1] != '\\' || *cur != '\\'`
unfoldable pub advances : Mem → ℕ → ℕ → Option Bool
unfolding load
advances w path cur = if cur == path then some true else (do
  b ← load w (cur - 1)
  c ← load w cur
  some (not (b == backslash) || not (c == backslash)))

-- `for (wchar_t *p = …; *p; p++) { … }` on fuel, and the terminator.
unfoldable pub fix_loop : ℕ → Mem → ℕ → ℕ → ℕ → Option Mem
unfolding load store advances
fix_loop zero w path cur p = none
fix_loop (suc f) w path cur p = do
  c ← load w p
  let step = (do
    w' ← store w cur (translated c)
    advance ← advances w' path cur
    fix_loop f w' path (if advance then cur + 1 else cur) (p + 1))
  if c == 0 then store w cur 0 else step

unfoldable pub fix_path : ℕ → Mem → ℕ → Option Mem
unfolding fix_loop
fix_path f w path = fix_loop f w path path path
