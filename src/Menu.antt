-- ===== src/Menu.antt =====
-- src/menu.c: reading pairs, the timeout and the entries of the configuration.
-- The configuration stands at `base` in memory; a pointer into it is the rest of its text.
pub mod Pair
pub mod Select
mod Tests
use loli_loader.Base.{
  ℕ, zero, suc, ◌+◌, ◌-◌, ◌≡◌, Bool, true, false, Option, none, some, [], ◌∷◌, ◌++◌, Bytes, codes,
  length, if◌then◌else◌,
}
use loli_loader.Base.Int.{ℤ, pos, negsuc, is_negative}
use loli_loader.Memory.{Mem}
use loli_loader.Extlinux.{extlinux_next_entry, extlinux_get_value}
use loli_loader.CString.{strscpy}
use loli_loader.CString.Number.{atou}
use loli_loader.Run.{Run, done, fault, ◌>>=◌, checked}
use loli_loader.Alloc.{MemoryServices, Pointer, malloc, free}

-- The address of the place in the configuration `conf`, which stands at `base`, where `p` is left.
abbrev pub address_of : ℕ → Bytes → Bytes → ℕ
address_of base conf p = base + (length conf - length p)

-- The bytes of the C string at an address, read back on fuel.
unfoldable pub read_string : ℕ → Mem → ℕ → Option Bytes
read_string zero m a = none
read_string (suc f) m a =
    let rest = read_string f m (a + 1) in
    elim (m a) [
      | none ↦ none
      | some zero ↦ some []
      | some (suc c) ↦ elim rest [ none ↦ none | some s ↦ some (suc c ∷ s) ]
    ]

module _ (s : MemoryServices) (base : ℕ) (conf : Bytes) where
  -- A copy of one byte less than the length needs at most that many rounds.
  unfoldable pub menu_get_pair : Mem → Bytes → Bytes → Run (Pointer × Mem)
  menu_get_pair m entry key = elim (extlinux_get_value entry key) [
    | none ↦ done (none, m)
    | some (res, len) ↦ (do
      r ← malloc s m (len + 1)
      c ← checked (strscpy (len + 1) r.1 r.0 (address_of base conf res) (len + 1))
      done (some r.0, c.1))
  ]

  -- The timeout, whether it was complained of as invalid, and the memory after the call.
  unfoldable pub menu_get_timeout : Mem → Run (ℤ × Bool × Mem)
  unfolding menu_get_pair free read_string
  menu_get_timeout m = do
    r ← menu_get_pair m conf (codes "timeout")
    elim r.0 [
      | none ↦ done (pos 0, false, r.1)
      | some p ↦ (do
        res ← checked (read_string (suc (length conf)) r.1 p)
        let timeout = atou res
        let invalid = is_negative timeout
        done (if invalid then pos 0 else timeout, invalid, free s r.1 (some p)))
    ]

unfoldable pub nth_loop : ℕ → Option Bytes → Option Bytes
nth_loop zero entry = entry
nth_loop (suc index) entry = nth_loop index (extlinux_next_entry none entry)

unfoldable pub menu_get_nth_entry : Bytes → ℕ → Option Bytes
unfolding nth_loop extlinux_next_entry
menu_get_nth_entry cfg index = nth_loop index (extlinux_next_entry (some cfg) none)
