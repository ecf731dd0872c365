-- ===== src/Loli.antt =====
-- src/loli.c: the default entry of the menu that `cmdline_loop` shows, and what a typed line selects.
-- Config has the reading of the configuration, and Entry the loading of an entry. The printing of the
-- menu, the selection loop and the start of the kernel are left out.
pub mod Named
pub mod Default
pub mod Config
pub mod Entry
mod Tests
use loli_loader.Base.{
  ℕ, zero, suc, ◌+◌, ◌%◌, ◌^◌, Bool, true, false, Option, none, some, ◌==◌, if◌then◌else◌, Bytes,
  codes, length,
}
use loli_loader.Base.Int.{ℤ, pos, negsuc, is_negative, signed32}
use loli_loader.Extlinux.{extlinux_next_entry, extlinux_get_value, label_key}
use loli_loader.CString.Number.{atou}
use loli_loader.CString.Compare.{strncmp}

abbrev pub is_zero : ℤ → Bool
is_zero (pos zero) = true
is_zero (pos (suc n)) = false
is_zero (negsuc n) = false

-- `defaultEntryName && !strncmp(defaultEntryName, name, defaultEntryLen)`; an entry without a name
-- would be read at NULL, which is a fault.
unfoldable pub is_default : Bool → Option (Bytes × ℕ) → Bytes → Option Bool
unfolding extlinux_get_value strncmp
is_default signed none p = some false
is_default signed (some (name, len)) p = elim (extlinux_get_value p label_key) [
  | none ↦ none
  | some (label, n) ↦ some (is_zero (strncmp signed name label len))
]

-- `for (…; p; p = extlinux_next_entry(NULL, p)) { … }` on fuel: the number of entries,
-- the 32-bit pattern of an `int` whose overflow is taken to wrap, and `defaultEntry`.
unfoldable pub default_loop : ℕ → Bool → Option (Bytes × ℕ) → Option Bytes → ℕ → ℤ → Option (ℕ × ℤ)
unfolding is_default extlinux_next_entry
default_loop f signed name none num entry = some (num, entry)
default_loop zero signed name (some p) num entry = none
default_loop (suc f) signed name (some p) num entry = elim (is_default signed name p) [
  | none ↦ none
  | some found ↦
      default_loop f signed name (extlinux_next_entry none (some p)) ((num + 1) % 2 ^ 32)
        (if found then signed32 num else entry)
]

-- The number of entries, and the default entry, 0 where none is named or none has the name.
unfoldable pub default_entry : Bool → Bytes → Option (ℕ × ℤ)
unfolding default_loop extlinux_get_value extlinux_next_entry
default_entry signed cfg =
    let name = extlinux_get_value cfg (codes "default") in
    let start : ℤ = elim name [ none ↦ pos 0 | some n ↦ negsuc 0 ] in
    elim (default_loop (suc (length cfg)) signed name (extlinux_next_entry (some cfg) none) 0
      start) [
        | none ↦ none
        | some (num, entry) ↦ some (num, if is_negative entry then pos 0 else entry)
      ]

-- What the typed line selects; `none` is a time-out.
unfoldable pub wait_for_boot_entry : Option Bytes → ℤ
unfolding atou
wait_for_boot_entry none = negsuc 1
wait_for_boot_entry (some line) =
    let entry = atou line in if is_negative entry then negsuc 0 else entry
