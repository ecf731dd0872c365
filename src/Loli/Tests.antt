-- ===== src/Loli/Tests.antt =====
-- Runs of src/loli.c, and its theorem at a configuration with a default.
use loli_loader.Base.{◌≡◌, refl, arith, false, none, some, Bytes, codes, length}
use loli_loader.Base.Int.{ℤ, pos, negsuc, ◌-ℤ◌}
use loli_loader.Extlinux.{extlinux_get_value, match_key}
use loli_loader.Extlinux.Lines.{entries, later}
use loli_loader.Loli.{default_entry, wait_for_boot_entry}
use loli_loader.Loli.Default.{IsDefaultEntry, default_entry-IsDefaultEntry}

abbrev cfg : Bytes
cfg = codes "default b\nlabel a\nkernel /k\nlabel b\n"

-- A blank behind the default's name is read as a part of it, as `strncmp` compares a byte too many.
abbrev blank_behind : Bytes
blank_behind = codes "default b \nlabel a\nlabel b\n"

runs :
    (default_entry false cfg ≡ some (2, pos 1))
    × (default_entry false blank_behind ≡ some (2, pos 0))
unfolding default_entry ◌-ℤ◌
runs = (refl, refl)

selections :
    (wait_for_boot_entry none ≡ negsuc 1)
    × (wait_for_boot_entry (some (codes "12")) ≡ pos 12)
    × (wait_for_boot_entry (some (codes "1x")) ≡ negsuc 0)
unfolding wait_for_boot_entry
selections = (refl, refl, refl)

default_entry-IsDefaultEntry_example :
    (d : ℤ) × (default_entry false cfg ≡ some (length (entries cfg), d))
    × IsDefaultEntry cfg (extlinux_get_value cfg (codes "default")) d
unfolding match_key later
default_entry-IsDefaultEntry_example =
    default_entry-IsDefaultEntry false cfg (ground arith) (omega arith)
