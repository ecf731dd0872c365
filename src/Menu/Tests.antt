-- ===== src/Menu/Tests.antt =====
-- Runs of src/menu.c, and its theorems at a sample configuration.
use loli_loader.Base.{
  ◌≡◌, refl, none, some, Option, Bytes, codes, drop, false, Bool, arith, get_elem?, IsSuffix, whole,
  behind,
}
use loli_loader.Base.Int.{ℤ, pos}
use loli_loader.Memory.{Mem, IsCString, terminated}
use loli_loader.Memory.Image.{image}
use loli_loader.Extlinux.{extlinux_get_value}
use loli_loader.Extlinux.Lines.{entries}
use loli_loader.CString.{strscpy}
use loli_loader.CString.Number.{atou}
use loli_loader.Run.{Run, done}
use loli_loader.Alloc.{malloc}
use loli_loader.Alloc.Laws.{ReturnsOrPanics}
use loli_loader.Alloc.Model.{services, services-IsLawful}
use loli_loader.Menu.{menu_get_pair, menu_get_timeout, menu_get_nth_entry}
use loli_loader.Menu.Pair.{Copies, menu_get_pair-Copies}
use loli_loader.Menu.Select.{menu_get_nth_entry-get}

abbrev cfg : Bytes
cfg = codes "timeout 3\nlabel a\nkernel /k \nlabel b\n"

abbrev memory : Mem
memory = image (terminated cfg)

cfg-IsCString : IsCString memory 0 cfg
cfg-IsCString = record { held = ground arith; nonzero = ground arith }

abbrev timeout_of : Run (ℤ × Bool × Mem) → Option (ℤ × Bool)
timeout_of (done (t, invalid, m)) = some (t, invalid)
timeout_of r = none

timeout : timeout_of (menu_get_timeout (services 100) 0 cfg memory) ≡ some (pos 3, false)
unfolding menu_get_timeout menu_get_pair extlinux_get_value malloc strscpy services atou
timeout = refl

nth : (menu_get_nth_entry cfg 1 ≡ some (codes "label b\n")) × (menu_get_nth_entry cfg 2 ≡ none)
unfolding menu_get_nth_entry
nth = (refl, refl)

menu_get_nth_entry-get_example : menu_get_nth_entry cfg 1 ≡ get_elem? (entries cfg) 1
menu_get_nth_entry-get_example = menu_get_nth_entry-get cfg 1

kernel_found : extlinux_get_value (drop 10 cfg) (codes "kernel") ≡ some (drop 25 cfg, 2)
unfolding extlinux_get_value
kernel_found = refl

entry-IsSuffix : IsSuffix (drop 10 cfg) cfg
entry-IsSuffix =
    behind (behind (behind (behind (behind (behind (behind (behind (behind (behind whole)))))))))

menu_get_pair-Copies_example :
    ReturnsOrPanics
      (menu_get_pair (services 100) 0 cfg memory (drop 10 cfg) (codes "kernel"))
      (Copies memory (codes "/k"))
menu_get_pair-Copies_example =
    menu_get_pair-Copies (services 100) (services-IsLawful 100) 0 cfg memory (drop 10 cfg) b'k'
      (codes "ernel") (drop 25 cfg) 2 cfg-IsCString entry-IsSuffix (omega arith) kernel_found
