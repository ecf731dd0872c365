-- ===== src/Initrd/Tests.antt =====
-- The theorems on src/initrd.c at an initrd of four bytes.
use loli_loader.Base.{ℕ, zero, suc, List, ◌≡◌, inr, false, some, none, [], ◌∷◌, arith, Bytes}
use loli_loader.Memory.{Mem}
use loli_loader.Memory.Image.{image, image-IsBlock}
use loli_loader.CString.Block.{CopiedCells}
use loli_loader.Initrd.{InitrdProtocol, initrd_load_file, to_efi_errno, efi_buffer_too_small}
use loli_loader.Initrd.Handler.{initrd_load_file_twice}
use loli_loader.Initrd.Install.{Guid, device_path, load_file2, Interface, InitrdFirmware}
use loli_loader.Initrd.Setup.{placed}

abbrev cells : Bytes
cells = 1 ∷ 2 ∷ 3 ∷ 4 ∷ 0 ∷ 0 ∷ 0 ∷ 0 ∷ []

abbrev protocol : InitrdProtocol
protocol = record { base = 0; size = 4 }

initrd_load_file_twice_example :
    (initrd_load_file (image cells) protocol false (some 0) none
      ≡ some (to_efi_errno efi_buffer_too_small, some 4, image cells))
    × (m' : Mem) × (initrd_load_file (image cells) protocol false (some 4) (some 4)
        ≡ some (0, some 4, m'))
    × CopiedCells (image cells) 4 0 4 m'
initrd_load_file_twice_example =
    initrd_load_file_twice (image cells) protocol 4 (omega arith)
      (image-IsBlock cells 0 4 (omega arith)) (image-IsBlock cells 4 4 (omega arith))
      (inr (omega arith))

abbrev installed : List Interface → ℕ → Guid → ℕ → ℕ × ℕ × List Interface
installed db zero device_path i = (0, 8, placed 8 device_path i ∷ db)
installed db (suc h) device_path i = (0, suc h, placed (suc h) device_path i ∷ db)
installed db h load_file2 i = (9, h, db)

abbrev rest_of : List Interface → List Interface
rest_of [] = []
rest_of (i ∷ db) = db

-- A database whose second installation fails.
abbrev database : InitrdFirmware
database = record { install = λ db h g i. installed db h g i; uninstall = λ db h g i. rest_of db }
