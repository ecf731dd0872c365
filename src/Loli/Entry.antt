-- ===== src/Loli/Entry.antt =====
-- src/loli.c, load_and_validate_entry: the loading of an entry's kernel, device tree and initrd, over
-- what src/file.c does, and the boot services, whose answers are parameters.
mod Tests
use loli_loader.Base.{
  ℕ, ◌+◌, ◌-◌, ◌*◌, Bool, true, false, Option, none, some, List, [], ◌∷◌, ltb, leb, ◌==◌, ◌||◌, not,
  if◌then◌else◌, Bytes, codes, length, take, drop,
}
use loli_loader.Base.Int.{ℤ, is_negative, pos_part}
use loli_loader.Run.{Run, done, fault, ◌>>=◌}
use loli_loader.Alloc.{is_success, size_to_efi_pages}
use loli_loader.Extlinux.{extlinux_get_value}
use loli_loader.CString.Wide.{widened}
use loli_loader.Initrd.Install.{Interface, InitrdFirmware, install_initrd}
use loli_loader.Fdt.{be32_to_cpu}
use loli_loader.File.Access.{FileFirmware, Live, take_block, free_block, file_get_size, file_load}
use loli_loader.Elf2Efi.{fresh, le}

-- `loadImage` gives a status and a handle, and `allocatePages` a status for a number of pages; `fixup`
-- is what the device tree's block holds after the fix-up. `device_path` is the address of
-- `initrdDevicePath`, and `protocol` that of the block of the initrd's protocol.
pub record BootFirmware : Type 0 where
  pub files : FileFirmware
  pub load_image : Bytes → ℕ × ℕ
  pub allocate_pages : ℕ → ℕ
  pub database : InitrdFirmware
  pub device_path : ℕ
  pub protocol : ℕ
  pub fixup : Bytes → Bytes

-- What is in use, and what is handed to the kernel.
pub record Machine : Type 0 where
  pub live : Live
  pub page_blocks : ℕ
  pub images : ℕ
  pub device_tree : Option Bytes
  pub interfaces : List Interface
  pub initrd : Option ℕ
  pub load_options : Option Bytes

-- `sizeof(Fdt_Header)`
abbrev pub sizeof_fdt_header : ℕ
sizeof_fdt_header = 28

module _ (fw : BootFirmware) (dirt : ℕ → ℕ) (signed : Bool) where
  -- `menu_get_pair`, with the text of the copy.
  unfoldable pub get_pair : Live → Bytes → Bytes → Run (Option Bytes × Live)
  get_pair live p key = elim (extlinux_get_value p key) [
    | none ↦ done (none, live)
    | some (v, n) ↦ (do held ← take_block fw.files live (n + 1); done (some (take n v), held))
  ]

  -- What the labels give back.
  abbrev pub free_kernel : Machine → Machine
  free_kernel st = record st { live = free_block st.live }

  abbrev pub free_kernel_base : Machine → Machine
  free_kernel_base st = free_kernel (record st { page_blocks = st.page_blocks - 1 })

  abbrev pub unload_image : Machine → Machine
  unload_image st = free_kernel_base (record st { images = st.images - 1 })

  -- The pages for `size` bytes, as far as that size; the rest of the last page is not counted on.
  abbrev pub new_pages : ℕ → Bytes
  new_pages size = fresh dirt size

  -- The handle of the kernel whose text and size are known.
  unfoldable pub load_kernel_image : Bytes → ℕ → Machine → Run (Option ℕ × Machine)
  unfolding file_load fresh size_to_efi_pages
  load_kernel_image kernel size st =
      if not (is_success (fw.allocate_pages (size_to_efi_pages size))) then done (none, st) else (do
        (ret, image, live) ← file_load fw.files signed st.live kernel (new_pages size)
        let held : Machine = record st { live = live; page_blocks = st.page_blocks + 1 }
        let (status, handle) = fw.load_image (take size image)
        if is_negative ret
            then done (none, free_kernel held)
            else if not (status == 0)
            then done (none, free_kernel_base held)
            else done (some handle, record held { images = held.images + 1 }))

  unfoldable pub load_kernel : Bytes → Machine → Run (Option ℕ × Machine)
  unfolding get_pair file_get_size load_kernel_image
  load_kernel p st = do
    (text, live) ← get_pair st.live p (codes "kernel")
    elim text [
      | none ↦ done (none, record st { live = live })
      | some kernel ↦ (do
        (size, live') ← file_get_size fw.files signed live kernel
        let sized : Machine = record st { live = live' }
        if is_negative size
            then done (none, sized)
            else load_kernel_image kernel (pos_part size) sized)
    ]

  -- `fdt_fixup_and_load`: a copy of the tree, in a block of its own.
  unfoldable pub load_tree : Live → Bytes → Run (Bytes × Live)
  unfolding be32_to_cpu le
  load_tree live tree =
      let total_size = be32_to_cpu (le (take 4 (drop 4 tree))) in
      do
        held ← take_block fw.files live (total_size + 4096)
        if leb total_size (length tree) then done (fw.fixup (take total_size tree), held) else fault

  -- Whether no label is gone to, here and below.
  unfoldable pub load_fdt_file : Bytes → Machine → Run (Bool × Machine)
  unfolding file_get_size file_load load_tree fresh
  load_fdt_file fdt st = do
    (size, live) ← file_get_size fw.files signed st.live fdt
    if is_negative size || ltb (pos_part size) sizeof_fdt_header
        then done (false, record st { live = live })
        else (do
          held ← take_block fw.files live (pos_part size)
          (ret, tree, filled) ← file_load fw.files signed held fdt (fresh dirt (pos_part size))
          if is_negative ret then done (false, record st { live = free_block filled }) else (do
            (copy, live') ← load_tree filled tree
            done (true, record st { live = free_block live'; device_tree = some copy })))

  unfoldable pub load_fdt : Bytes → Machine → Run (Bool × Machine)
  unfolding get_pair load_fdt_file
  load_fdt p st = do
    (fdt, live) ← get_pair st.live p (codes "fdt")
    (tree, live') ← elim fdt [
      | none ↦ get_pair live p (codes "devicetree")
      | some text ↦ done (some text, live)
    ]
    elim tree [
      | none ↦ done (true, record st { live = live' })
      | some text ↦ load_fdt_file text (record st { live = live' })
    ]

  -- The pages of an initrd that is not loaded stay in use.
  unfoldable pub load_initrd_file : Bytes → Machine → Run (Bool × Machine)
  unfolding file_get_size file_load fresh size_to_efi_pages install_initrd
  load_initrd_file initrd st = do
    (size, live) ← file_get_size fw.files signed st.live initrd
    if is_negative size || not (is_success (fw.allocate_pages (size_to_efi_pages (pos_part size))))
        then done (false, record st { live = live })
        else (do
          (ret, image, filled) ← file_load fw.files signed live initrd (new_pages (pos_part size))
          let held : Machine = record st { live = filled; page_blocks = st.page_blocks + 1 }
          if is_negative ret then done (false, held) else (do
            protocol ← take_block fw.files filled 24
            let (status, interfaces, kept) =
                install_initrd fw.database st.interfaces fw.device_path fw.protocol
            done (
              true,
              record held {
                live = if kept then protocol else free_block protocol;
                interfaces = interfaces;
                initrd = if kept then some (pos_part ret) else none;
              },
            )))

  unfoldable pub load_initrd : Bytes → Machine → Run (Bool × Machine)
  unfolding get_pair load_initrd_file
  load_initrd p st = do
    (initrd, live) ← get_pair st.live p (codes "initrd")
    elim initrd [
      | none ↦ done (true, record st { live = live })
      | some text ↦ load_initrd_file text (record st { live = live })
    ]

  -- `setup_append`, and the freeing of the text.
  unfoldable pub load_append : Bytes → Machine → Run Machine
  unfolding get_pair
  load_append p st = do
    (append, live) ← get_pair st.live p (codes "append")
    elim append [
      | none ↦ done (record st { live = live })
      | some text ↦ (do
        held ← take_block fw.files live ((length text + 1) * 2)
        done (record st { live = free_block held; load_options = some (widened signed text) }))
    ]

  -- The handle of the kernel, or `none` where the C function returns -1.
  unfoldable pub load_and_validate_entry : Bytes → Machine → Run (Option ℕ × Machine)
  unfolding load_kernel load_fdt load_initrd load_append
  load_and_validate_entry p st = do
    (kernel, st1) ← load_kernel p st
    elim kernel [
      | none ↦ done (none, st1)
      | some handle ↦ (do
        (tree, st2) ← load_fdt p st1
        if not tree then done (none, unload_image st2) else (do
          (ramdisk, st3) ← load_initrd p st2
          if not ramdisk
              then done (none, unload_image st3)
              else (do st4 ← load_append p st3; done (some handle, free_kernel st4))))
    ]
