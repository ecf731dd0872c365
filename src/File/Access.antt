-- ===== src/File/Access.antt =====
-- src/file.c: the opening, the sizing and the loading of files. The file protocol of the firmware is
-- a parameter, and the memory is as much of it as the functions keep track of: how many files are
-- open and how many blocks of the pool are in use. A path is the list of its characters.
pub mod Sized
use loli_loader.Base.{
  ℕ, ◌+◌, ◌-◌, ◌*◌, ◌/◌, ◌%◌, ◌^◌, Bool, false, not, Option, none, some, ◌++◌, ltb, leb, ◌==◌,
  if◌then◌else◌, Bytes, length, drop,
}
use loli_loader.Base.Int.{ℤ, pos, negsuc}
use loli_loader.Run.{Run, done, fault, ◌>>=◌, panic}
use loli_loader.Alloc.{is_success}
use loli_loader.Initrd.{to_efi_errno, efi_invalid_parameter, efi_buffer_too_small}
use loli_loader.CString.Wide.{widened}
use loli_loader.File.Path.{squeezed}

pub record FileInfo : Type 0 where
  pub file_size : ℕ
  pub attribute : ℕ

-- `open_file` is the `open` of the root: it gives a status and a file; `getInfo` a status and the size that it stores, if it is called
-- without a buffer, and otherwise a status and the information; `read` the size that it stores and
-- the bytes; `allocatePool` a status.
pub record FileFirmware : Type 0 where
  pub open_file : Bytes → ℕ × ℕ
  pub info_size : ℕ → ℕ × ℕ
  pub get_info : ℕ → ℕ → ℕ × FileInfo
  pub read : ℕ → ℕ → ℕ × Bytes
  pub allocate_pool : ℕ → ℕ

-- The open files and the blocks of the pool that are in use.
pub record Live : Type 0 where
  pub files : ℕ
  pub blocks : ℕ

abbrev pub efi_file_directory : ℕ
efi_file_directory = 16

-- `attribute & EFI_FILE_DIRECTORY`
abbrev pub is_directory : FileInfo → Bool
is_directory info = info.attribute / efi_file_directory % 2 == 1

-- The `int64_t` that a 64-bit pattern stands for.
abbrev pub signed64 : ℕ → ℤ
signed64 w = if ltb w (2 ^ 63) then pos w else negsuc (2 ^ 64 - w - 1)

-- `free` of a block.
abbrev pub free_block : Live → Live
free_block live = record live { blocks = live.blocks - 1 }

abbrev pub file_close : Live → Live
file_close live = record live { files = live.files - 1 }

-- The bytes that the firmware stores from the start of a block on.
abbrev pub read_into : Bytes → Bytes → Run Bytes
read_into buf s = if leb (length s) (length buf) then done (s ++ drop (length s) buf) else fault

module _ (fp : FileFirmware) where
  -- `malloc` of a block.
  abbrev pub take_block : Live → ℕ → Run Live
  take_block live size =
      if is_success (fp.allocate_pool size)
      then done (record live { blocks = live.blocks + 1 })
      else panic "Failed to allocate memory"

  unfoldable pub file_open : Live → Bytes → Run (Option ℕ × Live)
  file_open live path = do
    copied ← take_block live ((length path + 1) * 2)
    let (ret, file) = fp.open_file (squeezed false path)
    if ret == 0
        then done (some file, free_block (record copied { files = copied.files + 1 }))
        else done (none, free_block copied)

  unfoldable pub file_open_str : Bool → Live → Bytes → Run (Option ℕ × Live)
  unfolding file_open
  file_open_str signed live path = do
    wide ← take_block live ((length path + 1) * 2)
    r ← file_open wide (widened signed path)
    done (r.0, free_block r.1)

  -- The status, and the information in a block of its own.
  unfoldable pub file_get_info : Live → ℕ → Run (ℕ × Option FileInfo × Live)
  file_get_info live file =
      let (ret, size) = fp.info_size file in
      if ret == 0
      then done (efi_invalid_parameter, none, live)
      else if not (ret == to_efi_errno efi_buffer_too_small)
      then done (ret, none, live)
      else (do
        filled ← take_block live size
        let (ret', info) = fp.get_info file size
        if ret' == 0 then done (ret', some info, filled) else done (ret', none, free_block filled))

  unfoldable pub file_get_size : Bool → Live → Bytes → Run (ℤ × Live)
  unfolding file_open_str file_get_info
  file_get_size signed live path = do
    r ← file_open_str signed live path
    elim (r.0) [
      | none ↦ done (negsuc 0, r.1)
      | some file ↦ (do
        (ret, told, held) ← file_get_info (r.1) file
        if not (ret == 0) then done (negsuc 0, held) else elim told [
          | none ↦ fault
          | some info ↦ done (signed64 info.file_size, file_close (free_block held))
        ])
    ]

  -- The result, the block that `*buf` points to, and what is in use.
  unfoldable pub file_load : Bool → Live → Bytes → Bytes → Run (ℤ × Bytes × Live)
  unfolding file_open_str file_get_info
  file_load signed live path buf = do
    r ← file_open_str signed live path
    elim (r.0) [
      | none ↦ done (negsuc 0, buf, r.1)
      | some file ↦ (do
        (ret, told, held) ← file_get_info (r.1) file
        if not (ret == 0) then done (negsuc 0, buf, held) else elim told [
          | none ↦ fault
          | some info ↦ if is_directory info then done (negsuc 0, buf, held) else (do
            let (size, s) = fp.read file info.file_size
            loaded ← read_into buf s
            done (signed64 size, loaded, file_close (free_block held)))
        ])
    ]
