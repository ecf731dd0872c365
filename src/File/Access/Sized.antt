-- ===== src/File/Access/Sized.antt =====
-- What is in use after a file is opened, asked for its information, sized or loaded.
use loli_loader.Base.{
  ℕ, ◌+◌, ◌-◌, ◌*◌, ◌≡◌, inl, inr, refl, ◌∙◌, ap, Bool, true, false, ◌&&◌, Option, none, some,
  arith, ◌==◌, if◌then◌else◌, Bytes, length, Bool-cases, Option-cases, subst,
}
use loli_loader.Base.Int.{ℤ, negsuc}
use loli_loader.Run.{Run, done, ◌>>=◌}
use loli_loader.Alloc.{is_success}
use loli_loader.Initrd.{to_efi_errno, efi_invalid_parameter, efi_buffer_too_small}
use loli_loader.CString.Wide.{widened}
use loli_loader.File.Path.{squeezed}
use loli_loader.File.Access.{
  FileInfo, FileFirmware, Live, is_directory, signed64, free_block, file_close, read_into,
  file_open, file_open_str, file_get_info, file_get_size, file_load,
}

-- The file that the firmware opens for a path, in its own spelling.
abbrev pub opened_file : FileFirmware → Bytes → Option ℕ
opened_file fp path =
    let (ret, file) = fp.open_file (squeezed false path) in if ret == 0 then some file else none

-- The information that the firmware tells of a file, in a buffer of the size that it asks for.
abbrev pub told : FileFirmware → ℕ → Option FileInfo
told fp file =
    let (ret, size) = fp.info_size file in
    let (ret', info) = fp.get_info file size in
    if ret == to_efi_errno efi_buffer_too_small && ret' == 0 then some info else none

abbrev pub one_more_file : Live → Live
one_more_file live = record live { files = live.files + 1 }

abbrev pub one_more_block : Live → Live
one_more_block live = record live { blocks = live.blocks + 1 }

-- The firmware has room for every block.
abbrev pub IsRoomy : FileFirmware → Type 0
IsRoomy fp = (size : ℕ) → is_success (fp.allocate_pool size) ≡ true

free_block-one_more : (live : Live) → free_block (one_more_block live) ≡ live
free_block-one_more live =
    let e : live.blocks + 1 - 1 ≡ live.blocks = omega arith in
    ap (λ n. record live { blocks = n }) e

file_close-one_more : (live : Live) → file_close (one_more_file live) ≡ live
file_close-one_more live =
    let e : live.files + 1 - 1 ≡ live.files = omega arith in ap (λ n. record live { files = n }) e

-- A file that is closed when the block of its information is free leaves nothing in use.
settled : (live : Live) → file_close (free_block (one_more_block (one_more_file live))) ≡ live
settled live = ap file_close (free_block-one_more (one_more_file live)) ∙ file_close-one_more live

abbrev pub open_result : Option ℕ → Live → Option ℕ × Live
open_result none live = (none, live)
open_result (some file) live = (some file, one_more_file live)

open_result-free_block :
    (o : Option ℕ) (live : Live)
    → ◌≡◌ {A = Run (Option ℕ × Live)}
        (done (
          (open_result o (one_more_block live)).0,
          free_block ((open_result o (one_more_block live)).1),
        ))
        (done (open_result o live))
open_result-free_block none live = ap (λ l. done (none, l)) (free_block-one_more live)
open_result-free_block (some file) live =
    ap (λ l. done (some file, l)) (free_block-one_more (one_more_file live))

module _ (fp : FileFirmware) (roomy : IsRoomy fp) where
  file_open-opened_file :
      (live : Live) (path : Bytes)
      → file_open fp live path ≡ done (open_result (opened_file fp path) live)
  unfolding file_open
  file_open-opened_file live path =
      elim (Bool-cases ((fp.open_file (squeezed false path)).0 == 0)) [
        | inl e ↦
            rw (roomy ((length path + 1) * 2), e)
              (ap (λ l. done (some ((fp.open_file (squeezed false path)).1), l))
                (free_block-one_more (one_more_file live)))
        | inr e ↦
            rw (roomy ((length path + 1) * 2), e)
              (ap (λ l. done (none, l)) (free_block-one_more live))
      ]

  file_open_str-opened_file :
      (signed : Bool) (live : Live) (path : Bytes)
      → file_open_str fp signed live path
        ≡ done (open_result (opened_file fp (widened signed path)) live)
  unfolding file_open_str
  file_open_str-opened_file signed live path =
      rw
        (
          roomy ((length path + 1) * 2),
          file_open-opened_file (one_more_block live) (widened signed path),
        )
        (open_result-free_block (opened_file fp (widened signed path)) live)

  -- The status is 0 where the information is told, which is in a block then.
  abbrev InfoResult : Live → ℕ → Option FileInfo → Type 0
  InfoResult live file none =
      (ret : ℕ) × ((ret == 0) ≡ false) × (file_get_info fp live file ≡ done (ret, none, live))
  InfoResult live file (some info) =
      file_get_info fp live file ≡ done (0, some info, one_more_block live)

  file_get_info-told : (live : Live) (file : ℕ) → InfoResult live file (told fp file)
  unfolding file_get_info
  file_get_info-told live file =
      let (ret, size) = fp.info_size file in
      let (ret', info) = fp.get_info file size in
      elim (Bool-cases (ret == to_efi_errno efi_buffer_too_small)) [
        | inl e ↦
            let n : (ret == 0) ≡ false = ground arith in
            elim (Bool-cases (ret' == 0)) [
              | inl z ↦
                  let z' : ret' ≡ 0 = ground arith in
                  let h : file_get_info fp live file ≡ done (0, some info, one_more_block live) =
                    rw (n, e, roomy size, z') refl in
                  rw (e, z') h
              | inr z ↦
                  let h : file_get_info fp live file ≡ done (ret', none, live) =
                    rw (n, e, roomy size, z)
                      (ap (λ l. done (ret', none, l)) (free_block-one_more live)) in
                  rw (e, z) (ret', z, h)
            ]
        | inr e ↦ elim (Bool-cases (ret == 0)) [
          | inl n ↦
              let h : file_get_info fp live file ≡ done (efi_invalid_parameter, none, live) =
                rw n refl in
              rw e (efi_invalid_parameter, refl, h)
          | inr n ↦
              let h : file_get_info fp live file ≡ done (ret, none, live) = rw (n, e) refl in
              rw e (ret, n, h)
        ]
      ]

-- The result for an open file, which stays open where its information is not told.
abbrev pub told_size : Live → Option FileInfo → ℤ × Live
told_size live none = (negsuc 0, one_more_file live)
told_size live (some info) = (signed64 info.file_size, live)

-- The result of `file_get_size`, and what is in use after it.
abbrev pub sized : FileFirmware → Live → Option ℕ → ℤ × Live
sized fp live none = (negsuc 0, live)
sized fp live (some file) = told_size live (told fp file)

told_size-closed :
    (live : Live) (info : FileInfo)
    → ◌≡◌ {A = Run (ℤ × Live)}
        (done
          (signed64 info.file_size, file_close (free_block (one_more_block (one_more_file live)))))
        (done (told_size live (some info)))
told_size-closed live info = ap (λ l. done (signed64 info.file_size, l)) (settled live)

module _ (fp : FileFirmware) (roomy : IsRoomy fp) where
  -- Where the firmware has room for every block, file_get_size returns, and gives every block back:
  -- the result is the size that the firmware tells, as an int64_t, with no more files open than
  -- before; -1, the same in use, where the path is not opened; and -1, with the file left open,
  -- where its information is not told.
  pub file_get_size-sized :
      (signed : Bool) (live : Live) (path : Bytes)
      → file_get_size fp signed live path
        ≡ done (sized fp live (opened_file fp (widened signed path)))
  unfolding file_get_size
  file_get_size-sized signed live path =
      elim (Option-cases (opened_file fp (widened signed path))) [
        | inl e ↦ rw (file_open_str-opened_file fp roomy signed live path, e) refl
        | inr (file, e) ↦
            let info = file_get_info-told fp roomy (one_more_file live) file in
            elim (Option-cases (told fp file)) [
              | inl t ↦
                  let (ret, n, h) = subst (InfoResult fp roomy (one_more_file live) file) t info in
                  rw (file_open_str-opened_file fp roomy signed live path, e, h, n, t) refl
              | inr (i, t) ↦
                  let h = subst (InfoResult fp roomy (one_more_file live) file) t info in
                  rw (file_open_str-opened_file fp roomy signed live path, e, h, t)
                    (told_size-closed live i)
            ]
      ]

-- A file is loaded into a block that holds `buf`; a directory stays open, with its information.
abbrev pub told_load : FileFirmware → Live → Bytes → ℕ → Option FileInfo → Run (ℤ × Bytes × Live)
told_load fp live buf file none = done (negsuc 0, buf, one_more_file live)
told_load fp live buf file (some info) =
    if is_directory info then done (negsuc 0, buf, one_more_block (one_more_file live)) else (do
      let (size, s) = fp.read file info.file_size
      filled ← read_into buf s
      done (signed64 size, filled, live))

-- The result of `file_load`, the block, and what is in use after it.
abbrev pub loaded : FileFirmware → Live → Bytes → Option ℕ → Run (ℤ × Bytes × Live)
loaded fp live buf none = done (negsuc 0, buf, live)
loaded fp live buf (some file) = told_load fp live buf file (told fp file)

module _ (fp : FileFirmware) (roomy : IsRoomy fp) where
  pub file_load-loaded :
      (signed : Bool) (live : Live) (path buf : Bytes)
      → file_load fp signed live path buf
        ≡ loaded fp live buf (opened_file fp (widened signed path))
  unfolding file_load
  file_load-loaded signed live path buf =
      elim (Option-cases (opened_file fp (widened signed path))) [
        | inl e ↦ rw (file_open_str-opened_file fp roomy signed live path, e) refl
        | inr (file, e) ↦
            let info = file_get_info-told fp roomy (one_more_file live) file in
            elim (Option-cases (told fp file)) [
              | inl t ↦
                  let (ret, n, h) = subst (InfoResult fp roomy (one_more_file live) file) t info in
                  rw (file_open_str-opened_file fp roomy signed live path, e, h, n, t) refl
              | inr (i, t) ↦
                  let h = subst (InfoResult fp roomy (one_more_file live) file) t info in
                  rw (file_open_str-opened_file fp roomy signed live path, e, h, t)
                    (ap
                      (λ l.
                        if is_directory i
                        then done (negsuc 0, buf, one_more_block (one_more_file live))
                        else (do
                          filled ← read_into buf ((fp.read file i.file_size).1)
                          done (signed64 ((fp.read file i.file_size).0), filled, l)))
                      (settled live))
            ]
      ]
