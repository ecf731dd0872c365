-- ===== src/Graphics/Init.antt =====
-- src/graphics.c: the search for a mode of a graphics output, and the frame buffers that
-- `graphics_init` sets up. The firmware's graphics outputs are a parameter; the messages that the
-- code prints on its way are left out.
use loli_loader.Base.{
  ℕ, zero, suc, ◌+◌, ◌*◌, ◌/◌, ◌%◌, ◌^◌, Bool, false, ◌&&◌, ◌||◌, not, Option, none, some, List, [],
  ◌∷◌, ◌++◌, ◌==◌, leb, if◌then◌else◌, length,
}
use loli_loader.Base.Int.{ℤ, pos, negsuc}
use loli_loader.Memory.{Mem}
use loli_loader.CString.{memset}
use loli_loader.Run.{Run, done, fault, ◌>>=◌, panic, checked}
use loli_loader.Alloc.{MemoryServices, is_success, malloc, malloc_pages}
use loli_loader.Graphics.{FrameBuffer, reset_damaged_region}

pub record ModeInfo : Type 0 where
  pub horizontal_res : ℕ
  pub vertical_res : ℕ

-- A graphics output is a number, and so is the status of a call. `locate_handle` gives the status of
-- the first of the two calls of `locateHandle`, the size that it asks for, and the handles that the
-- second gives.
pub record GraphicsFirmware : Type 0 where
  pub max_mode : ℕ → ℕ
  pub query_mode : ℕ → ℕ → ℕ × ModeInfo
  pub set_mode : ℕ → ℕ → ℕ
  pub locate_handle : ℕ × ℕ × List ℕ
  pub handle_protocol : ℕ → ℕ

unfoldable pub fbmode_is_supported : ModeInfo → Bool
fbmode_is_supported info = leb 640 info.horizontal_res && leb 384 info.vertical_res

unfoldable pub is_buffer_duplicated : List FrameBuffer → ℕ → Bool
is_buffer_duplicated [] gop = false
is_buffer_duplicated (fb ∷ fbs) gop = gop == fb.gop || is_buffer_duplicated fbs gop

-- `EFI_ERRNO(ret)`
abbrev pub efi_errno : ℕ → ℕ
efi_errno ret = ret % 2 ^ 63

module _ (g : GraphicsFirmware) where
  -- `for (int mode = …; mode < gop->mode->maxMode; mode++)`, of which `n` rounds are left.
  unfoldable pub mode_loop : ℕ → List FrameBuffer → ℕ → ℕ → ℤ × Option ModeInfo
  unfolding fbmode_is_supported is_buffer_duplicated
  mode_loop zero fbs gop mode = (negsuc 0, none)
  mode_loop (suc n) fbs gop mode =
      let rest = mode_loop n fbs gop (mode + 1) in
      let (ret, info) = g.query_mode gop mode in
      if not (is_success ret)
      then (negsuc 0, none)
      else if not (fbmode_is_supported info)
      then rest
      else if not (is_success (g.set_mode gop mode))
      then rest
      else (if is_buffer_duplicated fbs gop then pos 1 else pos 0, some info)

  unfoldable pub gop_determine_mode : List FrameBuffer → ℕ → ℤ × Option ModeInfo
  unfolding mode_loop
  gop_determine_mode fbs gop = mode_loop (g.max_mode gop) fbs gop 0

module _ (s : MemoryServices) where
  -- The frame buffer, or `none` for the result -1. The screen is cleared by the firmware.
  unfoldable pub gop_setup_mode : Mem → ℕ → Run (Option FrameBuffer × Mem)
  unfolding malloc_pages reset_damaged_region memset
  gop_setup_mode m gop =
      let (p, m') = malloc_pages s m 983040 in
      elim p [
        | none ↦ done (none, m')
        | some buf ↦ (do
          m'' ← checked (memset m' buf 0 983040)
          done (
            some (
                reset_damaged_region (record {
                  gop = gop;
                  height = 384;
                  width = 640;
                  buf = buf;
                  damaged_left = 0;
                  damaged_up = 0;
                  damaged_right = 0;
                  damaged_down = 0;
                  cursor_x = 0;
                })),
            m'',
          ))
      ]

module _ (g : GraphicsFirmware) (s : MemoryServices) where
  unfoldable pub gop_try_init : List FrameBuffer → Mem → ℕ → Run (Option FrameBuffer × Mem)
  unfolding gop_determine_mode gop_setup_mode
  gop_try_init fbs m handle =
      let gop = g.handle_protocol handle in
      elim (gop_determine_mode g fbs gop).0 [
        | pos zero ↦ gop_setup_mode s m gop
        | pos (suc n) ↦ done (none, m)
        | negsuc n ↦ done (none, m)
      ]

  -- `for (size_t i = 0; i < handleNum; i++)`, of which `n` rounds are left, over the handles that the
  -- firmware has stored; one that it has not stored is a fault. A frame buffer that is set up stands
  -- behind the others.
  unfoldable pub init_loop : ℕ → List ℕ → List FrameBuffer → Mem → Run (List FrameBuffer × Mem)
  unfolding gop_try_init
  init_loop zero hs fbs m = done (fbs, m)
  init_loop (suc n) [] fbs m = fault
  init_loop (suc n) (handle ∷ hs) fbs m = do
    r ← gop_try_init fbs m handle
    init_loop n hs (elim (r.0) [ none ↦ fbs | some fb ↦ fbs ++ fb ∷ [] ]) r.1

  -- `gGraphicsAvailable`, the frame buffers and the memory. A frame buffer's record takes 48 bytes.
  unfoldable pub graphics_init : Mem → Run (Bool × List FrameBuffer × Mem)
  unfolding init_loop malloc
  graphics_init m =
      let (status, size, handles) = g.locate_handle in
      let ret = efi_errno status in
      if ret == 14
      then done (false, [], m)
      else if not (ret == 5)
      then panic "Failed to locate GOP handle"
      else (do
        r ← malloc s m (48 * (size / 8))
        t ← init_loop (size / 8) handles [] r.1
        done (leb 1 (length t.0), t.0, t.1))
