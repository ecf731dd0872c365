-- ===== src/Graphics/Setup.antt =====
-- What `graphics_init` sets up: well-formed frame buffers, no two of them on one graphics output.
use loli_loader.Base.{
  ℕ, ◌+◌, ◌<◌, ◌≡◌, ◌⊎◌, inl, inr, refl, ◌∙◌, Option, none, some, arith, Bool-cases,
}
use loli_loader.Memory.{Mem, IsMapped, IsBlock}
use loli_loader.CString.Block.{memset_lem, filled-IsBlock}
use loli_loader.Run.{done}
use loli_loader.Alloc.{MemoryServices, efi_loader_data, is_success, malloc_pages, size_to_efi_pages}
use loli_loader.Alloc.Laws.{IsPageLawful}
use loli_loader.Graphics.{FrameBuffer, reset_damaged_region}
use loli_loader.Graphics.Pixel.{IsFrame, frame_size}
use loli_loader.Graphics.Init.{gop_setup_mode}

-- Every block stays a block.
abbrev pub KeepsBlocks : Mem → Mem → Type 0
KeepsBlocks m m' = (d k : ℕ) → IsBlock m d k → IsBlock m' d k

kept-KeepsBlocks : (m m' : Mem) → ((x : ℕ) → IsMapped m x → m' x ≡ m x) → KeepsBlocks m m'
kept-KeepsBlocks m m' h d k b i l = let (v, e) = b i l in (v, h (d + i) (v, e) ∙ e)

-- A frame buffer as `gop_setup_mode` leaves it: well-formed, black, and on the graphics output.
abbrev pub SetUp : ℕ → Option FrameBuffer → Mem → Type 0
SetUp gop none m = Unit
SetUp gop (some fb) m =
    IsFrame fb m × (fb.gop ≡ gop) × ((i : ℕ) → i < frame_size → m (fb.buf + i) ≡ some 0)

malloc_pages-cases :
    (s : MemoryServices) (m : Mem)
    → IsPageLawful s
    → let (p, m') = malloc_pages s m 983040 in
      KeepsBlocks m m' × ((p ≡ none) ⊎ ((buf : ℕ) × (p ≡ some buf) × IsBlock m' buf frame_size))
unfolding malloc_pages size_to_efi_pages
malloc_pages-cases s m h =
    let (good, kept) = h m efi_loader_data 240 in
    (
      kept-KeepsBlocks m (s.allocate_pages m efi_loader_data 240).2 kept,
      elim (Bool-cases (is_success (s.allocate_pages m efi_loader_data 240).0)) [
        | inl e ↦ inr ((s.allocate_pages m efi_loader_data 240).1, rw e refl, (good e).mapped)
        | inr e ↦ inl (rw e refl)
      ],
    )

-- If the page allocation of the firmware keeps its promise, `gop_setup_mode` does not fault: where
-- it sets a frame buffer up, this is well-formed, all black, and on the graphics output, and no
-- block of the memory is lost in any case.
pub gop_setup_mode-SetUp :
    (s : MemoryServices) (m : Mem) (gop : ℕ)
    → IsPageLawful s
    → (o : Option FrameBuffer) × (m' : Mem) × (gop_setup_mode s m gop ≡ done (o, m'))
      × SetUp gop o m'
      × KeepsBlocks m m'
unfolding gop_setup_mode reset_damaged_region
gop_setup_mode-SetUp s m gop h =
    let (keep, cases) = malloc_pages-cases s m h in
    elim cases [
      | inl e ↦ (none, (malloc_pages s m 983040).1, rw (e, gop_setup_mode) refl, tt, keep)
      | inr (buf, e, b) ↦
          let (m', r, z, o) = memset_lem 983040 (malloc_pages s m 983040).1 buf 0 b in
          let keep' = filled-IsBlock (malloc_pages s m 983040).1 buf 983040 0 m' z o in
          (
            some (record {
              gop = gop;
              height = 384;
              width = 640;
              buf = buf;
              damaged_left = 640;
              damaged_up = 384;
              damaged_right = 0;
              damaged_down = 0;
              cursor_x = 0;
            }),
            m',
            rw (e, r, gop_setup_mode) refl,
            (
              record {
                wide = refl;
                high = refl;
                block = keep' buf 983040 b;
                cursor = omega arith;
                damage = inl (refl, refl, refl, refl);
              },
              refl,
              z,
            ),
            λ d k g. keep' d k (keep d k g),
          )
    ]
