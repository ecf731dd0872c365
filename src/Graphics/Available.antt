-- ===== src/Graphics/Available.antt =====
-- `graphics_init`: the frame buffers that it sets up one after the other.
use loli_loader.Base.{
  ℕ, zero, suc, ◌+◌, ◌*◌, ◌≤◌, ◌≡◌, ◌⊎◌, inl, inr, refl, sym, ◌∙◌, ap, subst, Bool, true, Option,
  none, some, List, [], ◌∷◌, ◌++◌, ◌==◌, leb, length, arith, Bool-cases, length-append,
  none-ne-some, ◌/◌, ◌↔◌,
}
use loli_loader.Base.Int.{ℤ, pos, negsuc}
use loli_loader.Memory.{Mem}
use loli_loader.Run.{Run, done, panicked, fault, ◌>>=◌}
use loli_loader.Alloc.{MemoryServices, malloc}
use loli_loader.Alloc.Laws.{IsLawful, IsPageLawful, ReturnsOrPanics, malloc-Fresh}
use loli_loader.Graphics.{FrameBuffer}
use loli_loader.Graphics.Pixel.{IsFrame, frame_size}
use loli_loader.Graphics.Init.{
  GraphicsFirmware, ModeInfo, gop_determine_mode, gop_try_init, init_loop, graphics_init, efi_errno,
}
use loli_loader.Graphics.Modes.{HasBuffer, Determines, gop_determine_mode-Determines}
use loli_loader.Graphics.Setup.{KeepsBlocks, SetUp, gop_setup_mode-SetUp}

-- Well-formed frame buffers on different graphics outputs.
abbrev pub AllFrames : List FrameBuffer → Mem → Type 0
AllFrames [] m = Unit
AllFrames (fb ∷ fbs) m = IsFrame fb m × (¬ HasBuffer fbs fb.gop) × AllFrames fbs m

IsFrame-KeepsBlocks :
    (fb : FrameBuffer) (m m' : Mem) → KeepsBlocks m m' → IsFrame fb m → IsFrame fb m'
IsFrame-KeepsBlocks fb m m' k f = record {
  wide = f.wide;
  high = f.high;
  block = k fb.buf frame_size f.block;
  cursor = f.cursor;
  damage = f.damage;
}

AllFrames-KeepsBlocks :
    (fbs : List FrameBuffer) (m m' : Mem) → KeepsBlocks m m' → AllFrames fbs m → AllFrames fbs m'
AllFrames-KeepsBlocks [] m m' k a = tt
AllFrames-KeepsBlocks (fb ∷ fbs) m m' k (f, d, a) =
    (IsFrame-KeepsBlocks fb m m' k f, d, AllFrames-KeepsBlocks fbs m m' k a)

HasBuffer-append :
    (fbs : List FrameBuffer) (fb : FrameBuffer) (gop : ℕ)
    → HasBuffer (fbs ++ fb ∷ []) gop
    → HasBuffer fbs gop ⊎ (gop ≡ fb.gop)
HasBuffer-append [] fb gop (inl e) = inr e
HasBuffer-append [] fb gop (inr b) = inl b
HasBuffer-append (x ∷ fbs) fb gop (inl e) = inl (inl e)
HasBuffer-append (x ∷ fbs) fb gop (inr b) = elim (HasBuffer-append fbs fb gop b) [
  | inl h ↦ inl (inr h)
  | inr e ↦ inr e
]

AllFrames-append :
    (fbs : List FrameBuffer) (fb : FrameBuffer) (m : Mem)
    → AllFrames fbs m
    → IsFrame fb m
    → ¬ HasBuffer fbs fb.gop
    → AllFrames (fbs ++ fb ∷ []) m
AllFrames-append [] fb m a f d = (f, (λ b. b), tt)
AllFrames-append (x ∷ fbs) fb m (g, e, a) f d = (
  g,
  (λ b. elim (HasBuffer-append fbs fb x.gop b) [ inl h ↦ e h | inr q ↦ d (inl (sym q)) ]),
  AllFrames-append fbs fb m a f (λ b. d (inr b)),
)

-- The result 0 is given for a graphics output that no frame buffer is on.
free_output :
    (g : GraphicsFirmware) (gop : ℕ) (fbs : List FrameBuffer) (end : ℕ) (r : ℤ × Option ModeInfo)
    → r.0 ≡ pos 0
    → Determines g gop fbs 0 end r
    → ¬ HasBuffer fbs gop
free_output g gop fbs end r h (inl (i, l, u, a, k, w, f, inl (e, b))) = absurd (one (sym e ∙ h))
  where
    one : pos 1 ≡ pos 0 → ⊥
    one e = ground arith
free_output g gop fbs end r h (inl (i, l, u, a, k, w, f, inr (e, b))) = b
free_output g gop fbs end r h (inr (q, i, l, a, w)) = absurd (bad (sym (ap (λ x. x.0) q) ∙ h))
  where
    bad : negsuc 0 ≡ pos 0 → ⊥
    bad e = cc

try_init-cases :
    (g : GraphicsFirmware) (s : MemoryServices) (fbs : List FrameBuffer) (m : Mem) (handle : ℕ)
    → IsPageLawful s
    → (o : Option FrameBuffer) × (m' : Mem) × (gop_try_init g s fbs m handle ≡ done (o, m'))
      × KeepsBlocks m m'
      × ((o ≡ none)
          ⊎ (SetUp (g.handle_protocol handle) o m' × ¬ HasBuffer fbs (g.handle_protocol handle)))
unfolding gop_try_init
try_init-cases g s fbs m handle h = go (gop_determine_mode g fbs (g.handle_protocol handle)).0 refl
  where
    go :
        (r : ℤ)
        → (gop_determine_mode g fbs (g.handle_protocol handle)).0 ≡ r
        → (o : Option FrameBuffer) × (m' : Mem) × (gop_try_init g s fbs m handle ≡ done (o, m'))
          × KeepsBlocks m m'
          × ((o ≡ none)
              ⊎ (SetUp (g.handle_protocol handle) o m'
                  × ¬ HasBuffer fbs (g.handle_protocol handle)))
    go (pos zero) e =
        let (o, m', r, z, k) = gop_setup_mode-SetUp s m (g.handle_protocol handle) h in
        (
          o,
          m',
          rw (e, gop_try_init) r,
          k,
          inr (
            z,
            free_output g (g.handle_protocol handle) fbs (g.max_mode (g.handle_protocol handle)) _ e
                (gop_determine_mode-Determines g fbs (g.handle_protocol handle)),
          ),
        )
    go (pos (suc n)) e = (none, m, rw (e, gop_try_init) refl, (λ d k b. b), inl refl)
    go (negsuc n) e = (none, m, rw (e, gop_try_init) refl, (λ d k b. b), inl refl)

-- What the loop has done: every frame buffer is well-formed, and there are at most `n`.
abbrev pub Initialised : ℕ → Run (List FrameBuffer × Mem) → Type 0
Initialised n r =
    (fbs : List FrameBuffer) × (m : Mem) × (r ≡ done (fbs, m)) × AllFrames fbs m × (length fbs ≤ n)

init_loop-Initialised :
    (g : GraphicsFirmware) (s : MemoryServices) (n : ℕ) (hs : List ℕ) (fbs : List FrameBuffer)
    (m : Mem)
    → IsPageLawful s
    → n ≤ length hs
    → AllFrames fbs m
    → Initialised (length fbs + n) (init_loop g s n hs fbs m)
unfolding init_loop
init_loop-Initialised g s zero hs fbs m h w a = (fbs, m, refl, a, omega arith)
init_loop-Initialised g s (suc n) [] fbs m h w a = absurd (omega arith)
init_loop-Initialised g s (suc n) (handle ∷ hs) fbs m h w a =
    let (o, m1, e, k, c) = try_init-cases g s fbs m handle h in
    go o m1 e (AllFrames-KeepsBlocks fbs m m1 k a) c
      (λ fbs' b. init_loop-Initialised g s n hs fbs' m1 h (omega arith) b)
  where
    go :
        (o : Option FrameBuffer) (m1 : Mem)
        → gop_try_init g s fbs m handle ≡ done (o, m1)
        → AllFrames fbs m1
        → ((o ≡ none)
            ⊎ (SetUp (g.handle_protocol handle) o m1 × ¬ HasBuffer fbs (g.handle_protocol handle)))
        → ((fbs' : List FrameBuffer)
            → AllFrames fbs' m1
            → Initialised (length fbs' + n) (init_loop g s n hs fbs' m1))
        → Initialised (length fbs + suc n) (init_loop g s (suc n) (handle ∷ hs) fbs m)
    go none m1 e b c next =
        let (fbs', m', r, all, l) = next fbs b in (fbs', m', rw e r, all, omega arith)
    go (some fb) m1 e b (inl z) next = absurd (none-ne-some (sym z))
    go (some fb) m1 e b (inr ((f, q, z), d)) next =
        let (fbs', m', r, all, l) =
          next (fbs ++ fb ∷ [])
            (AllFrames-append fbs fb m1 b f (λ x. d (subst (λ y. HasBuffer fbs y) q x))) in
        (fbs', m', rw e r, all, omega (arith, length-append fbs (fb ∷ [])))

-- Well-formed frame buffers, at most `n`; the flag says whether there is one.
abbrev pub Available : ℕ → Bool × List FrameBuffer × Mem → Type 0
Available n r = AllFrames r.1 r.2 × (length r.1 ≤ n) × ((r.0 ≡ true) ↔ (1 ≤ length r.1))

setup-Available :
    (g : GraphicsFirmware) (s : MemoryServices) (hs : List ℕ) (n : ℕ) (r : Run (ℕ × Mem))
    → IsPageLawful s
    → n ≤ length hs
    → (P : ℕ × Mem → Type 0) → ReturnsOrPanics r P
    → ReturnsOrPanics
        (r >>= λ a. init_loop g s n hs [] a.1 >>= λ t. done (leb 1 (length t.0), t.0, t.1))
        (Available n)
setup-Available g s hs n (done a) h l P k =
    let (fbs, m', e, all, u) = init_loop-Initialised g s n hs [] a.1 h l tt in
    rw e (all, omega arith, ground arith)
setup-Available g s hs n (panicked msg) h l P k = tt
setup-Available g s hs n fault h l P k = k

-- If the pool and the page allocation of the firmware keep their promises, and it stores as many
-- handles as it told the size of, `graphics_init` panics, or it returns with well-formed frame buffers
-- only, no two of them on the same graphics output, and no more of them than the array has room for. It
-- makes the graphics available exactly where there is one.
pub graphics_init-Available :
    (g : GraphicsFirmware) (s : MemoryServices) (m : Mem)
    → IsLawful s
    → IsPageLawful s
    → (g.locate_handle).1 / 8 ≤ length (g.locate_handle).2
    → ReturnsOrPanics (graphics_init g s m) (Available ((g.locate_handle).1 / 8))
unfolding graphics_init
graphics_init-Available g s m lawful h w =
    let size = (g.locate_handle).1 in
    elim (Bool-cases (efi_errno (g.locate_handle).0 == 14)) [
      | inl e ↦ rw e (tt, omega arith, ground arith)
      | inr e ↦ elim (Bool-cases (efi_errno (g.locate_handle).0 == 5)) [
        | inr b ↦ rw (e, b) tt
        | inl b ↦
            rw (e, b)
              (setup-Available g s (g.locate_handle).2 (size / 8) (malloc s m (48 * (size / 8))) h w
                _ (malloc-Fresh s lawful m (48 * (size / 8))))
      ]
    ]
