-- ===== src/Graphics/Modes.antt =====
-- Which mode of a graphics output `gop_determine_mode` takes, and what it returns.
use loli_loader.Base.{
  ℕ, zero, suc, ◌+◌, ◌<◌, ◌≤◌, ◌≡◌, ◌⊎◌, inl, inr, refl, ◌∙◌, true, false, Option, none, some, List,
  [], ◌∷◌, arith, Bool-cases, ◌==◌, if◌then◌else◌, subst, leb,
}
use loli_loader.Base.Int.{ℤ, pos, negsuc}
use loli_loader.Alloc.{is_success}
use loli_loader.Graphics.{FrameBuffer}
use loli_loader.Graphics.Init.{
  GraphicsFirmware, ModeInfo, is_buffer_duplicated, fbmode_is_supported, mode_loop,
  gop_determine_mode,
}

-- One of the frame buffers is on the graphics output.
abbrev pub HasBuffer : List FrameBuffer → ℕ → Type 0
HasBuffer [] gop = ⊥
HasBuffer (fb ∷ fbs) gop = (gop ≡ fb.gop) ⊎ HasBuffer fbs gop

duplicated-HasBuffer :
    (fbs : List FrameBuffer) (gop : ℕ) → is_buffer_duplicated fbs gop ≡ true → HasBuffer fbs gop
unfolding is_buffer_duplicated
duplicated-HasBuffer [] gop h = absurd (cc)
duplicated-HasBuffer (fb ∷ fbs) gop h = elim (Bool-cases (gop == fb.gop)) [
  | inl e ↦ inl (ground arith)
  | inr e ↦ inr (duplicated-HasBuffer fbs gop (rw e at h))
]

HasBuffer-duplicated :
    (fbs : List FrameBuffer) (gop : ℕ) → is_buffer_duplicated fbs gop ≡ false → ¬ HasBuffer fbs gop
unfolding is_buffer_duplicated
HasBuffer-duplicated [] gop h b = b
HasBuffer-duplicated (fb ∷ fbs) gop h (inl e) = absurd (ground arith)
HasBuffer-duplicated (fb ∷ fbs) gop h (inr b) = HasBuffer-duplicated fbs gop (ground arith) b

module _ (g : GraphicsFirmware) (gop : ℕ) where
  abbrev pub info_of : ℕ → ModeInfo
  info_of mode = (g.query_mode gop mode).1

  abbrev pub IsKnown : ℕ → Type 0
  IsKnown mode = is_success (g.query_mode gop mode).0 ≡ true

  -- The mode is large enough for the console, and is set.
  abbrev pub IsUsable : ℕ → Type 0
  IsUsable mode =
      (640 ≤ (info_of mode).horizontal_res)
      × (384 ≤ (info_of mode).vertical_res)
      × (is_success (g.set_mode gop mode) ≡ true)

  -- The firmware tells of the mode, but it is too small, or is not set.
  abbrev pub IsPassed : ℕ → Type 0
  IsPassed mode =
      IsKnown mode
      × (((info_of mode).horizontal_res < 640)
          ⊎ ((info_of mode).vertical_res < 384)
          ⊎ (is_success (g.set_mode gop mode) ≡ false))

  abbrev pub AllPassed : ℕ → ℕ → Type 0
  AllPassed first i = (j : ℕ) → first ≤ j → j < i → IsPassed j

  -- The result says whether a frame buffer is on the output already.
  abbrev pub Marks : List FrameBuffer → ℤ → Type 0
  Marks fbs r = ((r ≡ pos 1) × HasBuffer fbs gop) ⊎ ((r ≡ pos 0) × ¬ HasBuffer fbs gop)

  -- The mode `i` is the first that is not passed over, and is taken.
  abbrev pub Takes : List FrameBuffer → ℕ → ℕ → ℤ × Option ModeInfo → Type 0
  Takes fbs first end r =
      (i : ℕ) × (first ≤ i)
      × (i < end)
      × AllPassed first i
      × IsKnown i
      × IsUsable i
      × (r.1 ≡ some (info_of i))
      × Marks fbs (r.0)

  -- All modes are passed over, or all in front of one of which the firmware does not tell.
  abbrev pub Fails : ℕ → ℕ → ℤ × Option ModeInfo → Type 0
  Fails first end r =
      (r ≡ (negsuc 0, none))
      × (i : ℕ) × (first ≤ i)
      × AllPassed first i
      × ((i ≡ end) ⊎ ((i < end) × (is_success (g.query_mode gop i).0 ≡ false)))

  abbrev pub Determines : List FrameBuffer → ℕ → ℕ → ℤ × Option ModeInfo → Type 0
  Determines fbs first end r = Takes fbs first end r ⊎ Fails first end r

  AllPassed-first : (first i : ℕ) → IsPassed first → AllPassed (first + 1) i → AllPassed first i
  AllPassed-first first i p a j l u = elim (Bool-cases (j == first)) [
    | inl e ↦ let same : first ≡ j = ground arith in subst IsPassed same p
    | inr e ↦ a j (ground arith) u
  ]

  Determines-first :
      (fbs : List FrameBuffer) (first end end' : ℕ) (r : ℤ × Option ModeInfo)
      → end' ≡ end
      → IsPassed first
      → Determines fbs (first + 1) end' r
      → Determines fbs first end r
  Determines-first fbs first end end' r e p (inl (i, l, u, a, k, w, f, m)) =
      inl (i, omega arith, omega arith, AllPassed-first first i p a, k, w, f, m)
  Determines-first fbs first end end' r e p (inr (q, i, l, a, inl s)) =
      inr (q, i, omega arith, AllPassed-first first i p a, inl (s ∙ e))
  Determines-first fbs first end end' r e p (inr (q, i, l, a, inr (u, s))) =
      inr (q, i, omega arith, AllPassed-first first i p a, inr (omega arith, s))

  none_passed : (first : ℕ) → AllPassed first first
  none_passed first j l u = absurd (omega arith)

  marks :
      (fbs : List FrameBuffer) → Marks fbs (if is_buffer_duplicated fbs gop then pos 1 else pos 0)
  marks fbs = elim (Bool-cases (is_buffer_duplicated fbs gop)) [
    | inl d ↦ rw d (inl (refl, duplicated-HasBuffer fbs gop d))
    | inr d ↦ rw d (inr (refl, HasBuffer-duplicated fbs gop d))
  ]

  small :
      (mode : ℕ)
      → fbmode_is_supported (info_of mode) ≡ false
      → ((info_of mode).horizontal_res < 640)
        ⊎ ((info_of mode).vertical_res < 384)
        ⊎ (is_success (g.set_mode gop mode) ≡ false)
  unfolding fbmode_is_supported
  small mode h = elim (Bool-cases (leb 640 (info_of mode).horizontal_res)) [
    | inr e ↦ inl (ground arith)
    | inl e ↦ inr (inl (ground arith))
  ]

  mode_loop-Determines :
      (n : ℕ) (fbs : List FrameBuffer) (mode : ℕ)
      → Determines fbs mode (mode + n) (mode_loop g n fbs gop mode)
  unfolding mode_loop fbmode_is_supported
  mode_loop-Determines zero fbs mode =
      inr (refl, mode, omega arith, none_passed mode, inl (omega arith))
  mode_loop-Determines (suc n) fbs mode =
      let e : mode + 1 + n ≡ mode + suc n = omega arith in
      let again = mode_loop-Determines n fbs (mode + 1) in
      let rest = mode_loop g n fbs gop (mode + 1) in
      elim (Bool-cases (is_success (g.query_mode gop mode).0)) [
        | inr q ↦ inr (rw q refl, mode, omega arith, none_passed mode, inr (omega arith, q))
        | inl q ↦ elim (Bool-cases (fbmode_is_supported (info_of mode))) [
          | inr u ↦
              rw (q, u)
                (Determines-first fbs mode (mode + suc n) (mode + 1 + n) rest e (q, small mode u)
                  again)
          | inl u ↦ elim (Bool-cases (is_success (g.set_mode gop mode))) [
            | inr t ↦
                rw (q, u, t)
                  (Determines-first fbs mode (mode + suc n) (mode + 1 + n) rest e (q, inr (inr t))
                    again)
            | inl t ↦ inl (
              mode,
              omega arith,
              omega arith,
              none_passed mode,
              q,
              (ground arith, ground arith, t),
              rw (q, u, t) refl,
              rw (q, u, t) (marks fbs),
            )
          ]
        ]
      ]

-- `gop_determine_mode` takes the first mode that it does not pass over, where it passes over the modes
-- that are too small for the console, or are not set, and gives its information, if the firmware tells
-- of this mode and of all in front of it: the result is 1 where a frame buffer is on the graphics
-- output already, and 0 where none is. If all modes are passed over, or the firmware does not tell of
-- one before a mode is taken, the result is -1.
pub gop_determine_mode-Determines :
    (g : GraphicsFirmware) (fbs : List FrameBuffer) (gop : ℕ)
    → Determines g gop fbs 0 (g.max_mode gop) (gop_determine_mode g fbs gop)
unfolding gop_determine_mode
gop_determine_mode-Determines g fbs gop =
    let e : 0 + g.max_mode gop ≡ g.max_mode gop = omega arith in
    subst (λ end. Determines g gop fbs 0 end (gop_determine_mode g fbs gop)) e
      (mode_loop-Determines g gop (g.max_mode gop) fbs 0)
