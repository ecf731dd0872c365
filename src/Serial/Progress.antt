-- ===== src/Serial/Progress.antt =====
-- A write to devices that take a byte at least at every call.
use loli_loader.Base.{
  ℕ, zero, suc, ◌+◌, ◌-◌, ◌^◌, ◌<◌, ◌≤◌, ◌≡◌, refl, sym, ◌∙◌, ap, true, some, List, [], ◌∷◌, ◌++◌,
  arith, ◌==◌, Bytes, length, take, drop, Bool-cases, take-drop, drop-drop, drop_all, inl, inr, map,
}
use loli_loader.Serial.{sub_size, remain_loop, serial_write}

-- The documented behaviour of a device's write, and that it makes progress: it takes some of the bytes
-- that it is given, and no more than these.
abbrev pub Progresses : (ℕ → ℕ → ℕ) → Type 0
Progresses accepts = (n size : ℕ) → 0 < size → (1 ≤ accepts n size) × (accepts n size ≤ size)

abbrev pub AllProgress : List (ℕ → ℕ → ℕ) → Type 0
AllProgress [] = Unit
AllProgress (d ∷ ds) = Progresses d × AllProgress ds

remain_loop-rest :
    (accepts : ℕ → ℕ → ℕ) (f n : ℕ) (text : Bytes) (remain : ℕ)
    → Progresses accepts
    → length text < 2 ^ 64
    → remain ≤ length text
    → remain < f
    → remain_loop accepts f n text remain ≡ some (drop (length text - remain) text)
unfolding remain_loop
remain_loop-rest accepts zero n text remain p b l h = absurd (omega arith)
remain_loop-rest accepts (suc f) n text remain p b l h = elim (Bool-cases (remain == 0)) [
  | inl z ↦
      let e : length text - remain ≡ length text = ground arith in
      rw (z, e, drop_all text (length text) (omega arith)) refl
  | inr z ↦
      let w = accepts n remain in
      let (lo, hi) = p n remain (ground arith) in
      let e : sub_size remain w ≡ remain - w = omega arith in
      let d : length text - (remain - w) ≡ length text - remain + w = omega arith in
      rw
        (
          z,
          e,
          remain_loop-rest accepts f (n + 1) text (remain - w) p b (omega arith) (omega arith),
          d,
        )
        (ap some (
          ap (λ r. take w (drop (length text - remain) text) ++ r)
            (sym (drop-drop w (length text - remain) text))
          ∙ take-drop w (drop (length text - remain) text)))
]

-- If each device takes at least a byte at every write, and no more than it is given, and the fuel
-- is more than the text has bytes: each of the devices gets the whole text, each byte once and in
-- order, in whatever pieces it takes it. So no device is written to more often than the text has
-- bytes.
pub serial_write-all :
    (ds : List (ℕ → ℕ → ℕ)) (f : ℕ) (text : Bytes)
    → length text < 2 ^ 64
    → length text < f
    → AllProgress ds
    → serial_write true ds f text ≡ some (map (λ d. text) ds)
unfolding serial_write
serial_write-all [] f text b h p = refl
serial_write-all (d ∷ ds) f text b h (p, ps) =
    let z : length text - length text ≡ 0 = omega arith in
    let e = remain_loop-rest d f 0 text (length text) p b (omega arith) h in
    rw (e, serial_write-all ds f text b h ps, z) refl
