-- ===== src/Elf2Efi/Output/Extended.antt =====
-- What chunks and padding add to the output.
use loli_loader.Base.{
  ℕ, zero, suc, ◌+◌, ◌-◌, ◌≤◌, ◌≡◌, refl, sym, ap, ap₂, ◌∙◌, some, [], ◌∷◌, ◌++◌, arith, ltb-false,
  lt→ltb, leb-true, ==_false, Bytes, length, take, length-append, length-take_le, dec_lt,
}
use mathlib.Core.List.{append_assoc, append-nil}
use loli_loader.Elf2Efi.{Outcome, done, replicate}
use loli_loader.Elf2Efi.Block.{bytes_at_lem, length-replicate}
use loli_loader.Elf2Efi.Output.{Output, fwrite, write_chunk, padding_loop, write_padding}

-- The output with some bytes more.
abbrev pub extended : Output → Bytes → Output
extended fp s = record { written = fp.written ++ s; room = fp.room - length s }

pub extended-extended :
    (fp : Output) (s t : Bytes) → extended (extended fp s) t ≡ extended fp (s ++ t)
extended-extended fp s t =
    ap₂ (λ (w : Bytes) (r : ℕ). record { written = w; room = r }) (append_assoc fp.written s t)
      (omega (arith, length-append s t))

pub extended-nil : (fp : Output) → extended fp [] ≡ fp
extended-nil fp =
    ap₂ (λ (w : Bytes) (r : ℕ). record { written = w; room = r }) (append-nil fp.written)
      (omega arith)

fwrite_lem : (fp : Output) (s : Bytes) → length s ≤ fp.room → fwrite fp s ≡ some (extended fp s)
unfolding fwrite
fwrite_lem fp s h = rw (leb-true (length s) fp.room h) refl

-- A chunk within its block that the output has room for is written.
pub write_chunk_lem :
    (fp : Output) (s : Bytes) (n : ℕ)
    → n ≤ length s
    → n ≤ fp.room
    → write_chunk fp s n ≡ done (extended fp (take n s))
unfolding write_chunk
write_chunk_lem fp s zero h r = ap (λ o. done o) (sym (extended-nil fp))
write_chunk_lem fp s (suc n) h r =
    let l = length-take_le (suc n) s h in
    rw
      (
        ==_false (suc n) 0 (omega arith),
        bytes_at_lem s 0 (suc n) (omega arith),
        fwrite_lem fp (take (suc n) s) (omega (arith, l)),
      )
      refl

take-replicate : (k n c : ℕ) → k ≤ n → take k (replicate n c) ≡ replicate k c
unfolding replicate
take-replicate zero n c h = refl
take-replicate (suc k) zero c h = absurd (omega arith)
take-replicate (suc k) (suc n) c h = ap (λ t. c ∷ t) (take-replicate k n c (omega arith))

replicate-add : (k n m c : ℕ) → m ≡ k + n → replicate k c ++ replicate n c ≡ replicate m c
unfolding replicate
replicate-add zero n m c h = let e : n ≡ m = omega arith in ap (λ x. replicate x c) e
replicate-add (suc k) n zero c h = absurd (omega arith)
replicate-add (suc k) n (suc m) c h = ap (λ t. c ∷ t) (replicate-add k n m c (omega arith))

padding_round :
    (fp : Output) (k : ℕ)
    → k ≤ 64
    → k ≤ fp.room
    → write_chunk fp (replicate 64 0) k ≡ done (extended fp (replicate k 0))
padding_round fp k h r =
    write_chunk_lem fp (replicate 64 0) k (omega (arith, length-replicate 64 0)) r
    ∙ ap (λ t. done (extended fp t)) (take-replicate k 64 0 h)

padding_rest :
    (fp : Output) (k n : ℕ) {o : Outcome Output}
    → k ≤ n
    → o ≡ done (extended (extended fp (replicate k 0)) (replicate (n - k) 0))
    → o ≡ done (extended fp (replicate n 0))
padding_rest fp k n le rest =
    rest
    ∙ ap (λ p. done p)
        (extended-extended fp (replicate k 0) (replicate (n - k) 0)
          ∙ ap (λ t. extended fp t) (replicate-add k (n - k) n 0 (omega arith)))

padding_loop_lem :
    (fuel : ℕ) (fp : Output) (n : ℕ)
    → n ≤ fuel
    → n ≤ fp.room
    → padding_loop fuel fp n ≡ done (extended fp (replicate n 0))
unfolding padding_loop replicate
padding_loop_lem zero fp zero h r = ap (λ o. done o) (sym (extended-nil fp))
padding_loop_lem zero fp (suc n) h r = absurd (omega arith)
padding_loop_lem (suc fuel) fp zero h r = ap (λ o. done o) (sym (extended-nil fp))
padding_loop_lem (suc fuel) fp (suc n) h r =
    let more = ==_false (suc n) 0 (omega arith) in
    elim (dec_lt 64 (suc n)) [
      | yes long ↦
          rw (more, lt→ltb 64 (suc n) long, padding_round fp 64 (omega arith) (omega arith))
            (padding_rest fp 64 (suc n) (omega arith) (
              padding_loop_lem fuel (extended fp (replicate 64 0)) (suc n - 64) (omega arith)
                (omega (arith, length-replicate 64 0))))
      | no short ↦
          rw (more, ltb-false 64 (suc n) (omega arith), padding_round fp (suc n) (omega arith) r)
            (padding_rest fp (suc n) (suc n) (omega arith) (
              padding_loop_lem fuel (extended fp (replicate (suc n) 0)) (suc n - suc n)
                (omega arith) (omega (arith, length-replicate (suc n) 0))))
    ]

-- The loop of write_padding ends: if the output has room for them, exactly as many zero bytes are
-- written as were asked for, whatever their number.
pub write_padding-extended :
    (fp : Output) (n : ℕ) → n ≤ fp.room → write_padding fp n ≡ done (extended fp (replicate n 0))
unfolding write_padding
write_padding-extended fp n h = padding_loop_lem n fp n (omega arith) h
