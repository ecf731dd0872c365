-- ===== src/Elf2Efi/Dynamic/Prefix.antt =====
-- How far the lookup of a tag reads.
use loli_loader.Base.{
  ℕ, zero, suc, ◌+◌, ◌/◌, ◌%◌, ◌^◌, ◌≤◌, ◌≡◌, refl, sym, ap, ◌∙◌, [], ◌∷◌, arith, Bytes, length,
  take, drop, ltb, take-take, Bool-cases, inl, inr,
}
use loli_loader.Elf2Efi.{bytes_at, SizedData, data_at_offset}
use loli_loader.Elf2Efi.Elf.{Segment}
use loli_loader.Elf2Efi.Dynamic.{lookup_loop, dynamic_lookup_tag}

window : (i n k : ℕ) (s : Bytes) → i + n ≤ k → take n (drop i (take k s)) ≡ take n (drop i s)
window zero n k s h = take-take n k s (omega arith)
window (suc i) n zero s h = absurd (omega arith)
window (suc i) n (suc k) [] h = refl
window (suc i) n (suc k) (c ∷ s) h = window i n k s (omega arith)

bytes_at-window :
    (s t : Bytes) (i n k : ℕ)
    → i + n ≤ k
    → length s ≡ length t
    → take k s ≡ take k t
    → bytes_at s i n ≡ bytes_at t i n
unfolding bytes_at
bytes_at-window s t i n k h l e =
    let same : take n (drop i s) ≡ take n (drop i t) =
      sym (window i n k s h) ∙ ap (λ x. take n (drop i x)) e ∙ window i n k t h in
    rw (l, same) refl

lookup_loop-prefix :
    (d e : SizedData) (tag n i k : ℕ)
    → d.size ≡ e.size
    → length d.raw_data ≡ length e.raw_data
    → take k d.raw_data ≡ take k e.raw_data
    → i + n + 15 ≤ k
    → lookup_loop d tag n i ≡ lookup_loop e tag n i
unfolding lookup_loop data_at_offset
lookup_loop-prefix d e tag zero i k z l w h = refl
lookup_loop-prefix d e tag (suc n) i k z l w h =
    elim (Bool-cases (ltb ((i + 16) % 2 ^ 64) e.size)) [
      | inl inside ↦
          rw
            (
              z,
              inside,
              bytes_at-window d.raw_data e.raw_data i 16 k (omega arith) l w,
              lookup_loop-prefix d e tag n (suc i) k z l w (omega arith),
            )
            refl
      | inr outside ↦ rw (z, outside) refl
    ]

-- For a dynamic segment of n entries, dynamic_lookup_tag depends on the first n + 15 bytes of the segment
-- only: whatever stands behind them, the entries from the byte n + 15 on among them, is never seen.
pub dynamic_lookup_tag-prefix :
    (d e : Segment) (tag : ℕ)
    → d.filesize ≡ e.filesize
    → d.contents.size ≡ e.contents.size
    → length d.contents.raw_data ≡ length e.contents.raw_data
    → take (d.filesize / 16 + 15) d.contents.raw_data
      ≡ take (d.filesize / 16 + 15) e.contents.raw_data
    → dynamic_lookup_tag d tag ≡ dynamic_lookup_tag e tag
unfolding dynamic_lookup_tag
dynamic_lookup_tag-prefix d e tag f z l w = rw (← f) (
    lookup_loop-prefix d.contents e.contents tag (d.filesize / 16) 0 (d.filesize / 16 + 15) z l w
      (omega arith))
