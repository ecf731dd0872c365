-- ===== src/Elf2Efi/PeReloc/Raw.antt =====
-- The `|` of an entry's type and offset is their sum.
use native.Mathlib.Nat.{mul_assoc}
use loli_loader.Base.{
  ℕ, zero, suc, ◌+◌, ◌*◌, ◌/◌, ◌%◌, ◌^◌, ◌<◌, ◌≡◌, refl, arith, ◌==◌, if◌then◌else◌,
}
use loli_loader.Elf2Efi.PeReloc.{bit_or, pe32_base_reloc_raw}

low_bit : (b : ℕ) → (if b % 2 == 0 then 0 else 1) ≡ b % 2
low_bit b = ground arith

bit_or_low :
    (k w n a b : ℕ) → n ≡ k + w → b < 2 ^ k → bit_or n (2 ^ k * a) b ≡ 2 ^ k * bit_or w a 0 + b
unfolding bit_or
bit_or_low zero w n a b e h =
    let z : b ≡ 0 = omega arith in
    let one : 2 ^ 0 * a ≡ a = omega arith in
    let same : n ≡ w = omega arith in rw (z, one, same) (omega arith)
bit_or_low (suc k) w zero a b e h = absurd (omega arith)
bit_or_low (suc k) w (suc n) a b e h =
    let pw : 2 ^ suc k ≡ 2 * 2 ^ k = omega arith in
    let t = 2 ^ k * a in
    let u = 2 ^ k * bit_or w a 0 in
    let double : 2 ^ suc k * a ≡ 2 * t = rw pw (mul_assoc 2 (2 ^ k) a) in
    let double_or : 2 ^ suc k * bit_or w a 0 ≡ 2 * u = rw pw (mul_assoc 2 (2 ^ k) (bit_or w a 0)) in
    let half : 2 * t / 2 ≡ t = omega arith in
    let bits : 2 * t % 2 + b % 2 ≡ b % 2 = omega arith in
    rw
      (
        double,
        double_or,
        half,
        bits,
        low_bit b,
        bit_or_low k w n a (b / 2) (omega arith) (grind arith),
      )
      (omega arith)

pub pe32_base_reloc_raw_lem : (o : ℕ) → o < 4096 → pe32_base_reloc_raw 10 o ≡ 40960 + o
unfolding pe32_base_reloc_raw bit_or
pe32_base_reloc_raw_lem o h = bit_or_low 12 4 16 10 o refl h
