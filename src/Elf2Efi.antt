-- ===== src/Elf2Efi.antt =====
-- tools/elf2efi.c: the converter of the linked ELF file to a PE32+ file, an EFI application. This file
-- has what its parts share: how a run ends, blocks of bytes and their little-endian words, and the
-- blocks with a size that the parts check.
pub mod Align
pub mod Block
pub mod Elf
pub mod Dynamic
pub mod Executable
pub mod Gcd
pub mod Parse
pub mod Relocate
pub mod Buffer
pub mod PeReloc
pub mod Pe
pub mod Layout
pub mod Output
pub mod Sections
pub mod Write
pub mod Main
mod Tests
use loli_loader.Base.{
  ℕ, zero, suc, ◌+◌, ◌-◌, ◌*◌, ◌/◌, ◌%◌, ◌^◌, Bool, true, false, Option, none, some, List, [], ◌∷◌,
  ◌++◌, ltb, leb, ◌==◌, if◌then◌else◌, Bytes, length, take, drop,
}

-- A run returns, leaves by `exit` with a status, or does what C leaves undefined: it touches a byte
-- outside of a block, or divides by 0.
pub data Outcome {ℓ} (A : Type ℓ) : Type ℓ where
  done : A → Outcome A
  exits : ℕ → Outcome A
  fault : Outcome A

infixl 5 ◌>>=◌ ◌>>◌
abbrev pub ◌>>=◌ {ℓ κ} : {A : Type ℓ} {B : Type κ} → Outcome A → (A → Outcome B) → Outcome B
done a >>= f = f a
exits status >>= f = exits status
fault >>= f = fault

abbrev pub ◌>>◌ {ℓ} : {B : Type ℓ} → Outcome (Unit {0}) → Outcome B → Outcome B
m >> k = m >>= λ _. k

abbrev pub assert_msg : Bool → Outcome (Unit {0})
assert_msg true = done tt
assert_msg false = exits 1

-- A division by 0 is a fault.
abbrev pub divisor : ℕ → Outcome (Unit {0})
divisor zero = fault
divisor (suc n) = done tt

unfoldable pub align_down : ℕ → ℕ → ℕ
align_down x align = x / align * align

-- On `size_t` and `uint64_t`.
unfoldable pub align_up : ℕ → ℕ → ℕ
unfolding align_down
align_up x align = align_down ((x + align - 1) % 2 ^ 64) align

-- The `n` low bytes of a number, and the number of some bytes, on a little-endian host.
unfoldable pub to_le : ℕ → ℕ → Bytes
to_le zero v = []
to_le (suc n) v = v % 256 ∷ to_le n (v / 256)

unfoldable pub le : Bytes → ℕ
le [] = 0
le (b ∷ s) = b + 256 * le s

-- The number in the `width` bytes at `off` of a structure.
abbrev pub field : ℕ → ℕ → Bytes → ℕ
field off width s = le (take width (drop off s))

-- The `n` bytes of a block from `off` on, and a block with other bytes there.
unfoldable pub bytes_at : Bytes → ℕ → ℕ → Outcome Bytes
bytes_at s off n = if leb (off + n) (length s) then done (take n (drop off s)) else fault

unfoldable pub store : Bytes → ℕ → Bytes → Outcome Bytes
store s off bs =
    if leb (off + length bs) (length s)
    then done (take off s ++ bs ++ drop (off + length bs) s)
    else fault

unfoldable pub replicate : ℕ → ℕ → Bytes
replicate zero c = []
replicate (suc n) c = c ∷ replicate n c

-- What `malloc` returns: a block that holds what was there before.
unfoldable pub fresh {ℓ} : {A : Type ℓ} → (ℕ → A) → ℕ → List A
fresh dirt zero = []
fresh dirt (suc n) = dirt 0 ∷ fresh (λ i. dirt (suc i)) n

-- The name of the data, which only messages show, is left out.
pub record SizedData : Type 0 where
  pub raw_data : Bytes
  pub size : ℕ

-- A pointer into the data is its offset.
unfoldable pub data_at_offset : SizedData → ℕ → ℕ → Outcome ℕ
data_at_offset d off n = do assert_msg (ltb ((off + n) % 2 ^ 64) d.size); done off
