-- ===== src/Elf2Efi/PeReloc.antt =====
-- The base relocation table: blocks of a page each, with the size filled in when the block is complete.
pub mod Table
pub mod Raw
pub mod Steps
pub mod RoundTrip
pub mod Readable
use loli_loader.Base.{
  ℕ, zero, suc, ◌+◌, ◌-◌, ◌/◌, ◌*◌, ◌%◌, ◌^◌, List, [], ◌∷◌, ◌++◌, ltb, leb, ◌==◌, if◌then◌else◌,
  Bytes, length,
}
use loli_loader.Elf2Efi.{
  Outcome, done, exits, fault, ◌>>=◌, ◌>>◌, align_down, to_le, store, SizedData,
}
use loli_loader.Elf2Efi.Executable.{ExecReloc}
use loli_loader.Elf2Efi.Buffer.{DynamicBuffer, empty_dynamic_buffer, buffer_append}

pub record Pe32BaseRelocBlock : Type 0 where
  pub rva : ℕ
  pub size : ℕ

unfoldable pub block_bytes : Pe32BaseRelocBlock → Bytes
unfolding to_le
block_bytes block = to_le 4 block.rva ++ to_le 4 block.size

-- The `|` of two numbers, in its low `w` bits.
unfoldable pub bit_or : ℕ → ℕ → ℕ → ℕ
bit_or zero a b = 0
bit_or (suc w) a b = (if a % 2 + b % 2 == 0 then 0 else 1) + 2 * bit_or w (a / 2) (b / 2)

-- In the 16 bits of an entry.
unfoldable pub pe32_base_reloc_raw : ℕ → ℕ → ℕ
unfolding bit_or
pe32_base_reloc_raw type offset = bit_or 16 (type * 2 ^ 12) offset

abbrev pub pe32_image_rel_based_dir64 : ℕ
pe32_image_rel_based_dir64 = 10

pub record RelocState : Type 0 where
  pub buf : DynamicBuffer
  pub block_offset : ℕ
  pub block_vaddr : ℕ
  pub block_entries : ℕ

abbrev pub start_state : RelocState
start_state = record {
  buf = empty_dynamic_buffer;
  block_offset = 0;
  block_vaddr = 0;
  block_entries = 0;
}

-- The size of the current block, of 8 bytes and 2 for each entry, is stored behind its `rva`.
unfoldable pub backfill : RelocState → Outcome DynamicBuffer
unfolding store to_le
backfill s = do
  filled ←
      store s.buf.data_block (s.block_offset + 4) (to_le 4 ((s.block_entries * 2 + 8) % 2 ^ 32))
  let buf : DynamicBuffer = s.buf
  done (record buf { data_block = filled })

-- `block` is NULL while nothing is allocated.
unfoldable pub new_block : (ℕ → ℕ) → ℕ → RelocState → ℕ → Outcome RelocState
unfolding backfill buffer_append block_bytes
new_block dirt base_address s lower_bound = do
  buf ← if s.buf.allocated_size == 0 then done s.buf else backfill s
  buf' ←
      buffer_append dirt buf
        (block_bytes (record { rva = (lower_bound + 2 ^ 64 - base_address) % 2 ^ 32; size = 0 }))
  done (record {
    buf = buf';
    block_offset = buf.effective_size;
    block_vaddr = lower_bound;
    block_entries = 0;
  })

unfoldable pub add_reloc : (ℕ → ℕ) → ℕ → RelocState → ExecReloc → Outcome RelocState
unfolding new_block align_down buffer_append to_le pe32_base_reloc_raw
add_reloc dirt base_address s reloc = do
  let lower_bound = align_down reloc.vaddr 4096
  s' ← if ltb s.block_vaddr lower_bound then new_block dirt base_address s lower_bound else done s
  let offset = (reloc.vaddr + 2 ^ 64 - s'.block_vaddr) % 2 ^ 64
  buf ← buffer_append dirt s'.buf (to_le 2 (pe32_base_reloc_raw pe32_image_rel_based_dir64 offset))
  done (record s' { buf = buf; block_entries = suc s'.block_entries })

unfoldable pub add_relocs : (ℕ → ℕ) → ℕ → RelocState → List ExecReloc → Outcome RelocState
unfolding add_reloc
add_relocs dirt base_address s [] = done s
add_relocs dirt base_address s (reloc ∷ rest) = do
  s' ← add_reloc dirt base_address s reloc
  add_relocs dirt base_address s' rest

unfoldable pub create_pe_reloc : (ℕ → ℕ) → ℕ → List ExecReloc → Outcome SizedData
unfolding add_relocs backfill
create_pe_reloc dirt base_address relocs = do
  s ← add_relocs dirt base_address start_state relocs
  buf ← if s.block_entries == 0 then done s.buf else backfill s
  done (record { raw_data = buf.data_block; size = buf.effective_size })
