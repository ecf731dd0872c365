-- ===== src/Elf2Efi/Buffer.antt =====
-- The buffer that grows.
pub mod Append
use loli_loader.Base.{
  ℕ, zero, suc, ◌+◌, ◌-◌, ◌/◌, ◌*◌, ◌%◌, ◌^◌, [], ◌++◌, leb, if◌then◌else◌, Bytes, length,
}
use loli_loader.Elf2Efi.{
  Outcome, done, exits, fault, ◌>>=◌, ◌>>◌, align_up, align_down, store, fresh,
}

-- The block at `data`, NULL where `allocated_size` is 0.
pub record DynamicBuffer : Type 0 where
  pub data_block : Bytes
  pub allocated_size : ℕ
  pub effective_size : ℕ

abbrev pub empty_dynamic_buffer : DynamicBuffer
empty_dynamic_buffer = record { data_block = []; allocated_size = 0; effective_size = 0 }

-- `dirt i` is what a grown block holds at its byte `i` at first.
unfoldable pub grow : (ℕ → ℕ) → DynamicBuffer → ℕ → DynamicBuffer
unfolding align_up align_down
grow dirt buffer size =
    let more = align_up size 1024 in
    record buffer {
      data_block = buffer.data_block ++ fresh (λ i. dirt (buffer.allocated_size + i)) more;
      allocated_size = (buffer.allocated_size + more) % 2 ^ 64;
    }

unfoldable pub buffer_append : (ℕ → ℕ) → DynamicBuffer → Bytes → Outcome DynamicBuffer
unfolding grow store
buffer_append dirt buffer s = do
  let new_size = (buffer.effective_size + length s) % 2 ^ 64
  let grown : DynamicBuffer =
      if leb buffer.allocated_size new_size then grow dirt buffer (length s) else buffer
  data_block ← store grown.data_block buffer.effective_size s
  done (record grown { data_block = data_block; effective_size = new_size })
