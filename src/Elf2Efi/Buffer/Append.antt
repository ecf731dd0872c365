-- ===== src/Elf2Efi/Buffer/Append.antt =====
-- `buffer_append` stores within the block and keeps what was appended before.
use loli_loader.Base.{
  ℕ, ◌+◌, ◌*◌, ◌%◌, ◌^◌, ◌≤◌, ◌<◌, ◌≡◌, refl, ap, ◌∙◌, ◌++◌, arith, leb, Bytes, length, take, drop,
  length-append, take-append, take-append_left, length-drop_add, length-take_le, Bool-cases, inl,
  inr,
}
use loli_loader.Elf2Efi.{done, align_up, align_down, store, fresh}
use loli_loader.Elf2Efi.Block.{store_lem, length-fresh}
use loli_loader.Elf2Efi.Buffer.{DynamicBuffer, empty_dynamic_buffer, grow, buffer_append}

-- The bytes that were appended.
abbrev pub content : DynamicBuffer → Bytes
content b = take b.effective_size b.data_block

-- The block has the size that the buffer keeps, the appended bytes are in it, and less than 1024 bytes
-- more than twice their number are allocated.
pub record IsBuffer (b : DynamicBuffer) : Type 0 where
  pub held : length b.data_block ≡ b.allocated_size
  pub fits : b.effective_size ≤ b.allocated_size
  pub slack : b.allocated_size ≤ 2 * b.effective_size + 1023

pub empty-IsBuffer : IsBuffer empty_dynamic_buffer
empty-IsBuffer = record { held = refl; fits = omega arith; slack = omega arith }

-- A chunk of 1024 bytes holds what is appended, with less than 1024 to spare.
chunk : (n : ℕ) → n < 2 ^ 63 → (n ≤ align_up n 1024) × (align_up n 1024 ≤ n + 1023)
unfolding align_up align_down
chunk n h = (omega arith, omega arith)

grow_lem :
    (dirt : ℕ → ℕ) (b : DynamicBuffer) (n : ℕ)
    → IsBuffer b
    → b.effective_size + n < 2 ^ 62
    → (length (grow dirt b n).data_block ≡ (grow dirt b n).allocated_size)
      × (b.effective_size + n ≤ (grow dirt b n).allocated_size)
      × ((grow dirt b n).allocated_size ≤ b.allocated_size + n + 1023)
      × (take b.effective_size (grow dirt b n).data_block ≡ content b)
unfolding grow
grow_lem dirt b n h l =
    let more = align_up n 1024 in
    let (low, high) = chunk n (omega (arith, h.held)) in
    let e : (b.allocated_size + more) % 2 ^ 64 ≡ b.allocated_size + more = omega (arith, h.slack) in
    let tail = fresh (λ i. dirt (b.allocated_size + i)) more in
    let len : length (b.data_block ++ tail) ≡ b.allocated_size + more = omega (
      arith,
      length-append b.data_block tail,
      length-fresh (λ i. dirt (b.allocated_size + i)) more,
      h.held,
    ) in
    (
      rw e len,
      omega (arith, h.fits),
      omega arith,
      take-append_left b.effective_size b.data_block tail (omega (arith, h.held, h.fits)),
    )

-- The bytes in front of a place, and what is stored there.
pub take-store :
    (s bs : Bytes) (off n : ℕ)
    → off ≤ length s
    → n ≡ off + length bs
    → (rest : Bytes) → take n (take off s ++ bs ++ rest) ≡ take off s ++ bs
take-store s bs off n h e rest =
    take-append (take off s ++ bs) rest n
      (omega (arith, length-append (take off s) bs, length-take_le off s h))

-- What `buffer_append` leaves.
pub record Appended (b : DynamicBuffer) (s : Bytes) (b' : DynamicBuffer) : Type 0 where
  pub is_buffer : IsBuffer b'
  pub content_eq : content b' ≡ content b ++ s
  pub size_eq : b'.effective_size ≡ b.effective_size + length s

append_within :
    (g b : DynamicBuffer) (s : Bytes) (n : ℕ)
    → n ≡ b.effective_size + length s
    → length g.data_block ≡ g.allocated_size
    → b.effective_size + length s ≤ g.allocated_size
    → g.allocated_size ≤ 2 * (b.effective_size + length s) + 1023
    → take b.effective_size g.data_block ≡ content b
    → (block : Bytes) × (store g.data_block b.effective_size s ≡ done block)
      × Appended b s (record g { data_block = block; effective_size = n })
append_within g b s n e held fits slack before =
    let off = b.effective_size in
    let rest = drop (off + length s) g.data_block in
    let block = take off g.data_block ++ s ++ rest in
    let len : length block ≡ length g.data_block = omega (
      arith,
      length-append (take off g.data_block ++ s) rest,
      length-append (take off g.data_block) s,
      length-take_le off g.data_block (omega arith),
      length-drop_add (off + length s) g.data_block (omega arith),
    ) in
    (
      block,
      store_lem g.data_block off s (omega arith),
      record {
        is_buffer = record { held = len ∙ held; fits = omega arith; slack = omega arith };
        content_eq = take-store g.data_block s off n (omega arith) e rest ∙ ap (λ t. t ++ s) before;
        size_eq = e;
      },
    )

-- While the sizes stay below 2 ^ 62, buffer_append never stores outside the allocated block: it returns
-- a buffer that holds the appended bytes behind the old content, in a block of the size that it
-- keeps, which has less than 1024 bytes more than twice the content.
pub buffer_append-Appended :
    (dirt : ℕ → ℕ) (b : DynamicBuffer) (s : Bytes)
    → IsBuffer b
    → b.effective_size + length s < 2 ^ 62
    → (b' : DynamicBuffer) × (buffer_append dirt b s ≡ done b') × Appended b s b'
unfolding buffer_append
buffer_append-Appended dirt b s h l =
    let n = (b.effective_size + length s) % 2 ^ 64 in
    let e : n ≡ b.effective_size + length s = omega arith in
    elim (Bool-cases (leb b.allocated_size n)) [
      | inl full ↦
          let (len, fits, high, same) = grow_lem dirt b (length s) h l in
          let (block, stored, a) =
            append_within (grow dirt b (length s)) b s n e len fits (ground (arith, h.fits)) same in
          (_, rw (full, stored) refl, a)
      | inr room ↦
          let (block, stored, a) =
            append_within b b s n e h.held (ground arith) (omega (arith, h.slack)) refl in
          (_, rw (room, stored) refl, a)
    ]
