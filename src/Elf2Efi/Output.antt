-- ===== src/Elf2Efi/Output.antt =====
-- The writing of chunks and of padding to the output file.
pub mod Extended
use loli_loader.Base.{
  ℕ, zero, suc, ◌+◌, ◌-◌, ◌*◌, ◌/◌, ◌%◌, ◌^◌, Bool, true, false, Option, none, some, List, [], ◌∷◌,
  ◌++◌, ltb, leb, ◌==◌, if◌then◌else◌, Bytes, codes, length, take, get_elem?,
}
use loli_loader.Elf2Efi.{
  Outcome, done, exits, fault, ◌>>=◌, ◌>>◌, assert_msg, divisor, align_up, align_down, bytes_at,
  replicate, fresh, SizedData,
}

-- The output: what is written, and how many bytes more the medium takes.
pub record Output : Type 0 where
  pub written : Bytes
  pub room : ℕ

-- `fwrite` writes all of the bytes or fails.
unfoldable pub fwrite : Output → Bytes → Option Output
fwrite fp s =
    if leb (length s) fp.room
    then some (record { written = fp.written ++ s; room = fp.room - length s })
    else none

abbrev pub written_or_exit : Option Output → Outcome Output
written_or_exit none = exits 1
written_or_exit (some fp) = done fp

unfoldable pub write_chunk : Output → Bytes → ℕ → Outcome Output
unfolding bytes_at fwrite
write_chunk fp s size =
    if size == 0 then done fp else (do chunk ← bytes_at s 0 size; written_or_exit (fwrite fp chunk))

-- The rounds of the loop; a round more than the fuel counts as a fault.
unfoldable pub padding_loop : ℕ → Output → ℕ → Outcome Output
unfolding write_chunk replicate
padding_loop zero fp size = if size == 0 then done fp else fault
padding_loop (suc fuel) fp size =
    let next = padding_loop fuel in
    if size == 0 then done fp else (do
      let written = if ltb 64 size then 64 else size
      fp' ← write_chunk fp (replicate 64 0) written
      next fp' (size - written))

unfoldable pub write_padding : Output → ℕ → Outcome Output
unfolding padding_loop
write_padding fp size = padding_loop size fp size
