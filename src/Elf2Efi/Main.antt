-- ===== src/Elf2Efi/Main.antt =====
-- The command line of the converter, and the run from the ELF file to the PE file.
use loli_loader.Base.{ℕ, ◌+◌, Option, none, some, List, [], ◌∷◌, ltb, ◌==◌, Bytes, length}
use loli_loader.Elf2Efi.{Outcome, done, exits, ◌>>=◌, ◌>>◌, assert_msg, SizedData}
use loli_loader.Elf2Efi.Parse.{Dirt, parse_elf}
use loli_loader.Elf2Efi.Relocate.{relocate_exec, apply_relocs}
use loli_loader.Elf2Efi.PeReloc.{create_pe_reloc}
use loli_loader.Elf2Efi.Output.{Output}
use loli_loader.Elf2Efi.Write.{write_pe}

-- What `getopt` returns for the options in turn.
pub data CommandOption : Type 0 where
  base : Bytes → CommandOption
  verbose : CommandOption
  help : CommandOption
  unknown : CommandOption

pub record Settings : Type 0 where
  pub base_address : ℕ
  pub verbosity : ℕ

-- The loop over the options; `strtoul` reads a number and leaves a rest.
module _ (strtoul : Bytes → ℕ × Bytes) where
  unfoldable pub option_loop : List CommandOption → Settings → Outcome Settings
  option_loop [] s = done s
  option_loop (base text ∷ rest) s = do
    assert_msg (length ((strtoul text).1) == 0)
    option_loop rest (record s { base_address = (strtoul text).0 })
  option_loop (verbose ∷ rest) s = option_loop rest (record s { verbosity = s.verbosity + 1 })
  option_loop (help ∷ rest) s = exits 0
  option_loop (unknown ∷ rest) s = exits 1

-- What `fopen` and `fread` make of a path: the file's bytes, which an empty file has not.
unfoldable pub load_binary_file : (Bytes → Option Bytes) → Bytes → Outcome SizedData
load_binary_file read path = elim (read path) [
  | none ↦ exits 1
  | some s ↦ (do assert_msg (ltb 0 (length s)); done (record { raw_data = s; size = length s }))
]

-- What the blocks of the run hold before they are written.
pub record Memory : Type 0 where
  pub parsed : Dirt
  pub moved : ℕ → ℕ → ℕ
  pub table : ℕ → ℕ
  pub stack : ℕ → ℕ

-- The conversion of a file's bytes.
unfoldable pub convert_file : Memory → Option Output → SizedData → ℕ → Outcome Output
unfolding parse_elf relocate_exec apply_relocs create_pe_reloc write_pe
convert_file memory out elf base_address = do
  exec ← parse_elf memory.parsed elf
  moved ← relocate_exec memory.moved exec base_address
  applied ← apply_relocs moved
  pe_relocs ← create_pe_reloc memory.table base_address applied.relocs
  write_pe memory.stack out applied base_address pe_relocs

-- The arguments behind the options are the input and the output.
abbrev pub two_arguments : List Bytes → Outcome (Bytes × Bytes)
two_arguments [] = exits 1
two_arguments (input ∷ []) = exits 1
two_arguments (input ∷ output ∷ []) = done (input, output)
two_arguments (input ∷ output ∷ more ∷ rest) = exits 1

unfoldable pub main :
    (Bytes → ℕ × Bytes)
    → (Bytes → Option Bytes)
    → Memory
    → (Bytes → Option Output)
    → List CommandOption
    → List Bytes
    → Outcome Output
unfolding option_loop load_binary_file convert_file
main strtoul read memory create options arguments = do
  settings ← option_loop strtoul options (record { base_address = 0x10000000; verbosity = 0 })
  paths ← two_arguments arguments
  elf ← load_binary_file read (paths.0)
  convert_file memory (create (paths.1)) elf settings.base_address
