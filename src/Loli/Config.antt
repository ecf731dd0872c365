-- ===== src/Loli/Config.antt =====
-- src/loli.c, load_cfg: the text of the configuration, from its file.
pub mod Reads
mod Tests
use loli_loader.Base.{
  ℕ, ◌+◌, Bool, [], ◌∷◌, ◌++◌, ltb, if◌then◌else◌, Bytes, codes, length, take, drop,
}
use loli_loader.Base.Int.{is_negative, pos_part}
use loli_loader.Run.{Run, done, fault, ◌>>=◌, panic}
use loli_loader.File.Access.{FileFirmware, Live, take_block, file_get_size, file_load}
use loli_loader.Elf2Efi.{fresh}

abbrev pub loli_cfg : Bytes
loli_cfg = codes "loli.cfg"

-- `cfg[i] = '\0'`
abbrev pub ended : Bytes → ℕ → Run Bytes
ended cfg i = if ltb i (length cfg) then done (take i cfg ++ 0 ∷ drop (i + 1) cfg) else fault

-- What the firmware tells may change from the sizing of the file, `before`, to its loading, `after`;
-- `dirt` is what the block holds at first.
unfoldable pub load_cfg : (before after : FileFirmware) → (ℕ → ℕ) → Bool → Live → Run (Bytes × Live)
unfolding fresh file_get_size file_load
load_cfg before after dirt signed live = do
  r ← file_get_size before signed live loli_cfg
  if is_negative (r.0) then panic "Can't retrive size of configuration" else (do
    held ← take_block before (r.1) (pos_part (r.0) + 1)
    q ← file_load after signed held loli_cfg (fresh dirt (pos_part (r.0) + 1))
    if is_negative (q.0)
        then panic "Can't load configuration"
        else (do cfg ← ended (q.1) (pos_part (q.0)); done (cfg, q.2)))
