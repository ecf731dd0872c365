-- ===== src/Loli/Config/Reads.antt =====
-- The text that load_cfg gives.
use loli_loader.Base.{
  ℕ, ◌+◌, ◌^◌, ◌<◌, ◌≤◌, ◌≡◌, refl, ◌∙◌, sym, ap, Bool, true, false, some, ◌∷◌, ◌++◌, arith, ltb,
  Bytes, length, drop, length-append, leb-true,
}
use loli_loader.Base.Slices.{take-append, drop-append, drop-drop, length-drop_add}
use loli_loader.Base.Int.{pos}
use loli_loader.Run.{done}
use loli_loader.CString.Wide.{widened}
use loli_loader.File.Access.{
  FileInfo, FileFirmware, Live, is_directory, signed64, read_into, file_get_size, file_load,
}
use loli_loader.File.Access.Sized.{
  IsRoomy, opened_file, told, one_more_block, file_get_size-sized, file_load-loaded,
}
use loli_loader.Elf2Efi.{fresh}
use loli_loader.Elf2Efi.Block.{length-fresh}
use loli_loader.Loli.Config.{loli_cfg, ended, load_cfg}

signed64-small : (n : ℕ) → n < 2 ^ 63 → signed64 n ≡ pos n
signed64-small n h = let e : ltb n (2 ^ 63) ≡ true = ground arith in rw e refl

read_into-fits :
    (buf s : Bytes) → length s ≤ length buf → read_into buf s ≡ done (s ++ drop (length s) buf)
read_into-fits buf s h = rw (leb-true (length s) (length buf) h) refl

drop-read_into :
    (s buf : Bytes) → drop (length s + 1) (s ++ drop (length s) buf) ≡ drop (length s + 1) buf
drop-read_into s buf =
    sym (drop-drop 1 (length s) (s ++ drop (length s) buf))
    ∙ ap (λ r. drop 1 r) (drop-append s (drop (length s) buf) (length s) refl)
    ∙ drop-drop 1 (length s) buf

ended-read_into :
    (s buf : Bytes)
    → length s < length buf
    → ended (s ++ drop (length s) buf) (length s) ≡ done (s ++ 0 ∷ drop (length s + 1) buf)
ended-read_into s buf h =
    let a = length-append s (drop (length s) buf) in
    let d = length-drop_add (length s) buf (omega arith) in
    let l : ltb (length s) (length (s ++ drop (length s) buf)) ≡ true = ground arith in
    rw (l, take-append s (drop (length s) buf) (length s) refl, drop-read_into s buf) refl

-- What the firmware tells of a file that is opened by a path: it is no directory, and has a size.
pub record IsFile (fp : FileFirmware) (path : Bytes) (file : ℕ) (info : FileInfo) : Type 0 where
  pub is_opened : opened_file fp path ≡ some file
  pub is_told : told fp file ≡ some info
  pub is_plain : is_directory info ≡ false
  pub is_small : info.file_size < 2 ^ 63

module _ (fp : FileFirmware) (roomy : IsRoomy fp) (signed : Bool) (live : Live) (path : Bytes)
    (file : ℕ) (info : FileInfo) (h : IsFile fp (widened signed path) file info) where
  file_get_size-file : file_get_size fp signed live path ≡ done (pos info.file_size, live)
  file_get_size-file =
      let o = h.is_opened in
      let t = h.is_told in
      file_get_size-sized fp roomy signed live path
      ∙ rw (o, t, signed64-small info.file_size h.is_small) refl

  file_load-file :
      (buf s : Bytes)
      → fp.read file info.file_size ≡ (length s, s)
      → length s ≤ length buf
      → length s < 2 ^ 63
      → file_load fp signed live path buf ≡ done (pos (length s), s ++ drop (length s) buf, live)
  file_load-file buf s r l b =
      let o = h.is_opened in
      let t = h.is_told in
      let p = h.is_plain in
      file_load-loaded fp roomy signed live path buf
      ∙ rw (o, t, p, r, read_into-fits buf s l, signed64-small (length s) b) refl

module _ (before after : FileFirmware) (dirt : ℕ → ℕ) (signed : Bool) (live : Live) (file file' : ℕ)
    (info info' : FileInfo) (s : Bytes) where
  -- Where the firmware has room for every block, loli.cfg is a file of less than 2 ^ 63 bytes when
  -- its size is asked for and when it is loaded, and the read gives bytes that are not more than that
  -- size was, load_cfg gives a block with the bytes that are read and a terminator behind them; no
  -- file stays open, and this block is all that is left in use.
  pub load_cfg-Reads :
      IsRoomy before
      → IsRoomy after
      → IsFile before (widened signed loli_cfg) file info
      → IsFile after (widened signed loli_cfg) file' info'
      → after.read file' info'.file_size ≡ (length s, s)
      → length s ≤ info.file_size
      → load_cfg before after dirt signed live
        ≡ done (s ++ 0 ∷ drop (length s + 1) (fresh dirt (info.file_size + 1)), one_more_block live)
  unfolding load_cfg
  load_cfg-Reads rb ra b a r l =
      let n = info.file_size in
      let buf = fresh dirt (n + 1) in
      let f = length-fresh dirt (n + 1) in
      let bs = b.is_small in
      rw
        (
          file_get_size-file before rb signed live loli_cfg file info b,
          rb (n + 1),
          file_load-file after ra signed (one_more_block live) loli_cfg file' info' a buf s r
              (omega arith) (omega arith),
          ended-read_into s buf (omega arith),
        )
        refl
