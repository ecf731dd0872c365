-- ===== src/File/Tests.antt =====
-- The theorems on src/file.c at concrete inputs, among them a path with every kind of separator.
use loli_loader.Base.{ℕ, ◌+◌, ◌^◌, ◌≡◌, refl, true, false, some, [], arith, Bytes, codes}
use loli_loader.Base.Int.{negsuc}
use loli_loader.Run.{done}
use loli_loader.CString.Wide.{widened}
use loli_loader.Memory.{Mem, IsCString, Holds, SameOutside, terminated}
use loli_loader.Memory.Image.{image}
use loli_loader.File.{fix_path}
use loli_loader.File.Access.{
  FileFirmware, Live, file_open, file_open_str, file_get_info, file_get_size, file_load,
}
use loli_loader.File.Access.Sized.{opened_file, sized, file_get_size-sized}
use loli_loader.File.Path.{squeezed, IsFixed, fix_path-squeezed}

abbrev path : Bytes
path = codes "a//b/\\c"

sample_run : squeezed false path ≡ codes "a\\b\\c"
sample_run = refl

path-IsCString : IsCString (image (terminated path)) 0 path
path-IsCString = record { held = ground arith; nonzero = ground arith }

fix_path-squeezed_example :
    (w' : Mem) × (fix_path 9 (image (terminated path)) 0 ≡ some w')
    × Holds w' 0 (terminated (squeezed false path))
    × IsFixed false (squeezed false path)
    × SameOutside 0 8 (image (terminated path)) w'
fix_path-squeezed_example =
    fix_path-squeezed path 9 (image (terminated path)) 0 path-IsCString (omega arith)

-- A file of 3 bytes, told to have `size`.
abbrev three_bytes : (size : ℕ) → FileFirmware
three_bytes size = record {
  open_file = λ p. (0, 7);
  info_size = λ file. (2 ^ 63 + 5, 100);
  get_info = λ file n. (0, record { file_size = size; attribute = 0 });
  read = λ file n. (3, codes "abc");
  allocate_pool = λ n. 0;
}

-- A file whose information the firmware does not tell.
abbrev untold : FileFirmware
untold = record (three_bytes 3) { info_size = λ file. (2 ^ 63 + 7, 0) }

abbrev idle : Live
idle = record { files = 0; blocks = 0 }

file_get_size-sized_example :
    file_get_size untold true idle path
    ≡ done (sized untold idle (opened_file untold (widened true path)))
file_get_size-sized_example = file_get_size-sized untold (λ n. refl) true idle path

stays_open :
    sized untold idle (opened_file untold (widened true path))
    ≡ (negsuc 0, record { files = 1; blocks = 0 })
stays_open = refl

directory_is_kept :
    file_load
      (record (three_bytes 3) {
        get_info = λ file n. (0, record { file_size = 0; attribute = 16 });
      })
      true
      idle
      path
      []
    ≡ done (negsuc 0, [], record { files = 1; blocks = 1 })
unfolding file_load file_open_str file_open file_get_info
directory_is_kept = refl
