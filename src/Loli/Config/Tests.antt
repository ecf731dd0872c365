-- ===== src/Loli/Config/Tests.antt =====
-- The theorem on load_cfg where the file gets shorter between the calls.
use loli_loader.Base.{ℕ, ◌+◌, ◌^◌, ◌≡◌, refl, true, arith, [], ◌∷◌, ◌++◌, codes}
use loli_loader.Run.{done}
use loli_loader.File.Access.{FileFirmware}
use loli_loader.Elf2Efi.{fresh}
use loli_loader.Loli.Config.{load_cfg}
use loli_loader.Loli.Config.Reads.{load_cfg-Reads}

-- The file of 3 bytes, told to have `size`.
abbrev three_bytes : (size : ℕ) → FileFirmware
three_bytes size = record {
  open_file = λ p. (0, 7);
  info_size = λ file. (2 ^ 63 + 5, 100);
  get_info = λ file n. (0, record { file_size = size; attribute = 0 });
  read = λ file n. (3, codes "abc");
  allocate_pool = λ n. 0;
}

load_cfg-Reads_example :
    load_cfg (three_bytes 4) (three_bytes 3) (λ i. 9) true (record { files = 0; blocks = 0 })
    ≡ done (codes "abc" ++ 0 ∷ 9 ∷ [], record { files = 0; blocks = 1 })
unfolding fresh
load_cfg-Reads_example =
    load_cfg-Reads (three_bytes 4) (three_bytes 3) (λ i. 9) true (record { files = 0; blocks = 0 })
      7 7 (record { file_size = 4; attribute = 0 }) (record { file_size = 3; attribute = 0 })
      (codes "abc") (λ n. refl) (λ n. refl)
      (record { is_opened = refl; is_told = refl; is_plain = refl; is_small = omega arith })
      (record { is_opened = refl; is_told = refl; is_plain = refl; is_small = omega arith }) refl
      (omega arith)
