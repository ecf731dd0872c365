-- ===== src/Loli/Entry/Tests.antt =====
-- Runs of load_and_validate_entry: an entry that loads, and each label that an entry goes to.
use loli_loader.Base.{
  ℕ, ◌+◌, ◌^◌, ◌≡◌, refl, Bool, false, true, none, some, [], ◌∷◌, ◌==◌, if◌then◌else◌, Bytes, codes,
  length,
}
use loli_loader.Run.{done, fault}
use loli_loader.Extlinux.{extlinux_get_value}
use loli_loader.Initrd.Install.{device_path, load_file2}
use loli_loader.Loli.Entry.{BootFirmware, Machine, load_and_validate_entry}

abbrev entry : Bytes
entry = codes "label a\nkernel k\ninitrd i\nappend q\n"

abbrev with_tree : Bytes
with_tree = codes "label a\nkernel k\ndevicetree d\n"

abbrev starts_with : ℕ → Bytes → Bool
starts_with c [] = false
starts_with c (d ∷ s) = c == d

-- Every file but that of one letter, `missing`, is there with the bytes of `tree`.
abbrev firmware : (missing : ℕ) → (tree : Bytes) → (status : ℕ) → BootFirmware
firmware missing tree status = record {
  files = record {
    open_file = λ path. (if starts_with missing path then 2 ^ 63 + 14 else 0, 7);
    info_size = λ file. (2 ^ 63 + 5, 100);
    get_info = λ file n. (0, record { file_size = length tree; attribute = 0 });
    read = λ file n. (n, tree);
    allocate_pool = λ n. 0;
  };
  load_image = λ image. (status, 5);
  allocate_pages = λ n. 0;
  database = record {
    install = λ db h g i. (0, 8, record { handle = 8; guid = g; interface = i } ∷ db);
    uninstall = λ db h g i. db;
  };
  device_path = 100;
  protocol = 200;
  fixup = λ s. s;
}

abbrev idle : Machine
idle = record {
  live = record { files = 0; blocks = 0 };
  page_blocks = 0;
  images = 0;
  device_tree = none;
  interfaces = [];
  initrd = none;
  load_options = none;
}

-- The text of the initrd is not freed, and its protocol and the load options stay in use.
loads :
    load_and_validate_entry (firmware 0 (codes "abc") 0) (λ i. 9) true entry idle
    ≡ done (
      some 5,
      record {
        live = record { files = 0; blocks = 3 };
        page_blocks = 2;
        images = 1;
        device_tree = none;
        interfaces =
            record { handle = 8; guid = load_file2; interface = 200 }
            ∷ record { handle = 8; guid = device_path; interface = 100 }
            ∷ [];
        initrd = some 3;
        load_options = some (codes "q");
      },
    )
unfolding load_and_validate_entry extlinux_get_value
loads = refl

-- Without the initrd's file everything but the texts of its name is given back.
initrd_missing :
    load_and_validate_entry (firmware 105 (codes "abc") 0) (λ i. 9) true entry idle
    ≡ done (none, record idle { live = record { files = 0; blocks = 1 } })
unfolding load_and_validate_entry extlinux_get_value
initrd_missing = refl

-- A kernel that is no image leaves nothing in use.
no_image :
    load_and_validate_entry (firmware 0 (codes "abc") 3) (λ i. 9) true entry idle
    ≡ done (none, idle)
unfolding load_and_validate_entry extlinux_get_value
no_image = refl

-- A tree that is shorter than its header is refused.
short_tree :
    load_and_validate_entry (firmware 0 (codes "abc") 0) (λ i. 9) true with_tree idle
    ≡ done (none, record idle { live = record { files = 0; blocks = 1 } })
unfolding load_and_validate_entry extlinux_get_value
short_tree = refl

abbrev tree_of : ℕ → Bytes
tree_of n = 208 ∷ 13 ∷ 254 ∷ 237 ∷ 0 ∷ 0 ∷ 0 ∷ n ∷ codes "abcdefghijklmnopqrstuvwx"

-- A tree that tells more than its file has is read past the end of its block.
long_tree : load_and_validate_entry (firmware 0 (tree_of 33) 0) (λ i. 9) true with_tree idle ≡ fault
unfolding load_and_validate_entry extlinux_get_value
long_tree = refl

whole_tree :
    load_and_validate_entry (firmware 0 (tree_of 32) 0) (λ i. 9) true with_tree idle
    ≡ done (
      some 5,
      record idle {
        live = record { files = 0; blocks = 2 };
        page_blocks = 1;
        images = 1;
        device_tree = some (tree_of 32);
      },
    )
unfolding load_and_validate_entry extlinux_get_value
whole_tree = refl
