-- ===== src/Initrd/Setup.antt =====
-- The installation of the protocol, all or nothing.
use loli_loader.Base.{ℕ, ◌%◌, ◌^◌, ◌≡◌, true, false, Bool, List, ◌∷◌, ◌++◌, ◌≢◌, ◌⊎◌}
use loli_loader.Memory.{Mem, Holds, IsMapped}
use loli_loader.Run.{Run}
use loli_loader.Alloc.{MemoryServices}
use loli_loader.Elf2Efi.{to_le}
use loli_loader.Initrd.Install.{Guid, device_path, load_file2, Interface, InitrdFirmware}

abbrev pub placed : ℕ → Guid → ℕ → Interface
placed h g i = record { handle = h; guid = g; interface = i }

-- The documented behaviour of the database: an installation that succeeds adds the interface, on the
-- handle that it is given or on a new one, and one that fails changes nothing; the last interface can be
-- taken away again.
pub record IsDatabase (fw : InitrdFirmware) : Type 0 where
  pub adds :
      (db : List Interface) (h : ℕ) (g : Guid) (i : ℕ)
      → (fw.install db h g i).0 ≡ 0
      → (fw.install db h g i).2 ≡ placed ((fw.install db h g i).1) g i ∷ db
  pub keeps_handle :
      (db : List Interface) (h : ℕ) (g : Guid) (i : ℕ)
      → (fw.install db h g i).0 ≡ 0
      → h ≢ 0
      → (fw.install db h g i).1 ≡ h
  pub new_handle :
      (db : List Interface) (h : ℕ) (g : Guid) (i : ℕ)
      → (fw.install db h g i).0 ≡ 0
      → (fw.install db h g i).1 ≢ 0
  pub fails :
      (db : List Interface) (h : ℕ) (g : Guid) (i : ℕ)
      → (fw.install db h g i).0 ≢ 0
      → ((fw.install db h g i).1 ≡ h) × ((fw.install db h g i).2 ≡ db)
  pub takes_away :
      (db : List Interface) (h : ℕ) (g : Guid) (i : ℕ) → fw.uninstall (placed h g i ∷ db) h g i ≡ db

-- Both protocols stand on one handle, the second with the protocol's address; or nothing is added, and
-- the result is the low half of the status that is not 0.
abbrev pub Installs : InitrdFirmware → List Interface → ℕ → ℕ → ℕ × List Interface × Bool → Type 0
Installs fw db path protocol (ret, db', kept) =
    ((ret ≡ 0)
      × (kept ≡ true)
      × (h : ℕ) × (db' ≡ placed h load_file2 protocol ∷ placed h device_path path ∷ db))
    ⊎ ((kept ≡ false) × (db' ≡ db) × (status : ℕ) × (status ≢ 0) × (ret ≡ status % 2 ^ 32))

-- What has become of the memory and of the database: a block that was not in use has held the protocol,
-- with all cells in use as they were; it stays, with both interfaces on one handle, or it is freed, with
-- the database as before.
abbrev pub SetUp :
    MemoryServices
    → (handler path : ℕ) → Mem
    → List Interface
    → (base size : ℕ) → ℕ × List Interface × Mem
    → Type 0
SetUp s handler path m db base size (ret, db', m') =
    (p : ℕ) × (m1 : Mem) × Holds m1 p (to_le 8 handler ++ (to_le 8 base ++ to_le 8 size))
    × ((x : ℕ) → IsMapped m x → m1 x ≡ m x)
    × (((ret ≡ 0)
          × (m' ≡ m1)
          × (h : ℕ) × (db' ≡ placed h load_file2 p ∷ placed h device_path path ∷ db))
        ⊎ ((m' ≡ s.free_pool m1 p)
            × (db' ≡ db)
            × (status : ℕ) × (status ≢ 0)
            × (ret ≡ status % 2 ^ 32)))
