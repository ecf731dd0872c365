-- ===== src/Initrd/Install.antt =====
-- src/initrd.c, initrd_setup: the protocol in memory and its installation, over the firmware's database of
-- interfaces.
use loli_loader.Base.{
  ℕ, ◌%◌, ◌^◌, Bool, true, false, not, some, List, ◌++◌, Bytes, ◌==◌, if◌then◌else◌,
}
use loli_loader.Memory.{Mem}
use loli_loader.Run.{Run, done, ◌>>=◌, checked}
use loli_loader.Alloc.{MemoryServices, malloc, free}
use loli_loader.Graphics.{store_bytes}
use loli_loader.Elf2Efi.{to_le}

-- The database of the firmware: which interface, by its address, is on a handle for a protocol.
pub data Guid : Type 0 where
  device_path : Guid
  load_file2 : Guid

pub record Interface : Type 0 where
  pub handle : ℕ
  pub guid : Guid
  pub interface : ℕ

-- `installProtocolInterface` on a handle, which is 0 for a new one, gives a status, the handle, and the
-- database.
pub record InitrdFirmware : Type 0 where
  pub install : List Interface → ℕ → Guid → ℕ → ℕ × ℕ × List Interface
  pub uninstall : List Interface → ℕ → Guid → ℕ → List Interface

-- The two installations, with `path` the address of `initrdDevicePath` and `protocol` that of the
-- protocol: the result, an `int`, as its 32-bit pattern, the database, and whether the protocol is not
-- freed.
unfoldable pub install_initrd :
    InitrdFirmware → List Interface → (path protocol : ℕ) → ℕ × List Interface × Bool
install_initrd fw db path protocol =
    let (ret, initrd, db') = fw.install db 0 device_path path in
    let (ret', initrd', db'') = fw.install db' initrd load_file2 protocol in
    if not (ret == 0)
    then (ret % 2 ^ 32, db', false)
    else if not (ret' == 0)
    then (ret' % 2 ^ 32, fw.uninstall db'' initrd' device_path path, false)
    else (ret' % 2 ^ 32, db'', true)

-- The protocol in memory: the handler, the base and the size, of 8 bytes each.
unfoldable pub protocol_bytes : (handler base size : ℕ) → Bytes
unfolding to_le
protocol_bytes handler base size = to_le 8 handler ++ (to_le 8 base ++ to_le 8 size)

-- `handler` is the address of `initrd_load_file`.
unfoldable pub initrd_setup :
    MemoryServices
    → InitrdFirmware
    → (handler path : ℕ) → Mem
    → List Interface
    → (base size : ℕ) → Run (ℕ × List Interface × Mem)
unfolding malloc free store_bytes protocol_bytes install_initrd
initrd_setup s fw handler path m db base size = do
  r ← malloc s m 24
  m' ← checked (store_bytes r.1 r.0 (protocol_bytes handler base size))
  let (ret, db', kept) = install_initrd fw db path r.0
  done (ret, db', if kept then m' else free s m' (some r.0))
