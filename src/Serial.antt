-- ===== src/Serial.antt =====
-- src/serial.c: writing a string to the serial devices. What a device takes of a write is a parameter:
-- `accepts n size` is the size that it reports at its call number `n`.
-- So are the handles and the protocols that the firmware tells at `serial_init`.
pub mod Progress
mod Tests
use loli_loader.Memory.{Mem}
use loli_loader.Run.{Run, done, panicked, fault, ◌>>=◌, panic}
use loli_loader.Alloc.{MemoryServices, malloc}
use loli_loader.Base.{
  map, not, true, false, ◌*◌, ◌/◌, ℕ, zero, suc, ◌+◌, ◌-◌, ◌%◌, ◌^◌, Bool, Option, none, some, List,
  [], ◌∷◌, ◌++◌, arith, ◌==◌, if◌then◌else◌, Bytes, length, take, drop,
}

-- The difference of two `uint_native`.
abbrev pub sub_size : ℕ → ℕ → ℕ
sub_size a b = (a + (2 ^ 64 - b)) % 2 ^ 64

-- `while (remain) { … }` on fuel: the bytes that the device takes, in their order.
unfoldable pub remain_loop : (ℕ → ℕ → ℕ) → ℕ → ℕ → Bytes → ℕ → Option Bytes
remain_loop accepts zero n text remain = none
remain_loop accepts (suc f) n text remain =
    let written = accepts n remain in
    let rest = remain_loop accepts f (n + 1) text (sub_size remain written) in
    if remain == 0 then some [] else elim rest [
      | none ↦ none
      | some s ↦ some (take written (drop (length text - remain) text) ++ s)
    ]

-- What each of the devices takes.
unfoldable pub serial_write : Bool → List (ℕ → ℕ → ℕ) → ℕ → Bytes → Option (List Bytes)
unfolding remain_loop
serial_write available [] f text = some []
serial_write available (d ∷ ds) f text =
    let rest = serial_write available ds f text in
    if available
    then elim (remain_loop d f 0 text (length text)) [
      | none ↦ none
      | some s ↦ elim rest [ none ↦ none | some ss ↦ some (s ∷ ss) ]
    ]
    else some []

-- The status of the first of the two calls of `locateHandle`, the size that it asks for, and the
-- handles that the second gives; and the protocol on a handle.
pub record SerialFirmware : Type 0 where
  pub locate_handle : ℕ × ℕ × List ℕ
  pub handle_protocol : ℕ → ℕ

-- `gSerialAvailable`, the protocols, and the memory, in which their array stands.
unfoldable pub serial_init : SerialFirmware → MemoryServices → Mem → Run (Bool × List ℕ × Mem)
unfolding malloc
serial_init g s m =
    let (status, size, handles) = g.locate_handle in
    let ret = status % 2 ^ 63 in
    if ret == 14
    then done (false, [], m)
    else if not (ret == 5)
    then panic "Failed to locate handle for serial"
    else (do
      r ← malloc s m (8 * (size / 8))
      done (true, map (g.handle_protocol) (take (size / 8) handles), r.1))
