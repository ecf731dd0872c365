-- ===== src/Interaction.antt =====
-- src/interaction.c and src/ctype.c: the console. The conversion of line ends works on byte memory.
-- The line editor owns its block, which is the list of its bytes; every key that it waits for is the
-- next of a list of keys. The answers of the firmware to a wait are a record.
pub mod Block
pub mod Editing
pub mod Convert
mod Tests
use loli_loader.Base.{
  ℕ, zero, suc, ◌+◌, ◌-◌, ◌*◌, ◌%◌, ◌^◌, ◌≡◌, Bool, true, false, ◌&&◌, ◌||◌, not, Option, none,
  some, List, [], ◌∷◌, ◌++◌, arith, ◌==◌, ltb, leb, if◌then◌else◌, Bytes, codes, length, take, drop,
}
use loli_loader.Base.Int.{ℤ, pos, negsuc, signed32}
use loli_loader.Memory.{Mem, load, store, ◌>>=◌}
use loli_loader.CString.{memcpy}
use loli_loader.Run.{Run, done, panicked, fault, panic}

unfoldable pub isprint : ℤ → Bool
isprint (pos c) = ltb 0x1f c && ltb c 0x7f
isprint (negsuc c) = false

-- `while (*src) { … }` of `puts_internal` and the terminator, on fuel.
unfoldable pub convert_loop : ℕ → Mem → ℕ → ℕ → Option Mem
unfolding load store
convert_loop zero m dst src = none
convert_loop (suc f) m dst src = do
  c ← load m src
  let plain = (do m' ← store m dst c; convert_loop f m' (dst + 1) (src + 1))
  let line_end = (do
    m' ← store m dst b'\r'
    m'' ← store m' (dst + 1) c
    convert_loop f m'' (dst + 1 + 1) (src + 1))
  if c == 0 then store m dst 0 else if c == b'\n' then line_end else plain

pub record InputKey : Type 0 where
  pub scan_code : ℕ
  pub unicode_char : ℕ

-- `wchar_t` is unsigned.
unfoldable pub getchar_translate : InputKey → ℤ
getchar_translate key =
    if not (key.unicode_char == 0)
    then pos key.unicode_char
    else if key.scan_code == 8
    then pos 8
    else pos 0

-- The statuses of the firmware's calls, the event that `waitForEvent` tells, and the key.
pub record Answers : Type 0 where
  pub create_event : ℕ
  pub set_timer : ℕ
  pub wait_for_event : ℕ
  pub index : ℕ
  pub read_key_stroke : ℕ
  pub key : InputKey

abbrev pub eof : ℤ
eof = negsuc 0

-- `timeout * 1000 * 1000 * 10` in an `int`, whose overflow is taken to wrap.
unfoldable pub timer_ticks : ℕ → ℤ
timer_ticks timeout = signed32 (timeout * 10000000 % 2 ^ 32)

unfoldable pub getchar_timeout : ℕ → Answers → Run ℤ
unfolding getchar_translate
getchar_timeout timeout a =
    let timed = not (timeout == 0) in
    if timed && not (a.create_event == 0)
    then panic "Can't create timer event"
    else if timed && not (a.set_timer == 0)
    then panic "Can't configure timer"
    else if not (a.wait_for_event == 0)
    then panic "error occurs when waiting for events"
    else if timed && a.index == 1
    then done eof
    else if not (a.read_key_stroke == 0)
    then panic "Can't read inputs"
    else done (getchar_translate a.key)

-- `s[i] = c`, within the block.
unfoldable pub set_byte : Bytes → ℕ → ℕ → Option Bytes
set_byte [] i c = none
set_byte (d ∷ s) zero c = some (c ∷ s)
set_byte (d ∷ s) (suc i) c = elim (set_byte s i c) [ none ↦ none | some t ↦ some (d ∷ t) ]

-- How the line editor ends: with a block, with NULL at a time-out, or it waits for a key still; an
-- allocation that fails panics, and a write outside the block is a fault.
pub data Editor : Type 0 where
  line : Bytes → Editor
  timed_out : Editor
  waiting : Editor
  panics : Editor
  faults : Editor

abbrev pub is_line_end : ℤ → Bool
is_line_end (pos c) = c == b'\r' || c == b'\n'
is_line_end (negsuc c) = false

abbrev pub is_backspace : ℤ → Bool
is_backspace (pos c) = c == 8
is_backspace (negsuc c) = false

-- `c == EOF`
abbrev pub is_eof : ℤ → Bool
is_eof (negsuc zero) = true
is_eof (negsuc (suc c)) = false
is_eof (pos c) = false

-- `(char)c`
abbrev pub char_of : ℤ → ℕ
char_of (pos c) = c % 256
char_of (negsuc c) = 255 - c % 256

abbrev pub or_fault : Option Bytes → (Bytes → Editor) → Editor
or_fault none k = faults
or_fault (some s) k = k s

abbrev pub or_panic : Option Bytes → (Bytes → Editor) → Editor
or_panic none k = panics
or_panic (some s) k = k s

abbrev pub with_key : Run ℤ → (ℤ → Editor) → Editor
with_key (done c) k = k c
with_key (panicked msg) k = panics
with_key fault k = faults

-- The content of a new block, or `none` where the allocation panics.
module _ (alloc : ℕ → Option Bytes) where
  -- `realloc(s, strlen, buflen)`
  unfoldable pub grow_block : Bytes → ℕ → ℕ → Option Bytes
  grow_block s old_size size = elim (alloc size) [
    | none ↦ none
    | some t ↦ some (take old_size s ++ drop old_size t)
  ]

  -- `do { … } while (c != '\r' && c != '\n')`, and the terminator behind it. The block is `s`, of
  -- `buflen` bytes, and the line has `strlen` bytes so far.
  unfoldable pub editor_loop : ℕ → List Answers → Bytes → ℕ → ℕ → Editor
  unfolding set_byte grow_block isprint getchar_timeout
  editor_loop timeout [] s buflen strlen = waiting
  editor_loop timeout (a ∷ answers) s buflen strlen = with_key (getchar_timeout timeout a) λ c.
      if is_eof c
      then timed_out
      else if is_backspace c && not (strlen == 0)
      then or_fault (set_byte s (strlen - 1) 0) (λ s'. editor_loop 0 answers s' buflen (strlen - 1))
      else if not (isprint c)
      then (if is_line_end c
          then or_fault (set_byte s strlen 0) line
          else editor_loop 0 answers s buflen strlen)
      else if strlen + 1 == buflen
      then or_panic (grow_block s (strlen + 1) (buflen + 32)) (λ s'.
        or_fault (set_byte s' strlen (char_of c))
          (λ t. editor_loop 0 answers t (buflen + 32) (strlen + 1)))
      else or_fault (set_byte s strlen (char_of c))
          (λ t. editor_loop 0 answers t buflen (strlen + 1))

  -- The line that is typed, where the first key may time out.
  unfoldable pub getline_timeout : ℕ → List Answers → Editor
  unfolding editor_loop
  getline_timeout timeout answers = or_panic (alloc 16) (λ s. editor_loop timeout answers s 16 0)
