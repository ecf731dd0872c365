-- ===== src/Extlinux.antt =====
-- src/extlinux.c: the zero-allocation parser of the configuration file.
-- A `const char *` into the text is the rest of the text from there on, up to the terminator, so
-- `*p` is 0 at `[]` and `p++` is the tail; NULL is `none`.
pub mod Suffix
pub mod Lines
pub mod Key
pub mod Phrase
pub mod Line
pub mod Value
pub mod Extent
pub mod Scope
pub mod Pointer
mod Tests
use loli_loader.Base.{
  ℕ, zero, suc, Bool, true, false, ◌&&◌, ◌||◌, not, Option, none, some, [], ◌∷◌, ◌==◌,
  if◌then◌else◌, Bytes, codes, length, get_or,
}

-- `*p == '\t' || *p == ' '`, on the byte `*p`.
abbrev pub blank : ℕ → Bool
blank c = c == b'\t' || c == b' '

unfoldable pub is_space : Bytes → Bool
is_space [] = false
is_space (c ∷ _) = blank c

unfoldable pub skip_space : Bytes → Bytes
skip_space [] = []
skip_space (c ∷ p) = let rest = skip_space p in if blank c then rest else c ∷ p

-- What stands behind the loop of `match_key`, when the whole key has been read.
unfoldable pub match_end : Bytes → Option Bytes
unfolding is_space skip_space
match_end p =
    if is_space p
    then elim (skip_space p) [ [] ↦ none | c ∷ q ↦ if c == b'\n' then none else some (c ∷ q) ]
    else none

-- The loop of `match_key`. The key and the text are skipped together where both stand at a blank.
unfoldable pub match_loop : ℕ → Bytes → Bytes → Option Bytes
unfolding match_end is_space skip_space
match_loop f p [] = match_end p
match_loop f [] (k ∷ key) = none
match_loop zero (c ∷ p) (k ∷ key) = none
match_loop (suc f) (c ∷ p) (k ∷ key) =
    let skipped = match_loop f (skip_space p) (skip_space key) in
    let next = match_loop f p key in
    if not (c == k) then none else if is_space key && is_space p then skipped else next

-- The loop runs at most once for each byte of the key.
unfoldable pub match_key : Bytes → Bytes → Option Bytes
unfolding match_loop
match_key p key = match_loop (length key) p key

unfoldable pub next_line : Bytes → Option Bytes
next_line [] = none
next_line (c ∷ p) =
    let rest = next_line p in
    if c == b'\n' then elim p [ [] ↦ none | d ∷ q ↦ some (d ∷ q) ] else rest

abbrev pub label_key : Bytes
label_key = codes "label"

abbrev pub matched : Option Bytes → Bool
matched none = false
matched (some _) = true

abbrev pub is_label : Bytes → Bool
is_label p = matched (match_key p label_key)

-- `while (p) { … }` of `extlinux_next_entry`.
unfoldable pub entry_loop : ℕ → Option Bytes → Option Bytes
unfolding match_key skip_space next_line
entry_loop f none = none
entry_loop zero (some p) = none
entry_loop (suc f) (some p) =
    let q = skip_space p in
    let rest = entry_loop f (next_line q) in if is_label q then some q else rest

-- Every round drops a byte of the text at least.
abbrev pub rounds : Option Bytes → ℕ
rounds none = 0
rounds (some p) = suc (length p)

abbrev pub while_entry : Option Bytes → Option Bytes
while_entry p = entry_loop (rounds p) p

unfoldable pub extlinux_next_entry : Option Bytes → Option Bytes → Option Bytes
unfolding entry_loop
extlinux_next_entry conf none = while_entry conf
extlinux_next_entry conf (some last) = while_entry (next_line last)

-- `key[0] == 'l' && … && !key[5]`
unfoldable pub get_label : Bytes → Bool
get_label key =
    get_or key 0 0 == b'l'
    && get_or key 1 0 == b'a'
    && get_or key 2 0 == b'b'
    && get_or key 3 0 == b'e'
    && get_or key 4 0 == b'l'
    && get_or key 5 0 == 0

-- `while (*vend && *vend != '\n') vend++`, as the distance that `vend` goes.
unfoldable pub line_end : Bytes → ℕ
line_end [] = 0
line_end (c ∷ p) = let rest = line_end p in if c == b'\n' then 0 else suc rest

-- `while (vend >= value && is_space(vend)) vend--`, on `vend - value + 1`.
unfoldable pub strip_end : Bytes → ℕ → ℕ
strip_end value zero = 0
strip_end value (suc n) =
    let rest = strip_end value n in if blank (get_or value n 0) then rest else suc n

unfoldable pub value_len : Bytes → ℕ
unfolding line_end strip_end
value_len value = strip_end value (line_end value)

-- `while (p) { … }` of `extlinux_get_value`; the flag is `getLabel`.
unfoldable pub value_loop : ℕ → Bytes → Bool → Option Bytes → Option (Bytes × ℕ)
unfolding match_key skip_space next_line value_len
value_loop f key want none = none
value_loop zero key want (some p) = none
value_loop (suc f) key want (some p) =
    let q = skip_space p in
    let rest = value_loop f key want (next_line q) in
    elim q [
      | [] ↦ none
      | c ∷ r ↦ if is_label (c ∷ r) && not want then none else elim (match_key (c ∷ r) key) [
        | some value ↦ some (value, value_len value)
        | none ↦ rest
      ]
    ]

abbrev pub while_value : Bytes → Bool → Option Bytes → Option (Bytes × ℕ)
while_value key want p = value_loop (rounds p) key want p

unfoldable pub extlinux_get_value : Bytes → Bytes → Option (Bytes × ℕ)
unfolding value_loop get_label
extlinux_get_value p key =
    while_value key (get_label key)
      (if not (get_label key) && is_label p then next_line p else some p)
