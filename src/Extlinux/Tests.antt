-- ===== src/Extlinux/Tests.antt =====
-- Runs of the parser of src/extlinux.c, and its theorems at a sample configuration.
use mathlib.Core.Option
use loli_loader.Base.{◌≡◌, refl, ◌↔◌, none, some, Bytes, codes, take, drop, Option, ℕ, arith}
use loli_loader.Extlinux.{extlinux_next_entry, extlinux_get_value, match_key}
use loli_loader.Extlinux.Key.{IsPair, match_key-word}
use loli_loader.Extlinux.Phrase.{IsPhrase, match_key-two_words}
use loli_loader.Extlinux.Value.{sized, first_match, block, extlinux_get_value-first_match}
use loli_loader.Extlinux.Extent.{IsExtent, extlinux_get_value-IsExtent}
use loli_loader.Extlinux.Scope.{EndsBefore, extlinux_get_value-EndsBefore}

abbrev cfg : Bytes
cfg =
    codes
      "timeout 3\ndefault l2\n\nlabel l1\n\tmenu  title A  b \n\tkernel  /vm\nlabel l2\n\tkernel\t/x\n"

-- The places of the two entries, and of the value of "kernel" in the second.
abbrev first_entry : Bytes
first_entry = drop 22 cfg

abbrev second_entry : Bytes
second_entry = drop 63 cfg

abbrev text_of : Option (Bytes × ℕ) → Option Bytes
text_of = Option.map (λ v. take v.1 v.0)

abbrev value_of : Bytes → Bytes → Option Bytes
value_of p key = text_of (extlinux_get_value p key)

entries_found :
    (extlinux_next_entry (some cfg) none ≡ some first_entry)
    × (extlinux_next_entry none (some first_entry) ≡ some second_entry)
    × (extlinux_next_entry none (some second_entry) ≡ none)
unfolding extlinux_next_entry
entries_found = (refl, refl, refl)

values_found :
    (value_of cfg (codes "default") ≡ some (codes "l2"))
    × (value_of cfg (codes "kernel") ≡ none)
    × (value_of first_entry (codes "menu title") ≡ some (codes "A  b"))
    × (value_of first_entry (codes "label") ≡ some (codes "l1"))
    × (value_of second_entry (codes "kernel") ≡ some (codes "/x"))
    × (value_of second_entry (codes "menu title") ≡ none)
unfolding extlinux_get_value
values_found = (refl, refl, refl, refl, refl, refl)

keys :
    (match_key (codes "kernel  /vm\n") (codes "kernel") ≡ some (codes "/vm\n"))
    × (match_key (codes "kernel\n") (codes "kernel") ≡ none)
    × (match_key (codes "kernels /vm") (codes "kernel") ≡ none)
    × (match_key (codes "menu \t title x") (codes "menu title") ≡ some (codes "x"))
    × (match_key (codes "menutitle x") (codes "menu title") ≡ none)
unfolding match_key
keys = (refl, refl, refl, refl, refl)

match_key-word_example :
    (match_key (codes "kernel  /vm") (codes "kernel") ≡ some (codes "/vm"))
    ↔ IsPair (codes "kernel") (codes "/vm") (codes "kernel  /vm")
match_key-word_example =
    match_key-word (codes "kernel") (codes "kernel  /vm") (codes "/vm") (ground arith)

match_key-two_words_example :
    (match_key (codes "menu  title x") (codes "menu title") ≡ some (codes "x"))
    ↔ IsPhrase (codes "menu") (codes "title") (codes "x") (codes "menu  title x")
match_key-two_words_example =
    match_key-two_words (codes "menu") (codes "title") (codes "menu  title x") (codes "x")
      (ground arith) (ground arith) (λ e. cc) (λ e. cc)

extlinux_get_value-first_match_example :
    extlinux_get_value first_entry (codes "kernel")
    ≡ sized (first_match (codes "kernel") (block first_entry (codes "kernel")))
extlinux_get_value-first_match_example =
    extlinux_get_value-first_match first_entry b'k' (codes "ernel")

title_found : extlinux_get_value first_entry (codes "menu title") ≡ some (drop 44 cfg, 4)
unfolding extlinux_get_value
title_found = refl

extlinux_get_value-IsExtent_example : IsExtent (drop 44 cfg) 4
extlinux_get_value-IsExtent_example =
    extlinux_get_value-IsExtent first_entry b'm' (codes "enu title") (drop 44 cfg) 4 title_found

extlinux_get_value-EndsBefore_example : EndsBefore (drop 44 cfg) 4 second_entry
unfolding extlinux_get_value extlinux_next_entry
extlinux_get_value-EndsBefore_example =
    extlinux_get_value-EndsBefore first_entry (codes "menu title") (drop 44 cfg) second_entry 4 refl
      (ground arith) title_found refl
