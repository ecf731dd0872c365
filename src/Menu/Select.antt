-- ===== src/Menu/Select.antt =====
-- `menu_get_nth_entry` picks from the list of the entries.
use loli_loader.Base.{ℕ, zero, suc, ◌≡◌, refl, ◌∙◌, ap, Option, none, some, Bytes, get_elem?}
use loli_loader.Extlinux.{extlinux_next_entry}
use loli_loader.Extlinux.Lines.{visits, entries, next_entry-first, next_entry-next}
use loli_loader.Menu.{nth_loop, menu_get_nth_entry}

next_entry_null : extlinux_next_entry none none ≡ none
unfolding extlinux_next_entry
next_entry_null = refl

nth_loop_null : (i : ℕ) → nth_loop i none ≡ none
unfolding nth_loop
nth_loop_null zero = refl
nth_loop_null (suc i) = rw next_entry_null (nth_loop_null i)

visits-get : (i : ℕ) (e : Option Bytes) → nth_loop i e ≡ get_elem? (visits e) i
unfolding nth_loop
visits-get zero none = refl
visits-get zero (some e) = refl
visits-get (suc i) none = rw next_entry_null (nth_loop_null i)
visits-get (suc i) (some e) =
    visits-get i (extlinux_next_entry none (some e)) ∙ ap (λ l. get_elem? l i) (next_entry-next e)

-- `menu_get_nth_entry` returns the entry with the index among the label lines of the configuration,
-- in their order, and NULL behind the last one.
pub menu_get_nth_entry-get :
    (cfg : Bytes) (i : ℕ) → menu_get_nth_entry cfg i ≡ get_elem? (entries cfg) i
unfolding menu_get_nth_entry
menu_get_nth_entry-get cfg i =
    visits-get i (extlinux_next_entry (some cfg) none)
    ∙ ap (λ l. get_elem? l i) (next_entry-first cfg)
