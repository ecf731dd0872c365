-- ===== src/Interaction/Tests.antt =====
-- Runs of src/interaction.c, and its theorems at concrete input.
use loli_loader.Base.{
  ℕ, zero, suc, ◌≤◌, ◌≡◌, ◌↔◌, refl, sym, inl, Option, some, List, [], ◌∷◌, ◌++◌, arith, Bytes,
  codes, length,
}
use loli_loader.Base.Int.{pos}
use loli_loader.Memory.{Mem, IsCString}
use loli_loader.Memory.Image.{image, image-IsBlock}
use loli_loader.Interaction.{
  Answers, InputKey, Editor, line, timed_out, convert_loop, getline_timeout, timer_ticks,
}
use loli_loader.Interaction.Block.{HasSizes}
use loli_loader.Interaction.Editing.{text, typed, Agrees, getline_timeout-Agrees}
use loli_loader.Interaction.Convert.{crlf, Leaves, convert_loop-Leaves, timer_ticks_exact}

-- The answer to a wait in which a key was pressed.
abbrev pressed : ℕ → Answers
pressed c = record {
  create_event = 0;
  set_timer = 0;
  wait_for_event = 0;
  index = 0;
  read_key_stroke = 0;
  key = record { scan_code = 0; unicode_char = c };
}

abbrev zeros : ℕ → Bytes
zeros zero = []
zeros (suc n) = 0 ∷ zeros n

length-zeros : (n : ℕ) → length (zeros n) ≡ n
length-zeros zero = refl
length-zeros (suc n) = omega (arith, length-zeros n)

abbrev zero_block : ℕ → Option Bytes
zero_block n = some (zeros n)

zero_block-HasSizes : HasSizes zero_block
zero_block-HasSizes n s e = cut e
  where
    cut : some (zeros n) ≡ some s → length s ≡ n
    cut k = let same : zeros n ≡ s = cc in rw (sym same) (length-zeros n)

-- "1", "2", a backspace, "3" and the enter key.
abbrev keys : List Answers
keys = pressed 49 ∷ pressed 50 ∷ pressed 8 ∷ pressed 51 ∷ pressed 13 ∷ []

sample_run : typed 5 keys [] ≡ text (codes "13")
unfolding loli_loader.Interaction.getchar_timeout loli_loader.Interaction.isprint
sample_run = refl

getline_timeout-Agrees_example : Agrees (getline_timeout zero_block 5 keys) (typed 5 keys [])
getline_timeout-Agrees_example = getline_timeout-Agrees zero_block 5 keys zero_block-HasSizes

abbrev memory : Mem
memory = image (codes "a\nb" ++ zeros 10)

a_b-IsCString : IsCString memory 0 (codes "a\nb")
a_b-IsCString = record { held = ground arith; nonzero = ground arith }

convert_loop-Leaves_example : Leaves memory 6 (crlf (codes "a\nb")) (convert_loop 4 memory 6 0)
convert_loop-Leaves_example =
    convert_loop-Leaves (codes "a\nb") 4 memory 6 0 a_b-IsCString.held a_b-IsCString.nonzero
      (omega arith) (image-IsBlock (codes "a\nb" ++ zeros 10) 6 5 (omega arith)) (inl (omega arith))

timer_ticks_exact_example : (timer_ticks 215 ≡ pos 2150000000) ↔ (215 ≤ 214)
timer_ticks_exact_example = timer_ticks_exact 215
