-- ===== src/Interaction/Editing.antt =====
-- The line editor against the editing of a list of bytes.
use loli_loader.Base.{
  ℕ, ◌+◌, ◌-◌, ◌≡◌, refl, ◌∙◌, ap, Bool, true, false, Option, List, [], ◌∷◌, ◌++◌, arith, ◌==◌,
  if◌then◌else◌, Bytes, length, take, drop, rev, length-rev, Bool-cases, Option-cases, inl, inr,
  ◌⊎◌,
}
use Prim.Native.String.{String}
use loli_loader.Base.Int.{ℤ, pos, negsuc}
use loli_loader.Run.{Run, done, panicked, fault}
use loli_loader.Interaction.{
  isprint, Answers, getchar_timeout, Editor, line, timed_out, waiting, panics, is_line_end,
  is_backspace, is_eof, char_of, grow_block, editor_loop, getline_timeout,
}
use loli_loader.Interaction.Block.{HasSizes, Holding, set_byte_lem, put_byte, take_last, grow_put}

-- What is typed, without blocks: the last byte first, as the keys come.
pub data Typed : Type 0 where
  text : Bytes → Typed
  no_input : Typed
  unfinished : Typed
  stopped : Typed

abbrev pub for_key : Run ℤ → (ℤ → Typed) → Typed
for_key (done c) k = k c
for_key (panicked msg) k = stopped
for_key fault k = stopped

-- A printable key is added, a backspace takes the last byte away, a line end ends the line, and any
-- other key is passed over.
abbrev pub typed : ℕ → List Answers → Bytes → Typed
typed timeout [] st = unfinished
typed timeout (a ∷ answers) st = for_key (getchar_timeout timeout a) λ c.
    if is_eof c
    then no_input
    else if is_backspace c
    then typed 0 answers (drop 1 st)
    else if isprint c
    then typed 0 answers (char_of c ∷ st)
    else if is_line_end c
    then text (rev st)
    else typed 0 answers st

-- The block holds the text and a terminator.
abbrev pub Agrees : Editor → Typed → Type 0
Agrees (line s) (text t) = take (length t + 1) s ≡ t ++ 0 ∷ []
Agrees timed_out no_input = Unit
Agrees waiting unfinished = Unit
Agrees panics r = Unit
Agrees _ _ = ⊥

backspace_other : (c : ℤ) → is_backspace c ≡ true → (isprint c ≡ false) × (is_line_end c ≡ false)
unfolding isprint
backspace_other (pos c) h = (ground arith, ground arith)
backspace_other (negsuc c) h = absurd (cc)

drop_empty : (st : Bytes) → length st ≡ 0 → drop 1 st ≡ st
drop_empty [] h = refl
drop_empty (d ∷ st) h = absurd (omega arith)

-- The run does not fault.
abbrev NoFault : Run ℤ → Type 0
NoFault (done c) = Unit
NoFault (panicked msg) = Unit
NoFault fault = ⊥

if-NoFault : (b : Bool) (x y : Run ℤ) → NoFault x → NoFault y → NoFault (if b then x else y)
if-NoFault true x y h k = h
if-NoFault false x y h k = k

NoFault-cases :
    (r : Run ℤ) → NoFault r → ((c : ℤ) × (r ≡ done c)) ⊎ ((msg : String) × (r ≡ panicked msg))
NoFault-cases (done c) h = inl (c, refl)
NoFault-cases (panicked msg) h = inr (msg, refl)
NoFault-cases fault h = absurd h

getchar_timeout-cases :
    (timeout : ℕ) (a : Answers)
    → ((c : ℤ) × (getchar_timeout timeout a ≡ done c))
      ⊎ ((msg : String) × (getchar_timeout timeout a ≡ panicked msg))
unfolding getchar_timeout
getchar_timeout-cases timeout a = NoFault-cases (getchar_timeout timeout a) (ground arith)

module _ (alloc : ℕ → Option Bytes) (sizes : HasSizes alloc) where
  editor_loop-Agrees :
      (timeout : ℕ) (answers : List Answers) (s : Bytes) (buflen strlen : ℕ) (st : Bytes)
      → Holding s buflen strlen st
      → Agrees (editor_loop alloc timeout answers s buflen strlen) (typed timeout answers st)
  unfolding editor_loop
  editor_loop-Agrees timeout [] s buflen strlen st g = tt
  editor_loop-Agrees timeout (a ∷ answers) s buflen strlen st g =
      let next = λ (b : Bytes) (k n : ℕ) (u : Bytes) (h : Holding b k n u).
        editor_loop-Agrees 0 answers b k n u h in
      elim (getchar_timeout-cases timeout a) [
        | inr (msg, e) ↦ rw e tt
        | inl (c, e) ↦ elim (Bool-cases (is_eof c)) [
          | inl i ↦ rw (e, i) tt
          | inr i ↦ elim (Bool-cases (is_backspace c)) [
            | inl b ↦ elim (Bool-cases (strlen == 0)) [
              | inl z ↦
                  let (p, l) = backspace_other c b in
                  let d = drop_empty st (ground arith) in
                  rw (e, i, b, z, p, l, d) (next s buflen strlen st g)
              | inr z ↦
                  let (t, r, h) = take_last alloc sizes s buflen strlen st g z in
                  rw (e, i, b, z, r) (next t buflen (strlen - 1) (drop 1 st) h)
            ]
            | inr b ↦ elim (Bool-cases (isprint c)) [
              | inr p ↦ elim (Bool-cases (is_line_end c)) [
                | inr l ↦ rw (e, i, b, p, l) (next s buflen strlen st g)
                | inl l ↦
                    let (t, r, k, x, y) = set_byte_lem s strlen 0 (omega (arith, g.size, g.room)) in
                    rw (e, i, b, p, l, r)
                      (rw (length-rev st ∙ g.count) (x ∙ ap (λ z. z ++ 0 ∷ []) g.content))
              ]
              | inl p ↦ elim (Bool-cases (strlen + 1 == buflen)) [
                | inr f ↦
                    let (t, r, h) =
                      put_byte alloc sizes s buflen strlen (char_of c) st g.size (ground arith)
                        g.count g.content in
                    rw (e, i, b, p, f, r) (next t buflen (strlen + 1) (char_of c ∷ st) h)
                | inl f ↦ elim (Option-cases (alloc (buflen + 32))) [
                  | inl failed ↦ rw (e, i, b, p, f, grow_block, failed) tt
                  | inr (blk, made) ↦
                      let (s', q, t, r, h) =
                        grow_put alloc sizes s buflen strlen (char_of c) st blk g made in
                      rw (e, i, b, p, f, q, r)
                        (next t (buflen + 32) (strlen + 1) (char_of c ∷ st) h)
                ]
              ]
            ]
          ]
        ]
      ]

-- If new blocks have the size that was asked for, the line editor does not write outside its block,
-- whatever the firmware answers. Unless an allocation or a call of the firmware makes it panic, it
-- does what the editing of a list of bytes does: it ends with the text that was typed and a
-- terminator in its block, returns NULL at a time-out, or waits for a key.
pub getline_timeout-Agrees :
    (alloc : ℕ → Option Bytes) (timeout : ℕ) (answers : List Answers)
    → HasSizes alloc
    → Agrees (getline_timeout alloc timeout answers) (typed timeout answers [])
unfolding getline_timeout
getline_timeout-Agrees alloc timeout answers sizes = elim (Option-cases (alloc 16)) [
  | inl failed ↦ rw failed tt
  | inr (s, e) ↦ rw e (
      editor_loop-Agrees alloc sizes timeout answers s 16 0 []
        (record { size = sizes 16 s e; room = omega arith; count = refl; content = refl }))
]
