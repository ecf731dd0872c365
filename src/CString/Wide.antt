-- ===== src/CString/Wide.antt =====
-- The conversions between byte strings and wide strings.
use loli_loader.Base.{
  ℕ, zero, suc, ◌+◌, ◌<◌, ◌≡◌, refl, ◌∙◌, ap, Bool, true, false, none, some, [], ◌∷◌, map, ◌==◌,
  arith, Bytes, length,
}
use loli_loader.Memory.{
  Mem, update, load, Holds, IsMapped, IsBlock, store-some, IsBlock-head, IsBlock-tail,
  update-IsBlock, NonZero, terminated, IsCString,
}
use loli_loader.CString.{
  wcslen, wcslen_loop, str2wcs, wcs2str, narrow_loop, widen_loop, wchar_of_char, char_of_wchar,
}
use loli_loader.CString.Copy.{IsCString-tail, Copied, Copied-end, Copied-byte, strlen_lem}

-- Bytes of a string: from 1 to 255.
abbrev pub AreBytes : Bytes → Type 0
AreBytes [] = Unit
AreBytes (c ∷ s) = (c < 256) × AreBytes s

abbrev pub widened : Bool → Bytes → Bytes
widened signed s = map (wchar_of_char signed) s

widen_loop-byte :
    (signed : Bool) (f : ℕ) (m w : Mem) (wcs str c : ℕ)
    → m str ≡ some c
    → (c == 0) ≡ false
    → IsMapped w wcs
    → widen_loop signed (suc f) m w wcs str
      ≡ widen_loop signed f m (update w wcs (wchar_of_char signed c)) (wcs + 1) (str + 1)
unfolding widen_loop
widen_loop-byte signed f m w wcs str c e n b =
    rw (e, n, widen_loop, store-some w wcs (wchar_of_char signed c) b) refl

widen_loop-end :
    (signed : Bool) (f : ℕ) (m w : Mem) (wcs str : ℕ)
    → m str ≡ some 0
    → IsMapped w wcs
    → widen_loop signed (suc f) m w wcs str ≡ some (update w wcs 0)
unfolding widen_loop
widen_loop-end signed f m w wcs str e b = ground (arith, store-some w wcs 0 b)

widen_loop_lem :
    (signed : Bool) (f : ℕ) (m w : Mem) (wcs str : ℕ) (s : Bytes)
    → IsCString m str s
    → IsBlock w wcs (suc (length s))
    → length s < f
    → (w' : Mem) × (widen_loop signed f m w wcs str ≡ some w') × Copied w wcs (widened signed s) w'
widen_loop_lem signed zero m w wcs str s h b l = absurd (omega arith)
widen_loop_lem signed (suc f) m w wcs str [] h b l = (
  update w wcs 0,
  widen_loop-end signed f m w wcs str h.held.0 (IsBlock-head w wcs 0 b),
  Copied-end w wcs,
)
widen_loop_lem signed (suc f) m w wcs str (c ∷ s) h b l =
    let v = wchar_of_char signed c in
    let (w', e, d) =
      widen_loop_lem signed f m (update w wcs v) (wcs + 1) (str + 1) s (IsCString-tail h)
        (update-IsBlock w wcs v (wcs + 1) (suc (length s)) (IsBlock-tail w wcs (suc (length s)) b))
        (omega arith) in
    (
      w',
      widen_loop-byte signed f m w wcs str c h.held.0 h.nonzero.0
            (IsBlock-head w wcs (suc (length s)) b)
          ∙ e,
      Copied-byte w w' wcs v (widened signed s) d,
    )

-- `str2wcs` with a buffer of one cell more than the string has bytes: the length is returned, the
-- buffer holds each byte widened and a terminator, and no other cell is written.
pub str2wcs_lem :
    (signed : Bool) (f : ℕ) (m w : Mem) (wcs str : ℕ) (s : Bytes)
    → IsCString m str s
    → IsBlock w wcs (suc (length s))
    → length s < f
    → (w' : Mem) × (str2wcs signed f m w (some wcs) str ≡ some (length s, w'))
      × Copied w wcs (widened signed s) w'
unfolding str2wcs
str2wcs_lem signed f m w wcs str s h b l =
    let (w', e, d) = widen_loop_lem signed f m w wcs str s h b l in
    (w', rw (strlen_lem f m str s h l, e) refl, d)

-- Without a buffer only the length is returned.
pub str2wcs_null :
    (signed : Bool) (f : ℕ) (m w : Mem) (str : ℕ) (s : Bytes)
    → IsCString m str s
    → length s < f
    → str2wcs signed f m w none str ≡ some (length s, w)
unfolding str2wcs
str2wcs_null signed f m w str s h l = rw (strlen_lem f m str s h l) refl

-- Widening, and then cutting to a byte, gives the byte back, whether `char` is signed or not.
char-wchar : (signed : Bool) (c : ℕ) → c < 256 → char_of_wchar (wchar_of_char signed c) ≡ c
char-wchar true c h = ground arith
char-wchar false c h = ground arith

wchar-nonzero :
    (signed : Bool) (c : ℕ) → c < 256 → (c == 0) ≡ false → (wchar_of_char signed c == 0) ≡ false
wchar-nonzero true c h n = ground arith
wchar-nonzero false c h n = ground arith

narrow_loop-cell :
    (f : ℕ) (m w : Mem) (str wcs c b : ℕ)
    → w wcs ≡ some c
    → (c == 0) ≡ false
    → char_of_wchar c ≡ b
    → IsMapped m str
    → narrow_loop (suc f) m w str wcs ≡ narrow_loop f (update m str b) w (str + 1) (wcs + 1)
unfolding narrow_loop
narrow_loop-cell f m w str wcs c b e n k mapped =
    rw (e, n, narrow_loop, store-some m str (char_of_wchar c) mapped, k) refl

narrow_loop-end :
    (f : ℕ) (m w : Mem) (str wcs : ℕ)
    → w wcs ≡ some 0
    → IsMapped m str
    → narrow_loop (suc f) m w str wcs ≡ some (update m str 0)
unfolding narrow_loop
narrow_loop-end f m w str wcs e b = ground (arith, store-some m str 0 b)

wcslen_loop_lem :
    (signed : Bool) (f : ℕ) (w : Mem) (wcs len : ℕ) (s : Bytes)
    → Holds w wcs (terminated (widened signed s))
    → AreBytes s
    → NonZero s
    → length s < f
    → wcslen_loop f w wcs len ≡ some (len + length s)
unfolding wcslen_loop load
wcslen_loop_lem signed zero w wcs len s h a n l = absurd (omega arith)
wcslen_loop_lem signed (suc f) w wcs len [] h a n l = ground (arith, h.0)
wcslen_loop_lem signed (suc f) w wcs len (c ∷ s) h a n l =
    rw (h.0, wcslen_loop)
      (rw (wchar-nonzero signed c a.0 n.0) (
        wcslen_loop_lem signed f w (wcs + 1) (len + 1) s h.1 a.1 n.1 (omega arith)
        ∙ ap some (omega arith)))

narrow_loop_lem :
    (signed : Bool) (f : ℕ) (m w : Mem) (str wcs : ℕ) (s : Bytes)
    → Holds w wcs (terminated (widened signed s))
    → AreBytes s
    → NonZero s
    → IsBlock m str (suc (length s))
    → length s < f
    → (m' : Mem) × (narrow_loop f m w str wcs ≡ some m') × Copied m str s m'
narrow_loop_lem signed zero m w str wcs s h a n b l = absurd (omega arith)
narrow_loop_lem signed (suc f) m w str wcs [] h a n b l =
    (update m str 0, narrow_loop-end f m w str wcs h.0 (IsBlock-head m str 0 b), Copied-end m str)
narrow_loop_lem signed (suc f) m w str wcs (c ∷ s) h a n b l =
    let v = wchar_of_char signed c in
    let (m', e, d) =
      narrow_loop_lem signed f (update m str c) w (str + 1) (wcs + 1) s h.1 a.1 n.1
        (update-IsBlock m str c (str + 1) (suc (length s)) (IsBlock-tail m str (suc (length s)) b))
        (omega arith) in
    (
      m',
      narrow_loop-cell f m w str wcs v c h.0 (wchar-nonzero signed c a.0 n.0)
            (char-wchar signed c a.0) (IsBlock-head m str (suc (length s)) b)
          ∙ e,
      Copied-byte m m' str c s d,
    )

-- `wcs2str` gives back the string that `str2wcs` widened, its length included.
pub wcs2str-str2wcs :
    (signed : Bool) (f : ℕ) (m w : Mem) (wcs str back : ℕ) (s : Bytes)
    → IsCString m str s
    → AreBytes s
    → IsBlock w wcs (suc (length s))
    → IsBlock m back (suc (length s))
    → length s < f
    → (w' m' : Mem) × (str2wcs signed f m w (some wcs) str ≡ some (length s, w'))
      × (wcs2str f m w' (some back) wcs ≡ some (length s, m'))
      × Copied m back s m'
unfolding wcs2str wcslen
wcs2str-str2wcs signed f m w wcs str back s h a b b' l =
    let (w', e, d) = str2wcs_lem signed f m w wcs str s h b l in
    let (m', e', d') = narrow_loop_lem signed f m w' back wcs s d.0 a h.nonzero b' l in
    let n : wcslen_loop f w' wcs 0 ≡ some (length s) =
      wcslen_loop_lem signed f w' wcs 0 s d.0 a h.nonzero l ∙ ap some (omega arith) in
    (w', m', e, rw (n, e') refl, d')
