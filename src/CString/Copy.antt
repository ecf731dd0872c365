-- ===== src/CString/Copy.antt =====
-- The copying functions of src/string.c.
use loli_loader.Base.{
  ℕ, zero, suc, ◌+◌, ◌≤◌, ◌<◌, ◌≡◌, ◌⊎◌, inl, inr, refl, ◌∙◌, ap, false, some, [], ◌∷◌, arith, ◌==◌,
  length, take, ◌^◌, Bytes,
}
use loli_loader.Memory.{
  Mem, update, load, Holds, IsMapped, IsBlock, SameOutside, Apart, store-some, update_self,
  update_ne, update-Holds, IsBlock-head, IsBlock-tail, update-IsBlock, SameOutside-update,
  terminated, IsCString,
}
use loli_loader.CString.{strlen_loop, strlen, strcpy, strscpy_loop, strscpy, pred_size}

pub IsCString-tail :
    {m : Mem} {a : ℕ} {c : ℕ} {s : Bytes} → IsCString m a (c ∷ s) → IsCString m (a + 1) s
IsCString-tail h = record { held = h.held.1; nonzero = h.nonzero.1 }

pub length-terminated : (s : Bytes) → length (terminated s) ≡ suc (length s)
length-terminated [] = refl
length-terminated (c ∷ s) = ap suc (length-terminated s)

update-IsCString :
    (m : Mem) (a v b : ℕ) (s : Bytes)
    → (a < b) ⊎ (b + suc (length s) ≤ a)
    → IsCString m b s
    → IsCString (update m a v) b s
update-IsCString m a v b s o h = record {
  held = update-Holds m a v b (terminated s) (ground (arith, length-terminated s)) h.held;
  nonzero = h.nonzero;
}

strlen_loop_lem :
    (f : ℕ) (m : Mem) (a len : ℕ) (s : Bytes)
    → IsCString m a s
    → length s < f
    → strlen_loop f m a len ≡ some (len + length s)
unfolding strlen_loop load
strlen_loop_lem zero m a len s h l = absurd (omega arith)
strlen_loop_lem (suc f) m a len [] h l = ground (arith, h.held.0)
strlen_loop_lem (suc f) m a len (c ∷ s) h l =
    ground
      (arith, strlen_loop_lem f m (a + 1) (len + 1) s (IsCString-tail h), h.held.0, h.nonzero.0)

-- On a string shorter than the fuel `strlen` returns its length.
pub strlen_lem :
    (f : ℕ) (m : Mem) (a : ℕ) (s : Bytes)
    → IsCString m a s
    → length s < f
    → strlen f m a ≡ some (length s)
unfolding strlen
strlen_lem f m a s h l = strlen_loop_lem f m a 0 s h l ∙ ap some (omega arith)

strcpy-byte :
    (f : ℕ) (m : Mem) (dst src c : ℕ)
    → m src ≡ some c
    → (c == 0) ≡ false
    → IsMapped m dst
    → strcpy (suc f) m dst src ≡ strcpy f (update m dst c) (dst + 1) (src + 1)
unfolding strcpy
strcpy-byte f m dst src c e n b = ground (arith, store-some m dst c b)

strcpy-end :
    (f : ℕ) (m : Mem) (dst src : ℕ)
    → m src ≡ some 0
    → IsMapped m dst
    → strcpy (suc f) m dst src ≡ some (update m dst 0)
unfolding strcpy
strcpy-end f m dst src e b = ground (arith, store-some m dst 0 b)

-- What a function that writes the bytes `s` to `dst` has done, with its terminator.
abbrev pub Copied : Mem → ℕ → Bytes → Mem → Type 0
Copied m dst s m' = Holds m' dst (terminated s) × SameOutside dst (suc (length s)) m m'

pub Copied-end : (m : Mem) (dst : ℕ) → Copied m dst [] (update m dst 0)
Copied-end m dst = ((update_self m dst 0, tt), λ x h. update_ne m dst 0 x (ground arith))

pub Copied-byte :
    (m m' : Mem) (dst c : ℕ) (s : Bytes)
    → Copied (update m dst c) (dst + 1) s m'
    → Copied m dst (c ∷ s) m'
Copied-byte m m' dst c s (h, o) =
    let (o', e) = SameOutside-update dst (suc (length s)) c m m' o in ((e, h), o')

-- With room for the string and its terminator, and no overlap, `strcpy` copies both and changes
-- nothing else.
pub strcpy_lem :
    (f : ℕ) (m : Mem) (dst src : ℕ) (s : Bytes)
    → IsCString m src s
    → IsBlock m dst (suc (length s))
    → Apart dst (suc (length s)) src (suc (length s))
    → length s < f
    → (m' : Mem) × (strcpy f m dst src ≡ some m') × Copied m dst s m'
strcpy_lem zero m dst src s h b o l = absurd (omega arith)
strcpy_lem (suc f) m dst src [] h b o l =
    (update m dst 0, strcpy-end f m dst src h.held.0 (IsBlock-head m dst 0 b), Copied-end m dst)
strcpy_lem (suc f) m dst src (c ∷ s) h b o l =
    let mapped = IsBlock-head m dst (suc (length s)) b in
    let (m', e, d) =
      strcpy_lem f (update m dst c) (dst + 1) (src + 1) s
        (update-IsCString m dst c (src + 1) s (ground arith) (IsCString-tail h))
        (update-IsBlock m dst c (dst + 1) (suc (length s)) (IsBlock-tail m dst (suc (length s)) b))
        (ground arith) (omega arith) in
    (m', strcpy-byte f m dst src c h.held.0 h.nonzero.0 mapped ∙ e, Copied-byte m m' dst c s d)

strscpy_loop-byte :
    (f : ℕ) (m : Mem) (dst src limit n c : ℕ)
    → m src ≡ some c
    → (c == 0) ≡ false
    → n < limit
    → IsMapped m dst
    → strscpy_loop (suc f) m dst src limit n
      ≡ strscpy_loop f (update m dst c) (dst + 1) (src + 1) limit (n + 1)
unfolding strscpy_loop
strscpy_loop-byte f m dst src limit n c e z l b = ground (arith, store-some m dst c b)

strscpy_loop-end :
    (f : ℕ) (m : Mem) (dst src limit n : ℕ)
    → (m src ≡ some 0) ⊎ (limit ≤ n)
    → IsMapped m dst
    → strscpy_loop (suc f) m dst src limit n ≡ some (n, update m dst 0)
unfolding strscpy_loop
strscpy_loop-end f m dst src limit n e b = ground (arith, store-some m dst 0 b)

-- The loop, with `k` bytes of room left in front of the terminator.
strscpy_loop_lem :
    (k f : ℕ) (m : Mem) (dst src n : ℕ) (s : Bytes)
    → IsCString m src s
    → IsBlock m dst (suc (length (take k s)))
    → Apart dst (suc (length (take k s))) src (suc (length s))
    → length (take k s) < f
    → (m' : Mem) × (strscpy_loop f m dst src (n + k) n ≡ some (n + length (take k s), m'))
      × Copied m dst (take k s) m'
strscpy_loop_lem k zero m dst src n s h b o l = absurd (omega arith)
strscpy_loop_lem zero (suc f) m dst src n s h b o l = (
  update m dst 0,
  strscpy_loop-end f m dst src (n + 0) n (inr (omega arith)) (IsBlock-head m dst 0 b)
      ∙ ap (λ x. some (x, update m dst 0)) (omega arith),
  Copied-end m dst,
)
strscpy_loop_lem (suc k) (suc f) m dst src n [] h b o l = (
  update m dst 0,
  strscpy_loop-end f m dst src (n + suc k) n (inl h.held.0) (IsBlock-head m dst 0 b)
      ∙ ap (λ x. some (x, update m dst 0)) (omega arith),
  Copied-end m dst,
)
strscpy_loop_lem (suc k) (suc f) m dst src n (c ∷ s) h b o l =
    let r = length (take k s) in
    let mapped = IsBlock-head m dst (suc r) b in
    let (m', e, d) =
      strscpy_loop_lem k f (update m dst c) (dst + 1) (src + 1) (n + 1) s
        (update-IsCString m dst c (src + 1) s (ground arith) (IsCString-tail h))
        (update-IsBlock m dst c (dst + 1) (suc r) (IsBlock-tail m dst (suc r) b)) (ground arith)
        (omega arith) in
    let limit : n + 1 + k ≡ n + suc k = omega arith in
    let count : n + 1 + r ≡ n + suc r = omega arith in
    (
      m',
      strscpy_loop-byte f m dst src (n + suc k) n c h.held.0 h.nonzero.0 (omega arith) mapped
          ∙ rw (limit, count) at e,
      Copied-byte m m' dst c (take k s) d,
    )

-- `strscpy` copies at most `dstlen - 1` bytes, always terminates the copy, returns how many bytes it
-- copied, and writes no other cell. `dstlen` must not be 0.
pub strscpy_lem :
    (f : ℕ) (m : Mem) (dst src k : ℕ) (s : Bytes)
    → IsCString m src s
    → suc k < 2 ^ 64
    → IsBlock m dst (suc (length (take k s)))
    → Apart dst (suc (length (take k s))) src (suc (length s))
    → length (take k s) < f
    → (m' : Mem) × (strscpy f m dst src (suc k) ≡ some (length (take k s), m'))
      × Copied m dst (take k s) m'
unfolding strscpy
strscpy_lem f m dst src k s h w b o l =
    let (m', e, d) = strscpy_loop_lem k f m dst src 0 s h b o l in
    let limit : 0 + k ≡ pred_size (suc k) = omega arith in
    let count : 0 + length (take k s) ≡ length (take k s) = omega arith in
    (m', rw (limit, count) at e, d)
