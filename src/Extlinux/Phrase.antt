-- ===== src/Extlinux/Phrase.antt =====
-- `match_key` on a key of two words, such as "menu title".
use loli_loader.Base.{
  ℕ, ◌≡◌, ◌≢◌, ◌↔◌, refl, ◌∙◌, true, false, none, some, [], ◌∷◌, ◌++◌, arith, ap₂, none-ne-some,
  Bytes,
}
use loli_loader.Extlinux.{is_space, skip_space, match_key}
use loli_loader.Extlinux.Key.{
  IsBlanks, IsPair, IsPair-match_key, IsWord, is_space-append, is_space-split, match_key-IsPair,
  match_key-byte_eq, match_key-cons, match_key-end, match_key-same, skip_space-append,
}

-- A text that is the two words of the key, a value, and blanks between them.
abbrev pub IsPhrase : Bytes → Bytes → Bytes → Bytes → Type 0
IsPhrase w u v p = (s q : Bytes) × IsBlanks s × (p ≡ w ++ (s ++ q)) × IsPair u v q

skip_space-word : (u q : Bytes) → IsWord u → u ≢ [] → skip_space (u ++ q) ≡ u ++ q
unfolding skip_space
skip_space-word [] q w n = absurd (n refl)
skip_space-word (c ∷ u) q w n = rw (w.0)

skip_space-blank : (u : Bytes) → IsWord u → u ≢ [] → skip_space (b' ' ∷ u) ≡ u
unfolding skip_space
skip_space-blank [] w n = absurd (n refl)
skip_space-blank (c ∷ u) w n = rw (w.0)

not_space-match_key : (p u : Bytes) → is_space p ≡ false → match_key p (b' ' ∷ u) ≡ none
unfolding is_space
not_space-match_key [] u h = match_key-end b' ' u
not_space-match_key (c ∷ p) u h = rw match_key-cons (ground arith)

-- At the end of the first word the blanks of the text are skipped.
match_key-gap :
    (p : Bytes) (k : ℕ) (u : Bytes)
    → IsWord u
    → u ≢ []
    → is_space p ≡ true
    → match_key (k ∷ p) (k ∷ b' ' ∷ u) ≡ match_key (skip_space p) u
unfolding is_space
match_key-gap p k u w n h = rw (match_key-cons, h, skip_space-blank u w n) (ground arith)

match_key-gap_some :
    (c : ℕ) (p : Bytes) (k : ℕ) (u v : Bytes)
    → IsWord u
    → u ≢ []
    → match_key (c ∷ p) (k ∷ b' ' ∷ u) ≡ some v
    → (c ≡ k) × (is_space p ≡ true) × (match_key (skip_space p) u ≡ some v)
unfolding is_space
match_key-gap_some c p k u v w n h =
    let m = rw (match_key-cons, skip_space-blank u w n) at h in
    ground (arith, not_space-match_key p u)

match_key-IsPhrase :
    (w u p v : Bytes)
    → IsWord w
    → IsWord u
    → w ≢ []
    → u ≢ []
    → match_key p (w ++ (b' ' ∷ u)) ≡ some v
    → IsPhrase w u v p
unfolding is_space
match_key-IsPhrase [] u p v w w' n n' h = absurd (n refl)
match_key-IsPhrase (k ∷ []) u [] v w w' n n' h = absurd (none-ne-some (rw match_key-end at h))
match_key-IsPhrase (k ∷ []) u (c ∷ p) v w w' n n' h =
    let (e, b, m) = match_key-gap_some c p k u v w' n' h in
    let (s, t, q) = is_space-split p b in
    (s, skip_space p, t, ap₂ ◌∷◌ e q, match_key-IsPair u (skip_space p) v w' m)
match_key-IsPhrase (k ∷ l ∷ ks) u [] v w w' n n' h = absurd (none-ne-some (rw match_key-end at h))
match_key-IsPhrase (k ∷ l ∷ ks) u (c ∷ p) v w w' n n' h =
    let (e, m) = match_key-byte_eq c p k (l ∷ ks ++ (b' ' ∷ u)) v (w.1.0) h in
    let (s, q, b, r, i) = match_key-IsPhrase (l ∷ ks) u p v w.1 w' (λ z. cc) n' m in
    (s, q, b, ap₂ ◌∷◌ e r, i)

IsPhrase-match_key :
    (w u p v : Bytes)
    → IsWord w
    → IsWord u
    → w ≢ []
    → u ≢ []
    → IsPhrase w u v p
    → match_key p (w ++ (b' ' ∷ u)) ≡ some v
unfolding is_space
IsPhrase-match_key [] u p v w w' n n' h = absurd (n refl)
IsPhrase-match_key (k ∷ []) u p v w w' n n' (s, q, b, e, (t, b', e', i)) =
    rw
      (
        e,
        match_key-gap (s ++ q) k u w' n' (is_space-append s q b),
        skip_space-append s q b,
        e',
        skip_space-word u (t ++ v) w' n',
      )
      (IsPair-match_key u (u ++ (t ++ v)) v w' (t, b', refl, i))
IsPhrase-match_key (k ∷ l ∷ ks) u p v w w' n n' (s, q, b, e, i) = rw e (
    match_key-same (l ∷ ks ++ (s ++ q)) k (l ∷ ks ++ (b' ' ∷ u)) (w.1.0)
    ∙ IsPhrase-match_key (l ∷ ks) u (l ∷ ks ++ (s ++ q)) v w.1 w' (λ z. cc) n' (s, q, b, refl, i))

-- A key of two words, such as "menu title", matches exactly where the text is the first word, one
-- blank or more, the second word, blanks and a value, and the match is the value.
pub match_key-two_words :
    (w u p v : Bytes)
    → IsWord w
    → IsWord u
    → w ≢ []
    → u ≢ []
    → (match_key p (w ++ (b' ' ∷ u)) ≡ some v) ↔ IsPhrase w u v p
match_key-two_words w u p v hw hu nw nu =
    (match_key-IsPhrase w u p v hw hu nw nu, IsPhrase-match_key w u p v hw hu nw nu)
