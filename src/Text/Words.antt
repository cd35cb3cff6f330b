-- ===== src/Text/Words.antt =====
-- The words of a line: `strip` and `split` of Text.antt.
use vehinode.Prelude.{
  ℕ, ◌≡◌, refl, sym, ap, ◌∙◌, Bool, true, false, not, ◌&&◌, [], ◌∷◌, ◌++◌, ◌==◌, arith,
}
use mathlib.Core.List.{append-nil, append_assoc}
use vehinode.Text.{
  Text, is_empty, is_space, lstrip, rstrip, strip, replace, flush, split_word, split,
}

-- Neither white space nor a colon.
abbrev pub is_plain : Text → Bool
is_plain [] = true
is_plain (c ∷ s) = (not (is_space c) && not (c == 58)) && is_plain s

pub is_plain-append :
    (s t : Text) → is_plain s ≡ true → is_plain t ≡ true → is_plain (s ++ t) ≡ true
is_plain-append [] t p q = q
is_plain-append (c ∷ s) t p q = ground (arith, is_plain-append s t)

rstrip-plain : (s : Text) → is_plain s ≡ true → rstrip s ≡ s
unfolding rstrip
rstrip-plain [] p = refl
rstrip-plain (c ∷ s) p = ground (arith, rstrip-plain s)

-- Nothing is dropped in front of a text that does not end with white space.
rstrip-append :
    (s t : Text)
    → rstrip t ≡ t
    → is_empty t ≡ false
    → (rstrip (s ++ t) ≡ s ++ t) × (is_empty (s ++ t) ≡ false)
unfolding rstrip
rstrip-append [] t e n = (e, n)
rstrip-append (c ∷ s) t e n = let ih = rstrip-append s t e n in (ground arith, refl)

pub strip-plain : (s : Text) → is_plain s ≡ true → strip s ≡ s
unfolding strip lstrip
strip-plain [] p = refl
strip-plain (c ∷ s) p = ground (arith, rstrip-plain (c ∷ s))

pub replace-plain : (s : Text) → is_plain s ≡ true → replace 58 32 s ≡ s
unfolding replace
replace-plain [] p = refl
replace-plain (c ∷ s) p = ground (arith, replace-plain s)

pub replace-append : (s t : Text) → replace 58 32 (s ++ t) ≡ replace 58 32 s ++ replace 58 32 t
unfolding replace
replace-append [] t = refl
replace-append (c ∷ s) t = ground (arith, replace-append s t)

pub split_word-plain :
    (word s rest : Text)
    → is_plain s ≡ true
    → split_word word (s ++ rest) ≡ split_word (word ++ s) rest
unfolding split_word
split_word-plain word [] rest p = rw append-nil
split_word-plain word (c ∷ s) rest p =
    ground (arith, split_word-plain (word ++ c ∷ []) s rest, append_assoc word (c ∷ []) s)

module _ (c d : ℕ) (s t : Text) (p : is_plain (c ∷ s) ≡ true) (q : is_plain (d ∷ t) ≡ true) where
  -- Two plain words with a space between them.
  abbrev two : Text
  two = (c ∷ s) ++ 32 ∷ d ∷ t

  strip-two : strip two ≡ two
  unfolding strip lstrip rstrip
  strip-two = ground (
    arith,
    rstrip-append (c ∷ s) (32 ∷ d ∷ t),
    rstrip-append (32 ∷ []) (d ∷ t),
    rstrip-plain (d ∷ t),
  )

  pub clean-two : replace 58 32 (strip two) ≡ two
  unfolding replace
  clean-two = rw strip-two (
      ground
        (arith, replace-append (c ∷ s) (32 ∷ d ∷ t), replace-plain (c ∷ s), replace-plain (d ∷ t)))

  pub split-two : split two ≡ (c ∷ s) ∷ (d ∷ t) ∷ []
  unfolding split split_word is_space
  split-two =
      split_word-plain [] (c ∷ s) (32 ∷ d ∷ t) p
      ∙ ap (flush (c ∷ s))
          (ap (split_word []) (sym (append-nil (d ∷ t))) ∙ split_word-plain [] (d ∷ t) [] q)

pub clean-plain : (s : Text) → is_plain s ≡ true → replace 58 32 (strip s) ≡ s
clean-plain s p = rw (strip-plain s p) (replace-plain s p)

pub split-plain : (c : ℕ) (s : Text) → is_plain (c ∷ s) ≡ true → split (c ∷ s) ≡ (c ∷ s) ∷ []
unfolding split split_word
split-plain c s p = ap (split_word []) (sym (append-nil (c ∷ s))) ∙ split_word-plain [] (c ∷ s) [] p
