-- ===== src/Prelude/Table/Deletion.antt =====
-- What a deletion and an assignment leave of a table.
use Prim.Native.Nat.{◌+◌}
use mathlib.Core.Path.{◌≡◌, refl, sym, ap, ◌∙◌, subst}
use mathlib.Core.Logic.{inl, inr}
use mathlib.Core.Bool.{Bool, true, false, not, ◌&&◌}
use mathlib.Core.Option.{none, some}
use mathlib.Core.List.{List, [], ◌∷◌, map}
use native.Mathlib.Omega.{arith}
use vehinode.Prelude.Tests.{Bool-cases, is_some}
use vehinode.Prelude.Lists.{All, length}
use vehinode.Prelude.Table.{find, any, select, update_where, delete_where, is_some-find}

module _ {A : Type 0} where
  -- A deletion with a reason to keep what is left, and an assignment to every row.
  pub All-delete_where :
      (P Q : A → Type 0) (q : A → Bool) (xs : List A)
      → ((x : A) → Q x → q x ≡ false → P x)
      → All Q xs
      → All P (delete_where q xs)
  unfolding delete_where
  All-delete_where P Q q [] k h = tt
  All-delete_where P Q q (x ∷ xs) k h = elim (Bool-cases (q x)) [
    | inl e ↦ rw e (All-delete_where P Q q xs k h.1)
    | inr e ↦ rw e (k x h.0 e, All-delete_where P Q q xs k h.1)
  ]

  pub All-map :
      (P Q : A → Type 0) (f : A → A) (xs : List A)
      → ((x : A) → Q x → P (f x))
      → All Q xs
      → All P (map f xs)
  All-map P Q f [] k h = tt
  All-map P Q f (x ∷ xs) k h = (k x h.0, All-map P Q f xs k h.1)

  pub any-delete_where :
      (p q : A → Bool) (xs : List A)
      → any p xs ≡ true
      → any (λ x. p x && q x) xs ≡ false
      → any p (delete_where q xs) ≡ true
  unfolding any delete_where
  any-delete_where p q [] h k = h
  any-delete_where p q (x ∷ xs) h k = ground (arith, any-delete_where p q xs)

  pub any-map : (p : A → Bool) (f : A → A) (xs : List A) → any p (map f xs) ≡ any (λ x. p (f x)) xs
  unfolding any
  any-map p f [] = refl
  any-map p f (x ∷ xs) = ground (arith, any-map p f xs)

  pub any-delete_where_self : (q : A → Bool) (xs : List A) → any q (delete_where q xs) ≡ false
  unfolding any delete_where
  any-delete_where_self q [] = refl
  any-delete_where_self q (x ∷ xs) = ground (arith, any-delete_where_self q xs)

  pub delete_where-select :
      (q : A → Bool) (xs : List A) → delete_where q xs ≡ select (λ x. not (q x)) xs
  unfolding select delete_where
  delete_where-select q [] = refl
  delete_where-select q (x ∷ xs) = ground (arith, delete_where-select q xs)

  pub length-delete_where-add-select :
      (q : A → Bool) (xs : List A) → length (delete_where q xs) + length (select q xs) ≡ length xs
  unfolding select delete_where
  length-delete_where-add-select q [] = omega arith
  length-delete_where-add-select q (x ∷ xs) = ground (arith, length-delete_where-add-select q xs)

  pub any-update_where :
      (p q : A → Bool) (f : A → A) (xs : List A)
      → ((x : A) → p x ≡ true → p (f x) ≡ true)
      → any p xs ≡ true
      → any p (update_where q f xs) ≡ true
  unfolding any update_where
  any-update_where p q f [] k h = h
  any-update_where p q f (x ∷ xs) k h = ground (arith, any-update_where p q f xs k, k x)

  pub All-of_find :
      (P : A → Type 0) (p : A → Bool) (xs : List A) {a : A} → find p xs ≡ some a → All P xs → P a
  unfolding find
  All-of_find P p [] {a} e h = absurd (ground arith)
  All-of_find P p (x ∷ xs) {a} e h = elim (Bool-cases (p x)) [
    | inl fits ↦ subst P (ground arith) h.0
    | inr other ↦ All-of_find P p xs {a = a} (ground arith) h.1
  ]

  pub All-update_where_split :
      (P : A → Type 0) (q : A → Bool) (f : A → A) (xs : List A)
      → All (λ x. q x ≡ false → P x) xs
      → All (λ x. q x ≡ true → P (f x)) xs
      → All P (update_where q f xs)
  unfolding update_where
  All-update_where_split P q f [] h k = tt
  All-update_where_split P q f (x ∷ xs) h k = elim (Bool-cases (q x)) [
    | inl hit ↦
        let same : update_where q f (x ∷ xs) ≡ f x ∷ update_where q f xs = ground arith in
        subst (All P) (sym same) (k.0 hit, All-update_where_split P q f xs h.1 k.1)
    | inr miss ↦
        let same : update_where q f (x ∷ xs) ≡ x ∷ update_where q f xs = ground arith in
        subst (All P) (sym same) (h.0 miss, All-update_where_split P q f xs h.1 k.1)
  ]

  pub none-any : (q : A → Bool) (xs : List A) → find q xs ≡ none → any q xs ≡ false
  none-any q xs h = sym (is_some-find q xs) ∙ ap is_some h
