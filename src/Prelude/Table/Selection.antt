-- ===== src/Prelude/Table/Selection.antt =====
-- Queries with a filter and an order: which rows they return, and which comes first.
use Prim.Native.Nat.{ℕ, ◌≤◌}
use mathlib.Core.Path.{◌≡◌, refl, subst}
use mathlib.Core.Logic.{inl, inr}
use mathlib.Core.Bool.{Bool, true, false, ◌&&◌}
use mathlib.Core.Option.{some}
use mathlib.Core.List.{List, [], ◌∷◌}
use native.Mathlib.Omega.{arith}
use vehinode.Prelude.Tests.{◌==◌, ==_iff, Bool-cases, leb}
use vehinode.Prelude.Lists.{All}
use vehinode.Prelude.Table.{find, any, select, insert_by, order_by, update_where}
use vehinode.Prelude.Table.Keys.{UniqueBy, any_key}

module _ {A : Type 0} where
  pub All-mono : (P Q : A → Type 0) (xs : List A) → ((x : A) → P x → Q x) → All P xs → All Q xs
  All-mono P Q [] k h = tt
  All-mono P Q (x ∷ xs) k h = (k x h.0, All-mono P Q xs k h.1)

  pub All-update_where :
      (P : A → Type 0) (q : A → Bool) (f : A → A) (xs : List A)
      → All (λ x. q x ≡ true → P (f x)) xs
      → All P xs
      → All P (update_where q f xs)
  unfolding update_where
  All-update_where P q f [] k h = tt
  All-update_where P q f (x ∷ xs) k h = elim (Bool-cases (q x)) [
    | inl e ↦ rw e (k.0 e, All-update_where P q f xs k.1 h.1)
    | inr e ↦ rw e (h.0, All-update_where P q f xs k.1 h.1)
  ]

  pub any-select : (p q : A → Bool) (xs : List A) → any q (select p xs) ≡ any (λ x. p x && q x) xs
  unfolding any select
  any-select p q [] = refl
  any-select p q (x ∷ xs) = ground (arith, any-select p q xs)

  any-select-none : (p q : A → Bool) (xs : List A) → any q xs ≡ false → any q (select p xs) ≡ false
  unfolding any select
  any-select-none p q [] h = refl
  any-select-none p q (x ∷ xs) h = ground (arith, any-select-none p q xs)

  -- Under a primary key a query returns the key of a row exactly when the row fits.
  pub any-select-key :
      (key : A → ℕ) (k : ℕ) (p : A → Bool) (xs : List A) {a : A}
      → UniqueBy key xs
      → find (λ y. key y == k) xs ≡ some a
      → any (λ y. key y == k) (select p xs) ≡ p a
  unfolding any select find
  any-select-key key k p [] {a} u h = ground arith
  any-select-key key k p (x ∷ xs) {a} u h = elim (Bool-cases (key x == k)) [
    | inl same ↦ ground (
      arith,
      any-select-none p (λ y. key y == k) xs
          (any_key key (key x) k xs ((==_iff (key x) k).0 same) u.0),
    )
    | inr other ↦ ground (arith, any-select-key key k p xs {a = a} u.1)
  ]

  pub UniqueBy-select :
      (key : A → ℕ) (p : A → Bool) (xs : List A) → UniqueBy key xs → UniqueBy key (select p xs)
  unfolding select
  UniqueBy-select key p [] u = tt
  UniqueBy-select key p (x ∷ xs) u = elim (Bool-cases (p x)) [
    | inl e ↦ rw e (any-select-none p (λ y. key y == key x) xs u.0, UniqueBy-select key p xs u.1)
    | inr e ↦ rw e (UniqueBy-select key p xs u.1)
  ]

  pub All-none :
      (P : A → Type 0) (q : A → Bool) (xs : List A)
      → any q xs ≡ false
      → All (λ x. q x ≡ true → P x) xs
  unfolding any
  All-none P q [] h = tt
  All-none P q (x ∷ xs) h = (λ e. absurd (ground arith), All-none P q xs (ground arith))

  -- What holds of the row of a key holds wherever the key stands.
  pub All-key :
      (P : A → Type 0) (key : A → ℕ) (k : ℕ) (xs : List A) {a : A}
      → UniqueBy key xs
      → find (λ y. key y == k) xs ≡ some a
      → P a
      → All (λ x. key x == k ≡ true → P x) xs
  unfolding find
  All-key P key k [] {a} u h pa = tt
  All-key P key k (x ∷ xs) {a} u h pa = elim (Bool-cases (key x == k)) [
    | inl same ↦ (
      λ _. let e : a ≡ x = ground arith in subst P e pa,
      All-none P (λ y. key y == k) xs (any_key key (key x) k xs ((==_iff (key x) k).0 same) u.0),
    )
    | inr other ↦ (λ e. absurd (ground arith), All-key P key k xs {a = a} u.1 (ground arith) pa)
  ]

  All-insert_by :
      (P : A → Type 0) (key : A → ℕ) (x : A) (xs : List A)
      → P x
      → All P xs
      → All P (insert_by key x xs)
  unfolding insert_by
  All-insert_by P key x [] px h = (px, tt)
  All-insert_by P key x (y ∷ ys) px h = elim (Bool-cases (leb (key x) (key y))) [
    | inl e ↦ rw e (px, h)
    | inr e ↦ rw e (h.0, All-insert_by P key x ys px h.1)
  ]

  pub All-order_by :
      (P : A → Type 0) (key : A → ℕ) (xs : List A) → All P xs → All P (order_by key xs)
  unfolding order_by
  All-order_by P key [] h = tt
  All-order_by P key (x ∷ xs) h =
      All-insert_by P key x (order_by key xs) h.0 (All-order_by P key xs h.1)

  -- Ascending keys.
  abbrev pub IsOrdered : (A → ℕ) → List A → Type 0
  IsOrdered key [] = Unit
  IsOrdered key (x ∷ xs) = All (λ y. key x ≤ key y) xs × IsOrdered key xs

  IsOrdered-insert_by :
      (key : A → ℕ) (x : A) (xs : List A) → IsOrdered key xs → IsOrdered key (insert_by key x xs)
  unfolding insert_by
  IsOrdered-insert_by key x [] h = (tt, tt)
  IsOrdered-insert_by key x (y ∷ ys) h = elim (Bool-cases (leb (key x) (key y))) [
    | inl e ↦
        let le : key x ≤ key y = ground arith in
        rw e
          ((le, All-mono (λ z. key y ≤ key z) (λ z. key x ≤ key z) ys (λ z l. omega arith) h.0), h)
    | inr e ↦ rw e (
      All-insert_by (λ z. key y ≤ key z) key x ys (ground arith) h.0,
      IsOrdered-insert_by key x ys h.1,
    )
  ]

  pub order_by-IsOrdered : (key : A → ℕ) (xs : List A) → IsOrdered key (order_by key xs)
  unfolding order_by
  order_by-IsOrdered key [] = tt
  order_by-IsOrdered key (x ∷ xs) =
      IsOrdered-insert_by key x (order_by key xs) (order_by-IsOrdered key xs)

  pub All-select :
      (P : A → Type 0) (p : A → Bool) (xs : List A)
      → All (λ x. p x ≡ true → P x) xs
      → All P (select p xs)
  unfolding select
  All-select P p [] h = tt
  All-select P p (x ∷ xs) h = elim (Bool-cases (p x)) [
    | inl e ↦ rw e (h.0 e, All-select P p xs h.1)
    | inr e ↦ rw e (All-select P p xs h.1)
  ]

  pub All-All : (P : A → Type 0) (xs : List A) → ((x : A) → P x) → All P xs
  All-All P [] k = tt
  All-All P (x ∷ xs) k = (k x, All-All P xs k)

  pub All-both :
      (P Q R : A → Type 0) (xs : List A)
      → ((x : A) → P x → Q x → R x)
      → All P xs
      → All Q xs
      → All R xs
  All-both P Q R [] k h g = tt
  All-both P Q R (x ∷ xs) k h g = (k x h.0 g.0, All-both P Q R xs k h.1 g.1)

  pub All-not_any : (q : A → Bool) (xs : List A) → any q xs ≡ false → All (λ x. q x ≡ false) xs
  unfolding any
  All-not_any q [] h = tt
  All-not_any q (x ∷ xs) h = (ground arith, All-not_any q xs (ground arith))

  -- Under a primary key each row is the one that is found under its key.
  pub All-find :
      (key : A → ℕ) (xs : List A)
      → UniqueBy key xs
      → All (λ x. find (λ y. key y == key x) xs ≡ some x) xs
  unfolding find
  All-find key [] u = tt
  All-find key (x ∷ xs) u = (
    ground arith,
    All-both (λ y. (key y == key x) ≡ false) (λ y. find (λ z. key z == key y) xs ≡ some y)
        (λ y. find (λ z. key z == key y) (x ∷ xs) ≡ some y) xs (λ y ne e. ground arith)
        (All-not_any (λ y. key y == key x) xs u.0) (All-find key xs u.1),
  )

  -- A query misses no row that fits, and an order loses none.
  All-of_insert_by :
      (P : A → Type 0) (key : A → ℕ) (x : A) (xs : List A)
      → All P (insert_by key x xs)
      → P x × All P xs
  unfolding insert_by
  All-of_insert_by P key x [] h = (h.0, tt)
  All-of_insert_by P key x (y ∷ ys) h = elim (Bool-cases (leb (key x) (key y))) [
    | inl e ↦ let g : P x × (P y × All P ys) = rw e at h in g
    | inr e ↦
        let g : P y × All P (insert_by key x ys) = rw e at h in
        let (px, rest) = All-of_insert_by P key x ys g.1 in (px, (g.0, rest))
  ]

  pub All-of_order_by :
      (P : A → Type 0) (key : A → ℕ) (xs : List A) → All P (order_by key xs) → All P xs
  unfolding order_by
  All-of_order_by P key [] h = tt
  All-of_order_by P key (x ∷ xs) h =
      let (px, rest) = All-of_insert_by P key x (order_by key xs) h in
      (px, All-of_order_by P key xs rest)

  pub All-of_select :
      (P : A → Type 0) (p : A → Bool) (xs : List A)
      → All P (select p xs)
      → All (λ x. p x ≡ true → P x) xs
  unfolding select
  All-of_select P p [] h = tt
  All-of_select P p (x ∷ xs) h = elim (Bool-cases (p x)) [
    | inl e ↦ let g : P x × All P (select p xs) = rw e at h in (λ _. g.0, All-of_select P p xs g.1)
    | inr e ↦
        let g : All P (select p xs) = rw e at h in
        (λ e'. absurd (ground arith), All-of_select P p xs g)
  ]
