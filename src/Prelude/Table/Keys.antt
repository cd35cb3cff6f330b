-- ===== src/Prelude/Table/Keys.antt =====
-- Primary keys: tables in which no two rows have the same identifier.
use Prim.Native.Nat.{ℕ}
use mathlib.Core.Path.{◌≡◌, refl, subst}
use mathlib.Core.Logic.{inl, inr, ◌≢◌}
use mathlib.Core.Bool.{Bool, false, ◌&&◌}
use mathlib.Core.Option.{some}
use mathlib.Core.List.{List, [], ◌∷◌, ◌++◌}
use native.Mathlib.Omega.{arith}
use vehinode.Prelude.Tests.{◌==◌, ==_iff, Bool-cases}
use vehinode.Prelude.Table.{find, any, update_where, delete_where, any-append}

module _ {A : Type 0} where
  -- A primary key: no two rows have the same.
  abbrev pub UniqueBy : (A → ℕ) → List A → Type 0
  UniqueBy key [] = Unit
  UniqueBy key (x ∷ xs) = (any (λ y. key y == key x) xs ≡ false) × UniqueBy key xs

  any_and_none :
      (key : A → ℕ) (k : ℕ) (q : A → Bool) (xs : List A)
      → any (λ y. key y == k) xs ≡ false
      → any (λ y. key y == k && q y) xs ≡ false
  unfolding any
  any_and_none key k q [] h = refl
  any_and_none key k q (x ∷ xs) h = ground (arith, any_and_none key k q xs)

  pub any_key :
      (key : A → ℕ) (j k : ℕ) (xs : List A)
      → j ≡ k
      → any (λ y. key y == j) xs ≡ false
      → any (λ y. key y == k) xs ≡ false
  any_key key j k xs e h = subst (λ i. any (λ y. key y == i) xs ≡ false) e h

  -- Under a primary key the row that is found is the only one that a test on the key meets.
  pub any_unique :
      (key : A → ℕ) (k : ℕ) (q : A → Bool) (xs : List A) {a : A}
      → UniqueBy key xs
      → find (λ y. key y == k) xs ≡ some a
      → any (λ y. key y == k && q y) xs ≡ q a
  unfolding find any
  any_unique key k q [] {a} u h = ground arith
  any_unique key k q (x ∷ xs) {a} u h = elim (Bool-cases (key x == k)) [
    | inl same ↦
        ground (
          arith,
          any_and_none key k q xs (any_key key (key x) k xs ((==_iff (key x) k).0 same) u.0),
        )
    | inr other ↦ ground (arith, any_unique key k q xs {a = a} u.1)
  ]

  any-update_where_key :
      (key : A → ℕ) (k : ℕ) (q : A → Bool) (f : A → A) (xs : List A)
      → ((x : A) → key (f x) ≡ key x)
      → any (λ y. key y == k) (update_where q f xs) ≡ any (λ y. key y == k) xs
  unfolding any update_where
  any-update_where_key key k q f [] h = refl
  any-update_where_key key k q f (x ∷ xs) h =
      ground (arith, any-update_where_key key k q f xs h, h x)

  pub UniqueBy-update_where :
      (key : A → ℕ) (q : A → Bool) (f : A → A) (xs : List A)
      → ((x : A) → key (f x) ≡ key x)
      → UniqueBy key xs
      → UniqueBy key (update_where q f xs)
  unfolding update_where
  UniqueBy-update_where key q f [] h u = tt
  UniqueBy-update_where key q f (x ∷ xs) h u = ground (
    arith,
    UniqueBy-update_where key q f xs h u.1,
    any-update_where_key key (key x) q f xs h,
    h x,
  )

  pub any-delete_where_key :
      (key : A → ℕ) (k : ℕ) (q : A → Bool) (xs : List A)
      → any (λ y. key y == k) xs ≡ false
      → any (λ y. key y == k) (delete_where q xs) ≡ false
  unfolding any delete_where
  any-delete_where_key key k q [] h = refl
  any-delete_where_key key k q (x ∷ xs) h = ground (arith, any-delete_where_key key k q xs)

  pub UniqueBy-delete_where :
      (key : A → ℕ) (q : A → Bool) (xs : List A)
      → UniqueBy key xs
      → UniqueBy key (delete_where q xs)
  unfolding delete_where
  UniqueBy-delete_where key q [] u = tt
  UniqueBy-delete_where key q (x ∷ xs) u =
      ground (arith, UniqueBy-delete_where key q xs u.1, any-delete_where_key key (key x) q xs u.0)

  pub UniqueBy-add :
      (key : A → ℕ) (xs : List A) (a : A)
      → any (λ y. key y == key a) xs ≡ false
      → UniqueBy key xs
      → UniqueBy key (xs ++ a ∷ [])
  unfolding any
  UniqueBy-add key [] a h u = (refl, tt)
  UniqueBy-add key (x ∷ xs) a h u =
      ground (arith, UniqueBy-add key xs a, any-append (λ y. key y == key x) xs (a ∷ []))

  -- An assignment to the row of one key, seen through another key and through its own.
  pub find-update_where_ne :
      (key : A → ℕ) (j k : ℕ) (f : A → A) (xs : List A)
      → ((x : A) → key (f x) ≡ key x)
      → k ≢ j
      → find (λ y. key y == k) (update_where (λ y. key y == j) f xs) ≡ find (λ y. key y == k) xs
  unfolding find update_where
  find-update_where_ne key j k f [] h ne = refl
  find-update_where_ne key j k f (x ∷ xs) h ne =
      ground (arith, find-update_where_ne key j k f xs h ne, h x)

  pub find-update_where_self :
      (key : A → ℕ) (k : ℕ) (f : A → A) (xs : List A) {a : A}
      → ((x : A) → key (f x) ≡ key x)
      → find (λ y. key y == k) xs ≡ some a
      → find (λ y. key y == k) (update_where (λ y. key y == k) f xs) ≡ some (f a)
  unfolding find update_where
  find-update_where_self key k f [] {a} h e = ground arith
  find-update_where_self key k f (x ∷ xs) {a} h e =
      ground (arith, find-update_where_self key k f xs {a = a} h, h x)
