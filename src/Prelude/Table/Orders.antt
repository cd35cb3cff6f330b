-- ===== src/Prelude/Table/Orders.antt =====
-- Primary keys under an order, a limit and a projection.
use Prim.Native.Nat.{ℕ, zero, suc}
use mathlib.Core.Path.{◌≡◌, refl}
use mathlib.Core.Logic.{inl, inr}
use mathlib.Core.Bool.{Bool, true, false, ◌||◌}
use mathlib.Core.List.{List, [], ◌∷◌, map}
use native.Mathlib.Omega.{arith}
use vehinode.Prelude.Tests.{◌==◌, ==_iff, Bool-cases, leb}
use vehinode.Prelude.Lists.{take, elem, distinct}
use vehinode.Prelude.Table.{any, insert_by, order_by, delete_where}
use vehinode.Prelude.Table.Keys.{UniqueBy}

module _ {A : Type 0} where
  any-insert_by :
      (p : A → Bool) (f : A → ℕ) (x : A) (xs : List A)
      → any p (insert_by f x xs) ≡ (p x || any p xs)
  unfolding any insert_by
  any-insert_by p f x [] = refl
  any-insert_by p f x (y ∷ ys) = ground (arith, any-insert_by p f x ys)

  pub any-order_by : (p : A → Bool) (f : A → ℕ) (xs : List A) → any p (order_by f xs) ≡ any p xs
  unfolding any order_by
  any-order_by p f [] = refl
  any-order_by p f (x ∷ xs) =
      ground (arith, any-insert_by p f x (order_by f xs), any-order_by p f xs)

  UniqueBy-insert_by :
      (key f : A → ℕ) (x : A) (xs : List A)
      → any (λ y. key y == key x) xs ≡ false
      → UniqueBy key xs
      → UniqueBy key (insert_by f x xs)
  unfolding any insert_by
  UniqueBy-insert_by key f x [] free u = (refl, tt)
  UniqueBy-insert_by key f x (y ∷ ys) free u = elim (Bool-cases (leb (f x) (f y))) [
    | inl e ↦ rw e (free, u)
    | inr e ↦ rw e (
      ground (
        arith,
        any-insert_by (λ z. key z == key y) f x ys,
        ==_iff (key x) (key y),
        ==_iff (key y) (key x),
        u.0,
      ),
      UniqueBy-insert_by key f x ys (ground arith) u.1,
    )
  ]

  pub UniqueBy-order_by :
      (key f : A → ℕ) (xs : List A) → UniqueBy key xs → UniqueBy key (order_by f xs)
  unfolding order_by
  UniqueBy-order_by key f [] u = tt
  UniqueBy-order_by key f (x ∷ xs) u =
      UniqueBy-insert_by key f x (order_by f xs)
        (ground (arith, any-order_by (λ y. key y == key x) f xs, u.0))
        (UniqueBy-order_by key f xs u.1)

  any-take : (p : A → Bool) (n : ℕ) (xs : List A) → any p xs ≡ false → any p (take n xs) ≡ false
  unfolding any
  any-take p zero xs h = refl
  any-take p (suc n) [] h = refl
  any-take p (suc n) (x ∷ xs) h = ground (arith, any-take p n xs)

  pub UniqueBy-take :
      (key : A → ℕ) (n : ℕ) (xs : List A) → UniqueBy key xs → UniqueBy key (take n xs)
  UniqueBy-take key zero xs u = tt
  UniqueBy-take key (suc n) [] u = tt
  UniqueBy-take key (suc n) (x ∷ xs) u =
      (any-take (λ y. key y == key x) n xs u.0, UniqueBy-take key n xs u.1)

  pub elem-map :
      (key : A → ℕ) (k : ℕ) (xs : List A) → elem k (map key xs) ≡ any (λ y. key y == k) xs
  unfolding any
  elem-map key k [] = refl
  elem-map key k (x ∷ xs) = ground (arith, elem-map key k xs)

  pub distinct-map : (key : A → ℕ) (xs : List A) → UniqueBy key xs → distinct (map key xs) ≡ true
  distinct-map key [] u = refl
  distinct-map key (x ∷ xs) u =
      ground (arith, elem-map key (key x) xs, distinct-map key xs u.1, u.0)

  pub any-delete_where_covered :
      (p q : A → Bool) (xs : List A)
      → ((x : A) → p x ≡ true → q x ≡ true)
      → any p (delete_where q xs) ≡ false
  unfolding any delete_where
  any-delete_where_covered p q [] h = refl
  any-delete_where_covered p q (x ∷ xs) h = ground (arith, any-delete_where_covered p q xs h, h x)
