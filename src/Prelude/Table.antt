-- ===== src/Prelude/Table.antt =====
-- A database table as the list of its rows, and the statements that the services run on one.
pub mod Keys
pub mod Selection
pub mod Deletion
pub mod Orders
use Prim.Native.Nat.{ℕ, ◌≤◌}
use mathlib.Core.Path.{◌≡◌, refl, subst}
use mathlib.Core.Logic.{inl, inr}
use mathlib.Core.Bool.{Bool, true, false, ◌||◌, ◌&&◌}
use mathlib.Core.Option.{Option, none, some}
use mathlib.Core.List.{List, [], ◌∷◌, ◌++◌}
use native.Mathlib.Omega.{arith}
use vehinode.Prelude.Tests.{◌==◌, ==_iff, Bool-cases, leb, if◌then◌else◌, is_some}
use vehinode.Prelude.Lists.{length}

module _ {A : Type 0} where
  -- `db.scalar(select(A).where(p))` and `db.get(A, key)`: the first row that fits.
  unfoldable pub find : (A → Bool) → List A → Option A
  find p [] = none
  find p (x ∷ xs) = if p x then some x else find p xs

  -- `db.scalars(select(A).where(p))`
  unfoldable pub select : (A → Bool) → List A → List A
  select p [] = []
  select p (x ∷ xs) = let rest = select p xs in if p x then x ∷ rest else rest

  -- `update(A).where(p).values(...)`, and the assignments to the columns of a loaded row.
  unfoldable pub update_where : (A → Bool) → (A → A) → List A → List A
  update_where p f [] = []
  update_where p f (x ∷ xs) = (if p x then f x else x) ∷ update_where p f xs

  -- `delete(A).where(p)`
  unfoldable pub delete_where : (A → Bool) → List A → List A
  delete_where p [] = []
  delete_where p (x ∷ xs) = let rest = delete_where p xs in if p x then rest else x ∷ rest

  -- `.order_by(key)`: ascending; rows with equal keys, whose order SQL leaves open, keep theirs.
  unfoldable pub insert_by : (A → ℕ) → A → List A → List A
  insert_by key x [] = x ∷ []
  insert_by key x (y ∷ ys) = if leb (key x) (key y) then x ∷ y ∷ ys else y ∷ insert_by key x ys

  unfoldable pub order_by : (A → ℕ) → List A → List A
  unfolding insert_by
  order_by key [] = []
  order_by key (x ∷ xs) = insert_by key x (order_by key xs)

  unfoldable pub any : (A → Bool) → List A → Bool
  any p [] = false
  any p (x ∷ xs) = p x || any p xs

  pub find-holds : (p : A → Bool) (xs : List A) {a : A} → find p xs ≡ some a → p a ≡ true
  unfolding find
  find-holds p [] {a} h = ground arith
  find-holds p (x ∷ xs) {a} h = ground (arith, find-holds p xs {a = a})

  pub any-of_find :
      (p q : A → Bool) (xs : List A) {a : A} → find p xs ≡ some a → q a ≡ true → any q xs ≡ true
  unfolding find any
  any-of_find p q [] {a} h k = ground arith
  any-of_find p q (x ∷ xs) {a} h k = ground (arith, any-of_find p q xs {a = a})

  pub find-append :
      (p : A → Bool) (xs ys : List A)
      → find p (xs ++ ys) ≡ (if is_some (find p xs) then find p xs else find p ys)
  unfolding find
  find-append p [] ys = refl
  find-append p (x ∷ xs) ys = ground (arith, find-append p xs ys)

  pub any-append : (p : A → Bool) (xs ys : List A) → any p (xs ++ ys) ≡ (any p xs || any p ys)
  unfolding any
  any-append p [] ys = refl
  any-append p (x ∷ xs) ys = ground (arith, any-append p xs ys)

  -- Rows that a deletion does not concern are still found, and rows that it covers are not.
  pub find-delete_where_ne :
      (p q : A → Bool) (xs : List A)
      → ((x : A) → p x ≡ true → q x ≡ false)
      → find p (delete_where q xs) ≡ find p xs
  unfolding find delete_where
  find-delete_where_ne p q [] h = refl
  find-delete_where_ne p q (x ∷ xs) h = ground (arith, find-delete_where_ne p q xs h, h x)

  pub find-delete_where_self :
      (p q : A → Bool) (xs : List A)
      → ((x : A) → p x ≡ true → q x ≡ true)
      → find p (delete_where q xs) ≡ none
  unfolding find delete_where
  find-delete_where_self p q [] h = refl
  find-delete_where_self p q (x ∷ xs) h = ground (arith, find-delete_where_self p q xs h, h x)

  -- An update that keeps what a test reads does not change which row is found.
  pub find-update_where :
      (p q : A → Bool) (f : A → A) (xs : List A)
      → ((x : A) → p (f x) ≡ p x)
      → find p (update_where q f xs)
        ≡ elim (find p xs) [ none ↦ none | some x ↦ some (if q x then f x else x) ]
  unfolding find update_where
  find-update_where p q f [] h = refl
  find-update_where p q f (x ∷ xs) h = ground (arith, find-update_where p q f xs h, h x)

  pub find-update_where-some :
      (p q : A → Bool) (f : A → A) (xs : List A) {a : A}
      → ((x : A) → p (f x) ≡ p x)
      → find p xs ≡ some a
      → find p (update_where q f xs) ≡ some (if q a then f a else a)
  find-update_where-some p q f xs {a} h e = ground (arith, find-update_where p q f xs h)

  pub find-none_of_any : (p : A → Bool) (xs : List A) → any p xs ≡ false → find p xs ≡ none
  unfolding find any
  find-none_of_any p [] h = refl
  find-none_of_any p (x ∷ xs) h = ground (arith, find-none_of_any p xs)

  pub is_some-find : (p : A → Bool) (xs : List A) → is_some (find p xs) ≡ any p xs
  unfolding find any
  is_some-find p [] = refl
  is_some-find p (x ∷ xs) = ground (arith, is_some-find p xs)

  pub any_mono :
      (p q : A → Bool) (xs : List A)
      → ((x : A) → p x ≡ true → q x ≡ true)
      → any p xs ≡ true
      → any q xs ≡ true
  unfolding any
  any_mono p q [] h k = k
  any_mono p q (x ∷ xs) h k = ground (arith, any_mono p q xs h, h x)

  pub any_ext : (p q : A → Bool) (xs : List A) → ((x : A) → p x ≡ q x) → any p xs ≡ any q xs
  unfolding any
  any_ext p q [] h = refl
  any_ext p q (x ∷ xs) h = ground (arith, any_ext p q xs h, h x)

  pub length-select-le : (p : A → Bool) (xs : List A) → length (select p xs) ≤ length xs
  unfolding select
  length-select-le p [] = omega arith
  length-select-le p (x ∷ xs) = ground (arith, length-select-le p xs)

  pub length-update_where :
      (p : A → Bool) (f : A → A) (xs : List A) → length (update_where p f xs) ≡ length xs
  unfolding update_where
  length-update_where p f [] = refl
  length-update_where p f (x ∷ xs) = ground (arith, length-update_where p f xs)
