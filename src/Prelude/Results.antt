-- ===== src/Prelude/Results.antt =====
-- Fallible code: an exception is the value `err`, and a `do` block stops at the first one.
use Prim.Native.Nat.{ℕ}
use Prim.Native.String.{String}
use mathlib.Core.Path.{◌≡◌, refl, subst}
use mathlib.Core.Bool.{Bool, true, false}
use native.Mathlib.Omega.{arith}

pub data Result (E A : Type 0) : Type 0 where
  ok : A → Result E A
  err : E → Result E A

-- FastAPI's HTTPException
pub record HttpError : Type 0 where
  pub status_code : ℕ
  pub detail : String

abbrev pub http : {A : Type 0} → ℕ → String → Result HttpError A
http s d = err (record { status_code = s; detail = d })

infixl 5 ◌>>=◌ ◌>>◌
abbrev pub ◌>>=◌ : {E A B : Type 0} → Result E A → (A → Result E B) → Result E B
ok a >>= f = f a
err e >>= f = err e

abbrev pub ◌>>◌ : {E B : Type 0} → Result E (Unit {0}) → Result E B → Result E B
m >> k = m >>= λ _. k

-- `if refused: raise e`
abbrev pub raise_if : {E : Type 0} → Bool → E → Result E (Unit {0})
raise_if true e = err e
raise_if false e = ok tt

-- `try: ... except E as exc: raise HTTPException(status_code=s, detail=str(exc))`
abbrev pub raise_as : {A : Type 0} → ℕ → Result String A → Result HttpError A
raise_as s (ok a) = ok a
raise_as s (err e) = err (record { status_code = s; detail = e })

-- What holds of the result if the code returns one; an exception ends the request before it
-- commits, so nothing is asked of it.
abbrev pub Ensures : {E A : Type 0} → (A → Type 0) → Result E A → Type 0
Ensures P (ok a) = P a
Ensures P (err _) = Unit

module _ {E A B : Type 0} (P : A → Type 0) (Q : B → Type 0) where
  pub Ensures-bind :
      (m : Result E A) (f : A → Result E B)
      → Ensures P m
      → ((a : A) → P a → Ensures Q (f a))
      → Ensures Q (m >>= f)
  Ensures-bind (ok a) f h k = k a h
  Ensures-bind (err e) f h k = tt

module _ {E A : Type 0} (P : A → Type 0) where
  pub Ensures-raise_if :
      (b : Bool) (e : E) (m : Result E A)
      → (b ≡ false → Ensures P m)
      → Ensures P (raise_if b e >> m)
  Ensures-raise_if true e m h = tt
  Ensures-raise_if false e m h = h refl

  pub Ensures-ok : (m : Result E A) {a : A} → Ensures P m → m ≡ ok a → P a
  Ensures-ok (ok b) {a} h e = subst P (cc) h
  Ensures-ok (err x) {a} h e = cc

pub Ensures-raise_as :
    {A : Type 0} (P : A → Type 0) (s : ℕ) (m : Result String A)
    → Ensures P m
    → Ensures P (raise_as s m)
Ensures-raise_as P s (ok a) h = h
Ensures-raise_as P s (err e) h = tt

pub Ensures-any : {E A : Type 0} (m : Result E A) → Ensures (λ _. Unit {0}) m
Ensures-any (ok a) = tt
Ensures-any (err e) = tt

-- A chain that returns something has returned something at each step.
pub bind_inverse :
    {E A B : Type 0} (m : Result E A) (f : A → Result E B) {b : B}
    → (m >>= f) ≡ ok b
    → (a : A) × (m ≡ ok a) × (f a ≡ ok b)
bind_inverse (ok a) f {b} h = (a, refl, h)
bind_inverse (err e) f {b} h = absurd (ground arith)
