-- ===== src/History/Sampling.antt =====
-- How many rows the sampling takes.
use vehinode.Prelude.{
  ℕ, ◌+◌, ◌-◌, ◌*◌, ◌/◌, ◌%◌, ◌<◌, ◌≤◌, ◌≡◌, refl, sym, ◌∙◌, arith, Bool, false, ◌||◌, List, [],
  ◌∷◌, elem, length, ◌==◌, ==_iff, ltb, leb, Bool-cases, inl, inr, if◌then◌else◌,
}
use native.Mathlib.Nat.{mod-lt, mod-add-mod, mod-eq_of_lt, mod_self, mod-add-div}
use vehinode.Prelude.Table.{select, any}
use vehinode.Prelude.Table.Keys.{UniqueBy, any_key}
use vehinode.Models.{Telemetry}
use vehinode.History.{sampled, stride_of}

-- The place of a row in its group, the first being the last place of the group before.
abbrev phase : ℕ → ℕ → ℕ
phase stride ordinal = if ordinal % stride == 0 then stride else ordinal % stride

next_mod :
    (stride ordinal : ℕ)
    → 0 < stride
    → (ordinal + 1) % stride ≡ (if ordinal % stride + 1 == stride then 0 else ordinal % stride + 1)
next_mod stride ordinal h =
    let lt = mod-lt ordinal {m = stride} h in
    let same = mod-add-mod ordinal stride 1 in
    elim (Bool-cases (ordinal % stride + 1 == stride)) [
      | inl wraps ↦
          let e : ordinal % stride + 1 ≡ stride = ground arith in
          sym same ∙ rw e (grind (arith, mod_self stride))
      | inr goes ↦
          let less : ordinal % stride + 1 < stride = ground arith in
          sym same ∙ rw (mod-eq_of_lt less) (ground arith)
    ]

phase_step :
    (stride ordinal : ℕ)
    → 0 < stride
    → phase stride (ordinal + 1) ≡ (if ordinal % stride == 0 then 1 else phase stride ordinal + 1)
phase_step stride ordinal h =
    ground (arith, next_mod stride ordinal h, mod-lt ordinal {m = stride} h)

phase_pos : (stride ordinal : ℕ) → 0 < stride → 0 < phase stride ordinal
phase_pos stride ordinal h = ground arith

sampled-le :
    (stride ordinal : ℕ) (rows : List Telemetry)
    → 0 < stride
    → stride * length (sampled stride ordinal rows) + 1 ≤ length rows + phase stride ordinal
unfolding sampled
sampled-le stride ordinal [] h = let p = phase_pos stride ordinal h in omega arith
sampled-le stride ordinal (row ∷ rows) h =
    let ih = sampled-le stride (ordinal + 1) rows h in
    let step = phase_step stride ordinal h in
    elim (Bool-cases (ordinal % stride == 0)) [
      | inl taken ↦ rw taken (grind arith)
      | inr skipped ↦ rw skipped (ground arith)
    ]

stride_wide :
    (count max_points : ℕ) → 0 < max_points → count ≤ stride_of count max_points * max_points
unfolding stride_of
stride_wide count max_points h =
    let whole = (count + max_points - 1) / max_points in
    let divided = mod-add-div (count + max_points - 1) max_points in
    let small = mod-lt (count + max_points - 1) {m = max_points} h in
    let wide : count ≤ max_points * whole = omega arith in
    elim (Bool-cases (ltb 1 whole)) [
      | inl more ↦ rw more (grind arith)
      | inr one ↦ rw one (grind arith)
    ]

stride_pos : (count max_points : ℕ) → 0 < stride_of count max_points
unfolding stride_of
stride_pos count max_points = ground arith

pub times_mono : (a c p : ℕ) → a ≤ c → p * a ≤ p * c
times_mono a c p h = grind arith

le_of_times : (s l m n : ℕ) → 0 < s → s * l + 1 ≤ n + s → n ≤ s * m → l ≤ m
le_of_times s l m n pos h k = elim (Bool-cases (leb l m)) [
  | inl le ↦ ground arith
  | inr gt ↦
      let lt : m + 1 ≤ l = ground arith in
      let wide = times_mono (m + 1) l s lt in absurd (grind arith)
]

pub sampled_bound :
    (max_points : ℕ) (rows : List Telemetry)
    → 0 < max_points
    → length (sampled (stride_of (length rows) max_points) 0 rows) ≤ max_points
sampled_bound max_points rows h =
    let stride = stride_of (length rows) max_points in
    let pos = stride_pos (length rows) max_points in
    le_of_times stride (length (sampled stride 0 rows)) max_points (length rows) pos
      (ground (arith, sampled-le stride 0 rows pos)) (stride_wide (length rows) max_points h)

-- A primary key finds at most one row for each key that is asked for.
module _ {A : Type 0} (key : A → ℕ) where
  select_none :
      (k : ℕ) (xs : List A)
      → any (λ x. key x == k) xs ≡ false
      → length (select (λ x. k == key x) xs) ≡ 0
  unfolding select any
  select_none k [] h = refl
  select_none k (x ∷ xs) h = ground (arith, select_none k xs, ==_iff (key x) k, ==_iff k (key x))

  select_or :
      (p q : A → Bool) (xs : List A)
      → length (select (λ x. p x || q x) xs) ≤ length (select p xs) + length (select q xs)
  unfolding select
  select_or p q [] = omega arith
  select_or p q (x ∷ xs) = ground (arith, select_or p q xs)

  select_never : (xs : List A) → length (select (λ x. false) xs) ≡ 0
  unfolding select
  select_never [] = refl
  select_never (x ∷ xs) = select_never xs

  select_one : (k : ℕ) (xs : List A) → UniqueBy key xs → length (select (λ x. k == key x) xs) ≤ 1
  unfolding select
  select_one k [] u = omega arith
  select_one k (x ∷ xs) u = elim (Bool-cases (k == key x)) [
    | inl e ↦ rw e (
        omega
          (arith, select_none k xs (any_key key (key x) k xs (sym ((==_iff k (key x)).0 e)) u.0)))
    | inr e ↦ rw e (select_one k xs u.1)
  ]

  pub select-elem-le :
      (ks : List ℕ) (xs : List A)
      → UniqueBy key xs
      → length (select (λ x. elem (key x) ks) xs) ≤ length ks
  select-elem-le [] xs u = omega (arith, select_never xs)
  select-elem-le (k ∷ ks) xs u =
      let split = select_or (λ x. k == key x) (λ x. elem (key x) ks) xs in
      let one = select_one k xs u in omega (arith, select-elem-le ks xs u)
