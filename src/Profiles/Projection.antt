-- ===== src/Profiles/Projection.antt =====
-- The projection of a profile that an agent downloads.
use vehinode.Prelude.{◌≡◌, refl, arith, String, true, List, ok, bind_inverse, eq_iff, subst, sym}
use vehinode.Json.{Json, arr, obj, Items, nil, cons, Fields, end, field, get}
use vehinode.Profiles.{
  agent_definition, keep_fields, is_key, project_items, items, list_or_empty, required_field,
  computed_field, agent_signal_keys, agent_computed_keys,
}

module _ (keys : List String) where
  keep_fields-keep_fields :
      (fs : Fields) → keep_fields keys (keep_fields keys fs) ≡ keep_fields keys fs
  unfolding keep_fields
  keep_fields-keep_fields end = refl
  keep_fields-keep_fields (field k v fs) = ground (arith, keep_fields-keep_fields fs)

  -- A key of the list keeps its value.
  pub get-keep_fields :
      (k : String) (fs : Fields) → is_key k keys ≡ true → get k (keep_fields keys fs) ≡ get k fs
  unfolding keep_fields get
  get-keep_fields k end h = refl
  get-keep_fields k (field j v fs) h = ground (arith, get-keep_fields k fs, eq_iff j k)

  project_items-project_items :
      (xs ys : Items) → project_items keys xs ≡ ok ys → project_items keys ys ≡ ok ys
  unfolding project_items
  project_items-project_items nil ys h = ground arith
  project_items-project_items (cons x xs) ys h =
      let (fs, e₁, h₁) = bind_inverse (items x) _ h in
      let (rest, e₂, h₂) = bind_inverse (project_items keys xs) _ h₁ in
      let e : cons (obj (keep_fields keys fs)) rest ≡ ys = ground arith in
      subst (λ zs. project_items keys zs ≡ ok zs) e
        (ground (arith, keep_fields-keep_fields fs, project_items-project_items xs rest e₂))

project_items_cons :
    (keys : List String) (x : Json) (xs ys : Items)
    → project_items keys (cons x xs) ≡ ok ys
    → (z : Json) × (zs : Items) × (ys ≡ cons z zs)
unfolding project_items
project_items_cons keys x xs ys h =
    let (fs, e₁, h₁) = bind_inverse (items x) _ h in
    let (rest, e₂, h₂) = bind_inverse (project_items keys xs) _ h₁ in
    (obj (keep_fields keys fs), rest, ground arith)

computed_field_of :
    (x : Json) (xs : Items)
    → project_items agent_computed_keys (cons x xs) ≡ ok (cons x xs)
    → computed_field (cons x xs) ≡ ok (field "computed_metrics" (arr (cons x xs)) end)
unfolding computed_field
computed_field_of x xs h = rw h refl

computed_field-again :
    (xs : Items) (fs : Fields)
    → computed_field xs ≡ ok fs
    → computed_field (list_or_empty (get "computed_metrics" fs)) ≡ ok fs
unfolding computed_field get
computed_field-again nil fs h =
    let e : end ≡ fs = ground arith in
    subst (λ gs. computed_field (list_or_empty (get "computed_metrics" gs)) ≡ ok gs) e refl
computed_field-again (cons x xs) fs h =
    let (ys, e, h₁) = bind_inverse (project_items agent_computed_keys (cons x xs)) _ h in
    let (z, zs, e₁) = project_items_cons agent_computed_keys x xs ys e in
    let e₂ : field "computed_metrics" (arr ys) end ≡ fs = ground arith in
    subst (λ gs. computed_field (list_or_empty (get "computed_metrics" gs)) ≡ ok gs) e₂
      (subst (λ us. computed_field us ≡ ok (field "computed_metrics" (arr us) end)) (sym e₁)
        (computed_field_of z zs (
          subst (λ us. project_items agent_computed_keys us ≡ ok us) e₁
            (project_items-project_items agent_computed_keys (cons x xs) ys e))))

-- The projection of a profile has nothing left to drop: projecting it again returns it.
agent_definition_again :
    (definition projection : Fields)
    → agent_definition definition ≡ ok projection
    → agent_definition projection ≡ ok projection
unfolding agent_definition get
agent_definition_again definition projection h =
    let (id, e₁, h₁) = bind_inverse (required_field "id" definition) _ h in
    let (signals, e₂, h₂) =
      bind_inverse (project_items agent_signal_keys (list_or_empty (get "signals" definition))) _
        h₁ in
    let (computed, e₃, h₃) =
      bind_inverse (computed_field (list_or_empty (get "computed_metrics" definition))) _ h₂ in
    let e : field "id" id (field "signals" (arr signals) computed) ≡ projection = ground arith in
    subst (λ p. agent_definition p ≡ ok p) e
      (ground (
        arith,
        project_items-project_items agent_signal_keys (list_or_empty (get "signals" definition))
            signals e₂,
        computed_field-again (list_or_empty (get "computed_metrics" definition)) computed e₃,
      ))
